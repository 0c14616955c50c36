-- ===== src/Validation/OfficialAgreement.antt =====
-- The official records agree with the counted lines when `compareOfficialRecords` of
-- packages/game-core/src/compiler/official-record-validation.ts reports nothing that blocks.
use mathlib.Core.Path.{subst}
use kbo_workbench.Prelude.{
  All, List, Option, [], contains, false, none, refl, some, ◌&&◌, ◌∙◌, ◌∷◌, ◌≡◌,
}
use kbo_workbench.Collections.Dict.{Dict, lookup}
use kbo_workbench.Compiler.Context.{CompileContext}
use kbo_workbench.Compiler.Official.{
  batter_entries, batter_value, compare_batter_line, compare_batters, compare_official_records,
  compare_pitcher_line, compare_pitchers, is_rbi, pitcher_entries, pitcher_value,
}
use kbo_workbench.Contracts.Document.{StagingGameDocumentV2}
use kbo_workbench.Contracts.Event.{PlayerId}
use kbo_workbench.Contracts.Records.{OfficialBatterRecord, OfficialPitcherRecord}
use kbo_workbench.Game.Findings.{FindingCode}
use kbo_workbench.Game.Lines.{BatterLine, PitcherLine}
use kbo_workbench.Validation.Adds.{Adds, Adds-refl, Adds-trans, is_blocked}
use kbo_workbench.Validation.Official.{
  Adds-batter_fields, Adds-missing, Adds-pitcher_fields, FieldAgrees, IsIdleEntry,
  batter_fields-agree, missing-idle, pitcher_fields-agree,
}

Adds-batter_line :
    (r : OfficialBatterRecord) (l : Option BatterLine) (c : CompileContext)
    → Adds c (compare_batter_line r l c)
Adds-batter_line r none c = Adds-missing FindingCode.official_batter_record_missing _ _ c refl
Adds-batter_line r (some l) c = Adds-batter_fields r.player_id l (batter_entries r) c

Adds-pitcher_line :
    (r : OfficialPitcherRecord) (l : Option PitcherLine) (c : CompileContext)
    → Adds c (compare_pitcher_line r l c)
Adds-pitcher_line r none c = Adds-missing FindingCode.official_pitcher_record_missing _ _ c refl
Adds-pitcher_line r (some l) c = Adds-pitcher_fields r.player_id l (pitcher_entries r) c

Adds-batters : (rs : List OfficialBatterRecord) (c : CompileContext) → Adds c (compare_batters rs c)
unfolding compare_batters
Adds-batters [] c = Adds-refl c
Adds-batters (r ∷ rs) c =
    Adds-trans (Adds-batter_line r (lookup r.player_id c.batter_lines) c) (Adds-batters rs _)

Adds-pitchers :
    (rs : List OfficialPitcherRecord) (c : CompileContext) → Adds c (compare_pitchers rs c)
unfolding compare_pitchers
Adds-pitchers [] c = Adds-refl c
Adds-pitchers (r ∷ rs) c =
    Adds-trans (Adds-pitcher_line r (lookup r.player_id c.pitcher_lines) c) (Adds-pitchers rs _)

pub Adds-official_records : (c : CompileContext) → Adds c (compare_official_records c)
unfolding compare_official_records
Adds-official_records c =
    let records = c.document.official_records in
    Adds-trans (Adds-batters records.batters c)
      (Adds-pitchers records.pitchers (compare_batters records.batters c))

-- A batter's record against the line that was counted: every number that both have is the same, but
-- for the runs batted in of a batter for whom they cannot be verified; and a batter without a line
-- has nothing to count.
abbrev BatterAgrees : List PlayerId → OfficialBatterRecord → Option BatterLine → Type 0
BatterAgrees unsure r none = All IsIdleEntry (batter_entries r)
BatterAgrees unsure r (some l) =
    All (λ e. FieldAgrees (is_rbi e.0 && contains r.player_id unsure) e.1 (batter_value l e.0))
      (batter_entries r)

-- The same for a pitcher, whose earned runs are not compared.
abbrev PitcherAgrees : OfficialPitcherRecord → Option PitcherLine → Type 0
PitcherAgrees r none = All IsIdleEntry (pitcher_entries r)
PitcherAgrees r (some l) =
    All (λ e. FieldAgrees false e.1 (pitcher_value l e.0)) (pitcher_entries r)

batter_line-agrees :
    (r : OfficialBatterRecord) (l : Option BatterLine) (c : CompileContext)
    → is_blocked (compare_batter_line r l c) ≡ false
    → BatterAgrees c.uncertain_rbi_batter_ids r l
batter_line-agrees r none c h = missing-idle _ _ _ c h
batter_line-agrees r (some l) c h = batter_fields-agree r.player_id l _ _ c refl h

pitcher_line-agrees :
    (r : OfficialPitcherRecord) (l : Option PitcherLine) (c : CompileContext)
    → is_blocked (compare_pitcher_line r l c) ≡ false
    → PitcherAgrees r l
pitcher_line-agrees r none c h = missing-idle _ _ _ c h
pitcher_line-agrees r (some l) c h = pitcher_fields-agree r.player_id l _ c h

batters-agree :
    (unsure : List PlayerId) (lines : Dict BatterLine) (rs : List OfficialBatterRecord)
    (c : CompileContext)
    → c.uncertain_rbi_batter_ids ≡ unsure
    → c.batter_lines ≡ lines
    → is_blocked (compare_batters rs c) ≡ false
    → All (λ r. BatterAgrees unsure r (lookup r.player_id lines)) rs
unfolding compare_batters
batters-agree unsure lines [] c u e h = tt
batters-agree unsure lines (r ∷ rs) c u e h =
    let step = Adds-batter_line r (lookup r.player_id c.batter_lines) c in
    let own =
      batter_line-agrees r (lookup r.player_id c.batter_lines) c
        ((Adds-batters rs _).unblocked h) in
    (
      subst (λ q. BatterAgrees unsure r (lookup r.player_id q)) e
          (subst (λ q. BatterAgrees q r (lookup r.player_id c.batter_lines)) u own),
      batters-agree unsure lines rs _ (step.uncertain ∙ u) (step.batters ∙ e) h,
    )

pitchers-agree :
    (lines : Dict PitcherLine) (rs : List OfficialPitcherRecord) (c : CompileContext)
    → c.pitcher_lines ≡ lines
    → is_blocked (compare_pitchers rs c) ≡ false
    → All (λ r. PitcherAgrees r (lookup r.player_id lines)) rs
unfolding compare_pitchers
pitchers-agree lines [] c e h = tt
pitchers-agree lines (r ∷ rs) c e h =
    let step = Adds-pitcher_line r (lookup r.player_id c.pitcher_lines) c in
    let own =
      pitcher_line-agrees r (lookup r.player_id c.pitcher_lines) c
        ((Adds-pitchers rs _).unblocked h) in
    (
      subst (λ d. PitcherAgrees r (lookup r.player_id d)) e own,
      pitchers-agree lines rs _ (step.pitchers ∙ e) h,
    )

-- Every official record of a document against the lines of a context.
abbrev pub RecordsAgree : StagingGameDocumentV2 → CompileContext → Type 0
RecordsAgree document c =
    All (λ r. BatterAgrees c.uncertain_rbi_batter_ids r (lookup r.player_id c.batter_lines))
      document.official_records.batters
    × All (λ r. PitcherAgrees r (lookup r.player_id c.pitcher_lines))
        document.official_records.pitchers

-- When the comparison leaves nothing that blocks, every official record of the document agrees with
-- the counted line of its player: each number that the record has and the line counts is the same,
-- but for earned runs and for runs batted in that cannot be verified; and a record without a line
-- has no number above zero but earned runs.
pub compare_official_records-agree :
    (c : CompileContext)
    → is_blocked (compare_official_records c) ≡ false
    → RecordsAgree c.document c
unfolding compare_official_records
compare_official_records-agree c h =
    let records = c.document.official_records in
    let batters = Adds-batters records.batters c in
    let next = compare_batters records.batters c in
    (
      batters-agree c.uncertain_rbi_batter_ids c.batter_lines records.batters c refl refl
          ((Adds-pitchers records.pitchers next).unblocked h),
      pitchers-agree c.pitcher_lines records.pitchers next batters.pitchers h,
    )

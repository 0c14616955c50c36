-- ===== src/Compiler/Official.antt =====
-- packages/game-core/src/compiler/official-record-validation.ts: the official records of the
-- document against the lines that the compiler has counted. `Object.entries` is taken in the order
-- of the schema.
use mathlib.Core.Option
use kbo_workbench.Prelude.{
  Bool, List, Option, [], contains, false, filter, if◌then◌else◌, leb, ltb, map, none, not, some,
  true, ℕ, ◌&&◌, ◌==◌, ◌∷◌,
}
use kbo_workbench.Collections.Dict.{lookup}
use kbo_workbench.Collections.Sort.{sort_by}
use kbo_workbench.Compiler.Context.{CompileContext, detail, push_finding}
use kbo_workbench.Contracts.Event.{PlayerId}
use kbo_workbench.Contracts.Records.{OfficialBatterRecord, OfficialPitcherRecord}
use kbo_workbench.Game.Findings.{
  DetailField, DetailValue, FindingCategory, FindingCode, FindingDetail, FindingSeverity,
  OfficialField, RecordIdentity,
}
use kbo_workbench.Game.Lines.{BatterLine, PitcherLine}

-- A field of a record with its value, which may be missing.
abbrev pub Entry : Type 0
Entry = OfficialField × Option ℕ

abbrev pub batter_entries : OfficialBatterRecord → List Entry
batter_entries r =
    (OfficialField.plate_appearances, r.plate_appearances)
    ∷ (OfficialField.at_bats, some r.at_bats)
    ∷ (OfficialField.runs, some r.runs)
    ∷ (OfficialField.hits, some r.hits)
    ∷ (OfficialField.doubles, r.doubles)
    ∷ (OfficialField.triples, r.triples)
    ∷ (OfficialField.home_runs, some r.home_runs)
    ∷ (OfficialField.runs_batted_in, some r.runs_batted_in)
    ∷ (OfficialField.walks, some r.walks)
    ∷ (OfficialField.intentional_walks, r.intentional_walks)
    ∷ (OfficialField.hit_by_pitch, r.hit_by_pitch)
    ∷ (OfficialField.strikeouts, some r.strikeouts)
    ∷ (OfficialField.sacrifice_bunts, r.sacrifice_bunts)
    ∷ (OfficialField.sacrifice_flies, r.sacrifice_flies)
    ∷ []

abbrev pub pitcher_entries : OfficialPitcherRecord → List Entry
pitcher_entries r =
    (OfficialField.batters_faced, some r.batters_faced)
    ∷ (OfficialField.outs_recorded, some r.outs_recorded)
    ∷ (OfficialField.hits, some r.hits)
    ∷ (OfficialField.runs, some r.runs)
    ∷ (OfficialField.earned_runs, some r.earned_runs)
    ∷ (OfficialField.walks, some r.walks)
    ∷ (OfficialField.intentional_walks, r.intentional_walks)
    ∷ (OfficialField.hit_by_pitch, some r.hit_by_pitch)
    ∷ (OfficialField.strikeouts, some r.strikeouts)
    ∷ (OfficialField.pitches, r.pitches)
    ∷ (OfficialField.strikes, r.strikes)
    ∷ []

-- `calculated[field]`, where it is a number.
abbrev pub batter_value : BatterLine → OfficialField → Option ℕ
batter_value l OfficialField.plate_appearances = some l.plate_appearances
batter_value l OfficialField.at_bats = some l.at_bats
batter_value l OfficialField.runs = some l.runs
batter_value l OfficialField.hits = some l.hits
batter_value l OfficialField.doubles = some l.doubles
batter_value l OfficialField.triples = some l.triples
batter_value l OfficialField.home_runs = some l.home_runs
batter_value l OfficialField.runs_batted_in = some l.runs_batted_in
batter_value l OfficialField.walks = some l.walks
batter_value l OfficialField.intentional_walks = some l.intentional_walks
batter_value l OfficialField.hit_by_pitch = some l.hit_by_pitch
batter_value l OfficialField.strikeouts = some l.strikeouts
batter_value l OfficialField.sacrifice_bunts = some l.sacrifice_bunts
batter_value l OfficialField.sacrifice_flies = some l.sacrifice_flies
batter_value l _ = none

-- The earned runs of the source are skipped.
abbrev pub pitcher_value : PitcherLine → OfficialField → Option ℕ
pitcher_value l OfficialField.batters_faced = some l.batters_faced
pitcher_value l OfficialField.outs_recorded = some l.outs_recorded
pitcher_value l OfficialField.hits = some l.hits
pitcher_value l OfficialField.runs = some l.runs
pitcher_value l OfficialField.walks = some l.walks
pitcher_value l OfficialField.intentional_walks = some l.intentional_walks
pitcher_value l OfficialField.hit_by_pitch = some l.hit_by_pitch
pitcher_value l OfficialField.strikeouts = some l.strikeouts
pitcher_value l OfficialField.pitches = some l.pitches
pitcher_value l OfficialField.strikes = some l.strikes
pitcher_value l _ = none

abbrev pub official_finding :
    FindingCode
    → FindingCategory
    → FindingSeverity
    → RecordIdentity
    → List FindingDetail
    → CompileContext
    → CompileContext
official_finding c k s identity details context =
    push_finding
      (record {
        code = c;
        category = k;
        severity = s;
        game_id = context.document.metadata.game_id;
        event_id = none;
        event_sequence = none;
        record_identity = some identity;
        details = details;
      })
      context

abbrev pub is_rbi : OfficialField → Bool
is_rbi OfficialField.runs_batted_in = true
is_rbi _ = false

abbrev pub official_detail : OfficialField → ℕ → ℕ → List FindingDetail
official_detail f expected actual =
    detail (DetailField.official f) (DetailValue.number expected) (DetailValue.number actual) ∷ []

-- One field of a batter: an unverifiable number of runs batted in is a warning.
abbrev pub compare_batter_field :
    PlayerId → OfficialField → Option ℕ → Option ℕ → CompileContext → CompileContext
compare_batter_field p f (some expected) (some actual) context =
    if expected == actual
    then context
    else if is_rbi f && contains p context.uncertain_rbi_batter_ids
    then official_finding FindingCode.official_rbi_not_verifiable FindingCategory.source
        FindingSeverity.warning (RecordIdentity.batter p) (official_detail f expected actual)
        context
    else official_finding FindingCode.official_batter_record_mismatch FindingCategory.domain
        FindingSeverity.blocking (RecordIdentity.batter p) (official_detail f expected actual)
        context
compare_batter_field p f _ _ context = context

unfoldable pub compare_batter_fields :
    PlayerId → BatterLine → List Entry → CompileContext → CompileContext
compare_batter_fields p l [] context = context
compare_batter_fields p l ((f, expected) ∷ es) context =
    compare_batter_fields p l es (compare_batter_field p f expected (batter_value l f) context)

abbrev pub compare_pitcher_field :
    PlayerId → OfficialField → Option ℕ → Option ℕ → CompileContext → CompileContext
compare_pitcher_field p f (some expected) (some actual) context =
    if expected == actual
    then context
    else official_finding FindingCode.official_pitcher_record_mismatch FindingCategory.domain
        FindingSeverity.blocking (RecordIdentity.pitcher p) (official_detail f expected actual)
        context
compare_pitcher_field p f _ _ context = context

unfoldable pub compare_pitcher_fields :
    PlayerId → PitcherLine → List Entry → CompileContext → CompileContext
compare_pitcher_fields p l [] context = context
compare_pitcher_fields p l ((f, expected) ∷ es) context =
    compare_pitcher_fields p l es (compare_pitcher_field p f expected (pitcher_value l f) context)

-- The place of a field's name in the order of the names.
abbrev name_order : OfficialField → ℕ
name_order OfficialField.at_bats = 0
name_order OfficialField.batters_faced = 1
name_order OfficialField.doubles = 2
name_order OfficialField.earned_runs = 3
name_order OfficialField.hit_by_pitch = 4
name_order OfficialField.hits = 5
name_order OfficialField.home_runs = 6
name_order OfficialField.intentional_walks = 7
name_order OfficialField.outs_recorded = 8
name_order OfficialField.pitches = 9
name_order OfficialField.plate_appearances = 10
name_order OfficialField.runs = 11
name_order OfficialField.runs_batted_in = 12
name_order OfficialField.sacrifice_bunts = 13
name_order OfficialField.sacrifice_flies = 14
name_order OfficialField.strikeouts = 15
name_order OfficialField.strikes = 16
name_order OfficialField.triples = 17
name_order OfficialField.walks = 18

abbrev is_earned_runs : OfficialField → Bool
is_earned_runs OfficialField.earned_runs = true
is_earned_runs _ = false

abbrev pub is_achievement : Entry → Bool
is_achievement (f, none) = false
is_achievement (f, some n) = not (is_earned_runs f) && ltb 0 n

abbrev pub missing_detail : Entry → FindingDetail
missing_detail (f, n) = record {
  field = DetailField.official f;
  expected = Option.map DetailValue.number n;
  actual = some DetailValue.null;
}

abbrev pub by_name : Entry → Entry → Bool
by_name a b = leb (name_order a.0) (name_order b.0)

-- `reportMissingCalculatedRecord`
unfoldable pub report_missing_calculated_record :
    FindingCode → RecordIdentity → List Entry → CompileContext → CompileContext
report_missing_calculated_record c identity entries context =
    elim (sort_by by_name (filter is_achievement entries)) [
      | [] ↦ context
      | e ∷ es ↦
          official_finding c FindingCategory.domain FindingSeverity.blocking identity
            (map missing_detail (e ∷ es)) context
    ]

abbrev pub compare_batter_line :
    OfficialBatterRecord → Option BatterLine → CompileContext → CompileContext
compare_batter_line r none context =
    report_missing_calculated_record FindingCode.official_batter_record_missing
      (RecordIdentity.batter r.player_id) (batter_entries r) context
compare_batter_line r (some l) context =
    compare_batter_fields r.player_id l (batter_entries r) context

abbrev pub compare_pitcher_line :
    OfficialPitcherRecord → Option PitcherLine → CompileContext → CompileContext
compare_pitcher_line r none context =
    report_missing_calculated_record FindingCode.official_pitcher_record_missing
      (RecordIdentity.pitcher r.player_id) (pitcher_entries r) context
compare_pitcher_line r (some l) context =
    compare_pitcher_fields r.player_id l (pitcher_entries r) context

unfoldable pub compare_batters : List OfficialBatterRecord → CompileContext → CompileContext
unfolding compare_batter_fields report_missing_calculated_record
compare_batters [] context = context
compare_batters (r ∷ rs) context =
    compare_batters rs (compare_batter_line r (lookup r.player_id context.batter_lines) context)

unfoldable pub compare_pitchers : List OfficialPitcherRecord → CompileContext → CompileContext
unfolding compare_pitcher_fields report_missing_calculated_record
compare_pitchers [] context = context
compare_pitchers (r ∷ rs) context =
    compare_pitchers rs (compare_pitcher_line r (lookup r.player_id context.pitcher_lines) context)

-- `compareOfficialRecords`
unfoldable pub compare_official_records : CompileContext → CompileContext
unfolding compare_batters compare_pitchers
compare_official_records context =
    compare_pitchers context.document.official_records.pitchers
      (compare_batters context.document.official_records.batters context)

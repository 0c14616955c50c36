-- ===== src/Validation/Official.antt =====
-- What the official records keep to when `compareOfficialRecords` of
-- packages/game-core/src/compiler/official-record-validation.ts adds nothing that blocks.
use mathlib.Core.Path.{subst}
use kbo_workbench.Prelude.{
  All, Bool, Bool-cases, List, Option, [], ap, arith, contains, count, false, filter, inl, inr,
  length, length-filter, map, none, refl, some, true, ℕ, ◌&&◌, ◌==◌, ◌∙◌, ◌∷◌, ◌≡◌,
}
use kbo_workbench.Collections.Distinct.{is_nil-cases}
use kbo_workbench.Collections.Sort.{length-sort_by, sort_by}
use kbo_workbench.Compiler.Context.{CompileContext}
use kbo_workbench.Compiler.Official.{
  Entry, batter_value, by_name, compare_batter_field, compare_batter_fields, compare_pitcher_field,
  compare_pitcher_fields, is_achievement, is_rbi, missing_detail, official_detail, official_finding,
  pitcher_value, report_missing_calculated_record,
}
use kbo_workbench.Contracts.Event.{PlayerId}
use kbo_workbench.Game.Findings.{
  FindingCategory, FindingCode, FindingDetail, FindingSeverity, OfficialField, RecordIdentity,
  is_conflict_code,
}
use kbo_workbench.Game.Lines.{BatterLine, PitcherLine}
use kbo_workbench.Validation.Adds.{Adds, Adds-push, Adds-refl, Adds-trans, is_blocked, push-blocks}

Adds-official_finding :
    (k : FindingCode) (g : FindingCategory) (s : FindingSeverity) (i : RecordIdentity)
    (ds : List FindingDetail) (c : CompileContext)
    → is_conflict_code k ≡ false
    → Adds c (official_finding k g s i ds c)
Adds-official_finding k g s i ds c plain = Adds-push _ c (ground arith)

official_finding-blocks :
    (k : FindingCode) (g : FindingCategory) (i : RecordIdentity) (ds : List FindingDetail)
    (c : CompileContext)
    → is_blocked (official_finding k g FindingSeverity.blocking i ds c) ≡ true
official_finding-blocks k g i ds c = push-blocks _ c refl

Adds-batter_field :
    (p : PlayerId) (f : OfficialField) (e a : Option ℕ) (c : CompileContext)
    → Adds c (compare_batter_field p f e a c)
Adds-batter_field p f none a c = Adds-refl c
Adds-batter_field p f (some e) none c = Adds-refl c
Adds-batter_field p f (some e) (some a) c = elim (Bool-cases (e == a)) [
  | inl same ↦ rw same (Adds-refl c)
  | inr other ↦ elim (Bool-cases (is_rbi f && contains p c.uncertain_rbi_batter_ids)) [
    | inl unsure ↦ rw (other, unsure) (Adds-official_finding _ _ _ _ _ c refl)
    | inr sure ↦ rw (other, sure) (Adds-official_finding _ _ _ _ _ c refl)
  ]
]

-- A field that may be wrong, against the number that was counted.
abbrev pub FieldAgrees : Bool → Option ℕ → Option ℕ → Type 0
FieldAgrees unsure (some e) (some a) = unsure ≡ false → e ≡ a
FieldAgrees unsure _ _ = Unit

batter_field-agrees :
    (p : PlayerId) (f : OfficialField) (e a : Option ℕ) (c : CompileContext)
    → is_blocked (compare_batter_field p f e a c) ≡ false
    → FieldAgrees (is_rbi f && contains p c.uncertain_rbi_batter_ids) e a
batter_field-agrees p f none a c h = tt
batter_field-agrees p f (some e) none c h = tt
batter_field-agrees p f (some e) (some a) c h = λ sure. elim (Bool-cases (e == a)) [
  | inl same ↦ ground arith
  | inr other ↦
      let blocked =
        official_finding-blocks FindingCode.official_batter_record_mismatch FindingCategory.domain
          (RecordIdentity.batter p) (official_detail f e a) c in
      let clear = rw sure at (rw other at h) in cc
]

pub Adds-batter_fields :
    (p : PlayerId) (l : BatterLine) (es : List Entry) (c : CompileContext)
    → Adds c (compare_batter_fields p l es c)
unfolding compare_batter_fields
Adds-batter_fields p l [] c = Adds-refl c
Adds-batter_fields p l ((f, e) ∷ es) c =
    Adds-trans (Adds-batter_field p f e (batter_value l f) c) (Adds-batter_fields p l es _)

pub batter_fields-agree :
    (p : PlayerId) (l : BatterLine) (unsure : Bool) (es : List Entry) (c : CompileContext)
    → contains p c.uncertain_rbi_batter_ids ≡ unsure
    → is_blocked (compare_batter_fields p l es c) ≡ false
    → All (λ e. FieldAgrees (is_rbi e.0 && unsure) e.1 (batter_value l e.0)) es
unfolding compare_batter_fields
batter_fields-agree p l unsure [] c u h = tt
batter_fields-agree p l unsure ((f, e) ∷ es) c u h =
    let next = compare_batter_field p f e (batter_value l f) c in
    let step = Adds-batter_field p f e (batter_value l f) c in
    let clear = (Adds-batter_fields p l es next).unblocked h in
    let own = batter_field-agrees p f e (batter_value l f) c clear in
    (
      subst (λ u. FieldAgrees (is_rbi f && u) e (batter_value l f)) u own,
      batter_fields-agree p l unsure es next (ap (contains p) step.uncertain ∙ u) h,
    )

Adds-pitcher_field :
    (p : PlayerId) (f : OfficialField) (e a : Option ℕ) (c : CompileContext)
    → Adds c (compare_pitcher_field p f e a c)
Adds-pitcher_field p f none a c = Adds-refl c
Adds-pitcher_field p f (some e) none c = Adds-refl c
Adds-pitcher_field p f (some e) (some a) c = elim (Bool-cases (e == a)) [
  | inl same ↦ rw same (Adds-refl c)
  | inr other ↦ rw other (Adds-official_finding _ _ _ _ _ c refl)
]

pitcher_field-agrees :
    (p : PlayerId) (f : OfficialField) (e a : Option ℕ) (c : CompileContext)
    → is_blocked (compare_pitcher_field p f e a c) ≡ false
    → FieldAgrees false e a
pitcher_field-agrees p f none a c h = tt
pitcher_field-agrees p f (some e) none c h = tt
pitcher_field-agrees p f (some e) (some a) c h = λ sure. elim (Bool-cases (e == a)) [
  | inl same ↦ ground arith
  | inr other ↦
      let blocked =
        official_finding-blocks FindingCode.official_pitcher_record_mismatch FindingCategory.domain
          (RecordIdentity.pitcher p) (official_detail f e a) c in
      let clear = rw other at h in cc
]

pub Adds-pitcher_fields :
    (p : PlayerId) (l : PitcherLine) (es : List Entry) (c : CompileContext)
    → Adds c (compare_pitcher_fields p l es c)
unfolding compare_pitcher_fields
Adds-pitcher_fields p l [] c = Adds-refl c
Adds-pitcher_fields p l ((f, e) ∷ es) c =
    Adds-trans (Adds-pitcher_field p f e (pitcher_value l f) c) (Adds-pitcher_fields p l es _)

pub pitcher_fields-agree :
    (p : PlayerId) (l : PitcherLine) (es : List Entry) (c : CompileContext)
    → is_blocked (compare_pitcher_fields p l es c) ≡ false
    → All (λ e. FieldAgrees false e.1 (pitcher_value l e.0)) es
unfolding compare_pitcher_fields
pitcher_fields-agree p l [] c h = tt
pitcher_fields-agree p l ((f, e) ∷ es) c h =
    let next = compare_pitcher_field p f e (pitcher_value l f) c in
    let clear = (Adds-pitcher_fields p l es next).unblocked h in
    (pitcher_field-agrees p f e (pitcher_value l f) c clear, pitcher_fields-agree p l es next h)

pub Adds-missing :
    (k : FindingCode) (i : RecordIdentity) (es : List Entry) (c : CompileContext)
    → is_conflict_code k ≡ false
    → Adds c (report_missing_calculated_record k i es c)
unfolding report_missing_calculated_record
Adds-missing k i es c plain = elim (is_nil-cases (sort_by by_name (filter is_achievement es))) [
  | inl idle ↦ rw (idle, report_missing_calculated_record) (Adds-refl c)
  | inr (x, xs, busy) ↦
      rw (busy, report_missing_calculated_record) (Adds-official_finding k _ _ i _ c plain)
]

-- A record with nothing to count: every number but the earned runs is missing or zero.
abbrev pub IsIdleEntry : Entry → Type 0
IsIdleEntry e = is_achievement e ≡ false

count-All : (p : Entry → Bool) (es : List Entry) → count p es ≡ 0 → All (λ e. p e ≡ false) es
count-All p [] h = tt
count-All p (e ∷ es) h = elim (Bool-cases (p e)) [
  | inl found ↦ ground arith
  | inr passed ↦ (passed, count-All p es (ground arith))
]

pub missing-idle :
    (k : FindingCode) (i : RecordIdentity) (es : List Entry) (c : CompileContext)
    → is_blocked (report_missing_calculated_record k i es c) ≡ false
    → All IsIdleEntry es
unfolding report_missing_calculated_record
missing-idle k i es c h = elim (is_nil-cases (sort_by by_name (filter is_achievement es))) [
  | inl idle ↦ count-All is_achievement es (
      omega (
        arith,
        ap length idle,
        length-sort_by by_name (filter is_achievement es),
        length-filter is_achievement es,
      ))
  | inr (x, xs, busy) ↦
      let blocked =
        official_finding-blocks k FindingCategory.domain i (map missing_detail (x ∷ xs)) c in
      let clear = rw (busy, report_missing_calculated_record) at h in cc
]

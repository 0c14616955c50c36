-- ===== src/Correction/Preview.antt =====
-- packages/correction/src/preview.ts: what a correction changes. Hashes and canonical texts are
-- numbers that the model takes as arguments.
use kbo_workbench.Prelude.{
  ==_refl, Bool, Bool-cases, List, [], arith, contains, count, count-append, false, filter,
  if◌then◌else◌, inl, inr, is_value, leb, length, length-append, length-filter, map, none, not,
  refl, suc, true, ℕ, ◌++◌, ◌+◌, ◌-◌, ◌==◌, ◌∷◌, ◌≡◌, ◌≤◌,
}
use kbo_workbench.Collections.Dict.{Dict, insert, lookup}
use kbo_workbench.Contracts.Document.{StagingGameDocumentV2}
use kbo_workbench.Contracts.Tracking.{TrackingCandidate, TrackingResolution}
use kbo_workbench.Game.Findings.{Finding, FindingCode, is_blocking}
use kbo_workbench.Reducer.Compile.{ReplayResult}

-- `remaining.splice(remaining.indexOf(item), 1)`
abbrev remove_first : ℕ → List ℕ → List ℕ
remove_first k [] = []
remove_first k (x ∷ xs) = if k == x then xs else x ∷ remove_first k xs

difference : List ℕ → List ℕ → List ℕ
difference [] remaining = []
difference (x ∷ xs) remaining = elim (contains x remaining) [
  | true ↦ difference xs (remove_first x remaining)
  | false ↦ x ∷ difference xs remaining
]

abbrev is_blocking_row : Finding → Bool
is_blocking_row f = is_blocking f.severity

abbrev is_warning : Finding → Bool
is_warning f = not (is_blocking f.severity)

-- A difference of two lengths.
pub data ℤ : Type 0 where
  pos negsuc : ℕ → ℤ

abbrev pub minus : ℕ → ℕ → ℤ
minus m n = if leb n m then pos (m - n) else negsuc (n - m - 1)

pub record CorrectionPreview : Type 0 where
  pub before_document_hash : ℕ
  pub after_document_hash : ℕ
  pub before_blocking_count : ℕ
  pub after_blocking_count : ℕ
  pub resolved_blocking_count : ℕ
  pub new_blocking_count : ℕ
  pub before_warning_count : ℕ
  pub after_warning_count : ℕ
  pub event_count_delta : ℤ
  pub tracking_resolution_changes : ℕ
  pub added_finding_codes : List ℕ
  pub removed_finding_codes : List ℕ

-- `stagingDocumentHash`, and the canonical texts of findings, codes and resolutions.
pub record PreviewText : Type 0 where
  pub document_hash : StagingGameDocumentV2 → ℕ
  pub finding_key : Finding → ℕ
  pub code : FindingCode → ℕ
  pub resolution : TrackingResolution → ℕ

-- `beforeById`
abbrev resolutions_by_id : PreviewText → List TrackingCandidate → Dict ℕ → Dict ℕ
resolutions_by_id text [] d = d
resolutions_by_id text (c ∷ cs) d =
    resolutions_by_id text cs (insert c.tracking_id (text.resolution c.resolution) d)

unfoldable pub tracking_resolution_changes :
    PreviewText → StagingGameDocumentV2 → StagingGameDocumentV2 → ℕ
tracking_resolution_changes text before after =
    let by_id = resolutions_by_id text before.tracking_candidates [] in
    count (λ c. not (is_value (lookup c.tracking_id by_id) (text.resolution c.resolution)))
      after.tracking_candidates

-- A blocking finding is compared without the number of its row.
abbrev pub blocking_key : PreviewText → Finding → ℕ
blocking_key text f = text.finding_key (record f { event_sequence = none })

unfoldable pub build_correction_preview :
    PreviewText
    → StagingGameDocumentV2
    → ReplayResult
    → StagingGameDocumentV2
    → ReplayResult
    → CorrectionPreview
unfolding difference tracking_resolution_changes
build_correction_preview text before_document before after_document after =
    let before_codes = map (λ f. text.code f.code) before.findings in
    let after_codes = map (λ f. text.code f.code) after.findings in
    let before_blocking = map (blocking_key text) (filter is_blocking_row before.findings) in
    let after_blocking = map (blocking_key text) (filter is_blocking_row after.findings) in
    record {
      before_document_hash = text.document_hash before_document;
      after_document_hash = text.document_hash after_document;
      before_blocking_count = count is_blocking_row before.findings;
      after_blocking_count = count is_blocking_row after.findings;
      resolved_blocking_count = length (difference before_blocking after_blocking);
      new_blocking_count = length (difference after_blocking before_blocking);
      before_warning_count = count is_warning before.findings;
      after_warning_count = count is_warning after.findings;
      event_count_delta = minus (length after_document.events) (length before_document.events);
      tracking_resolution_changes = tracking_resolution_changes text before_document after_document;
      added_finding_codes = difference after_codes before_codes;
      removed_finding_codes = difference before_codes after_codes;
    }

-- How often a key occurs.
abbrev pub times : ℕ → List ℕ → ℕ
times k xs = count (λ x. k == x) xs

times-remove_first :
    (k x : ℕ) (xs : List ℕ)
    → contains x xs ≡ true
    → times k (remove_first x xs) + (if k == x then 1 else 0) ≡ times k xs
times-remove_first k x [] h = cc
times-remove_first k x (y ∷ ys) h = ground (arith, times-remove_first k x ys)

length-remove_first :
    (x : ℕ) (xs : List ℕ) → contains x xs ≡ true → suc (length (remove_first x xs)) ≡ length xs
length-remove_first x [] h = cc
length-remove_first x (y ∷ ys) h = ground (arith, length-remove_first x ys)

times-absent : (x : ℕ) (xs : List ℕ) → contains x xs ≡ false → times x xs ≡ 0
times-absent x [] h = refl
times-absent x (y ∷ ys) h = ground (arith, times-absent x ys)

contains-times : (x : ℕ) (xs : List ℕ) → 1 ≤ times x xs → contains x xs ≡ true
contains-times x [] h = ground arith
contains-times x (y ∷ ys) h = ground (arith, contains-times x ys)

difference_nil : (ys : List ℕ) → difference [] ys ≡ []
unfolding difference
difference_nil ys = refl

difference_present :
    (x : ℕ) (xs ys : List ℕ)
    → contains x ys ≡ true
    → difference (x ∷ xs) ys ≡ difference xs (remove_first x ys)
unfolding difference
difference_present x xs ys h = rw (h, difference) refl

difference_absent :
    (x : ℕ) (xs ys : List ℕ) → contains x ys ≡ false → difference (x ∷ xs) ys ≡ x ∷ difference xs ys
unfolding difference
difference_absent x xs ys h = rw (h, difference) refl

-- The difference of two lists holds each key as often as it occurs more often in the first one.
times-difference : (k : ℕ) (xs ys : List ℕ) → times k (difference xs ys) ≡ times k xs - times k ys
times-difference k [] ys = rw (difference_nil ys) (omega arith)
times-difference k (x ∷ xs) ys = elim (Bool-cases (contains x ys)) [
  | inl here ↦
      rw (difference_present x xs ys here)
        (ground (arith, times-difference k xs (remove_first x ys), times-remove_first k x ys here))
  | inr absent ↦
      rw (difference_absent x xs ys absent)
        (ground (arith, times-difference k xs ys, times-absent x ys absent))
]

-- Lists that hold each key equally often are equally long.
length-times : (xs ys : List ℕ) → ((k : ℕ) → times k xs ≡ times k ys) → length xs ≡ length ys
length-times [] [] h = refl
length-times [] (y ∷ ys) h = ground (arith, h y, ==_refl y)
length-times (x ∷ xs) ys h =
    let here = contains-times x ys (ground (arith, h x, ==_refl x)) in
    let rest =
      length-times xs (remove_first x ys)
        (λ k. ground (arith, h k, times-remove_first k x ys here)) in
    omega (arith, rest, length-remove_first x ys here)

difference-balance :
    (xs ys : List ℕ) → length (difference xs ys) + length ys ≡ length (difference ys xs) + length xs
difference-balance xs ys = omega (
  arith,
  length-append (difference xs ys) ys,
  length-append (difference ys xs) xs,
  length-times (difference xs ys ++ ys) (difference ys xs ++ xs) (λ k. omega (
    arith,
    times-difference k xs ys,
    times-difference k ys xs,
    count-append (λ x. k == x) (difference xs ys) ys,
    count-append (λ x. k == x) (difference ys xs) xs,
  )),
)

length-map {ℓ κ} :
    {D : Type ℓ} {T : Type κ} (f : D → T) (xs : List D) → length (map f xs) ≡ length xs
length-map f [] = refl
length-map f (x ∷ xs) = omega (arith, length-map f xs)

-- The number that a difference makes of another one.
abbrev pub moved_by : ℤ → ℕ → ℕ
moved_by (pos k) n = n + k
moved_by (negsuc k) n = n - (k + 1)

moved_by-minus : (m n : ℕ) → moved_by (minus m n) n ≡ m
moved_by-minus m n = ground arith

-- The preview's counts of blocking findings balance: those before and the new ones are as many as
-- those behind and the resolved ones, whatever the keys. Each code is added as often as it occurs
-- more often behind the correction, and removed as often as it occurs more often before. And the
-- change in the number of rows leads from the one number to the other.
pub build_correction_preview-balance :
    (text : PreviewText) (b : StagingGameDocumentV2) (before : ReplayResult)
    (a : StagingGameDocumentV2) (after : ReplayResult)
    → let p = build_correction_preview text b before a after in
      let old = map (λ f. text.code f.code) before.findings in
      let new = map (λ f. text.code f.code) after.findings in
      (p.before_blocking_count + p.new_blocking_count
        ≡ p.after_blocking_count + p.resolved_blocking_count)
      × ((k : ℕ) → times k p.added_finding_codes ≡ times k new - times k old)
      × ((k : ℕ) → times k p.removed_finding_codes ≡ times k old - times k new)
      × (moved_by p.event_count_delta (length b.events) ≡ length a.events)
unfolding build_correction_preview
build_correction_preview-balance text b before a after =
    let old = map (λ f. text.code f.code) before.findings in
    let new = map (λ f. text.code f.code) after.findings in
    let blocking_before = filter is_blocking_row before.findings in
    let blocking_after = filter is_blocking_row after.findings in
    (
      omega (
        arith,
        difference-balance (map (blocking_key text) blocking_before)
            (map (blocking_key text) blocking_after),
        length-map (blocking_key text) blocking_before,
        length-map (blocking_key text) blocking_after,
        length-filter is_blocking_row before.findings,
        length-filter is_blocking_row after.findings,
      ),
      λ k. times-difference k new old,
      λ k. times-difference k old new,
      moved_by-minus (length a.events) (length b.events),
    )

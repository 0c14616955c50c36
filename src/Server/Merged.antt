-- ===== src/Server/Merged.antt =====
-- Merging the findings that a commit has stored with the same result gives them back.
use kbo_workbench.Prelude.{
  All, Bool, Bool-cases, List, [], ap, arith, false, filter, inl, inr, map, refl, true, ℕ, ◌++◌,
  ◌∙◌, ◌∷◌, ◌≡◌,
}
use kbo_workbench.Contracts.Document.{StagingGameDocumentV2}
use kbo_workbench.Game.Findings.{Finding}
use kbo_workbench.Reducer.Compile.{ReplayResult}
use kbo_workbench.Server.StoredFindings.{
  CanonicalText, StoredFinding, first_of_each, merge_persistent_source_findings,
  prepare_correction_snapshot, recomputed_finding, should_retain_stored_finding,
}

-- The findings that are kept go first, and the others are all dropped by the filter.
module _ (key : StoredFinding → ℕ) (p : StoredFinding → Bool) where
  filter-first_of_each_none :
      (seen : List ℕ) (fs : List StoredFinding)
      → All (λ f. p f ≡ false) fs
      → filter p (first_of_each key seen fs) ≡ []
  unfolding first_of_each
  filter-first_of_each_none seen [] h = refl
  filter-first_of_each_none seen (f ∷ fs) h = ground (
    arith,
    h.0,
    filter-first_of_each_none seen fs h.1,
    filter-first_of_each_none (key f ∷ seen) fs h.1,
  )

  filter-first_of_each :
      (seen : List ℕ) (rs cs : List StoredFinding)
      → All (λ f. p f ≡ true) rs
      → All (λ f. p f ≡ false) cs
      → filter p (first_of_each key seen (rs ++ cs)) ≡ first_of_each key seen rs
  unfolding first_of_each
  filter-first_of_each seen [] cs h g = filter-first_of_each_none seen cs g
  filter-first_of_each seen (r ∷ rs) cs h g = ground (
    arith,
    h.0,
    filter-first_of_each seen rs cs h.1 g,
    filter-first_of_each (key r ∷ seen) rs cs h.1 g,
  )

  first_of_each-append :
      (seen : List ℕ) (rs cs : List StoredFinding)
      → first_of_each key seen (first_of_each key seen rs ++ cs) ≡ first_of_each key seen (rs ++ cs)
  unfolding first_of_each
  first_of_each-append seen [] cs = refl
  first_of_each-append seen (r ∷ rs) cs =
      ground (arith, first_of_each-append seen rs cs, first_of_each-append (key r ∷ seen) rs cs)

filter-All {ℓ} : {D : Type ℓ} (p : D → Bool) (xs : List D) → All (λ x. p x ≡ true) (filter p xs)
filter-All p [] = tt
filter-All p (x ∷ xs) = elim (Bool-cases (p x)) [
  | inl e ↦ rw e (e, filter-All p xs)
  | inr e ↦ rw e (filter-All p xs)
]

recomputed-dropped :
    (d : StagingGameDocumentV2) (fs : List Finding)
    → All (λ f. should_retain_stored_finding d f ≡ false) (map recomputed_finding fs)
recomputed-dropped d [] = tt
recomputed-dropped d (f ∷ fs) = (refl, recomputed-dropped d fs)

-- Merging what was merged with the findings of the same compilation once more gives it back,
-- whatever the keys.
pub merge-merge :
    (text : CanonicalText) (stored : List StoredFinding) (current : List Finding)
    (d : StagingGameDocumentV2)
    → merge_persistent_source_findings text
        (merge_persistent_source_findings text stored current d)
        current
        d
      ≡ merge_persistent_source_findings text stored current d
unfolding merge_persistent_source_findings
merge-merge text stored current d =
    let kept = filter (should_retain_stored_finding d) stored in
    let fresh = map recomputed_finding current in
    ap (λ fs. first_of_each text.finding_key [] (fs ++ fresh))
      (filter-first_of_each text.finding_key (should_retain_stored_finding d) [] kept fresh
        (filter-All (should_retain_stored_finding d) stored) (recomputed-dropped d current))
    ∙ first_of_each-append text.finding_key (should_retain_stored_finding d) [] kept fresh

-- A snapshot whose findings have been stored is the one that would be prepared anew.
pub prepare-stored :
    (text : CanonicalText) (d : StagingGameDocumentV2) (r : ReplayResult)
    (stored : List StoredFinding)
    → record (prepare_correction_snapshot text d r stored) {
      stored_findings = (prepare_correction_snapshot text d r stored).findings;
    }
      ≡ prepare_correction_snapshot text d r
          (merge_persistent_source_findings text stored r.findings d)
unfolding prepare_correction_snapshot
prepare-stored text d r stored = rw (merge-merge text stored r.findings d) refl

-- ===== src/Reducer/Accepted.antt =====
-- What a document keeps to whose compilation reports nothing that blocks.
use mathlib.Core.Path.{subst}
use kbo_workbench.Prelude.{
  All, Bool, List, [], any, ap, arith, count, false, inl, inr, ltb, refl, sym, true, ◌∙◌, ◌∷◌, ◌≡◌,
  ◌≤◌,
}
use kbo_workbench.Collections.Distinct.{is_nil-cases}
use kbo_workbench.Collections.Sort.{count-sort_by, sort_by}
use kbo_workbench.Compiler.ConflictFree.{conflict_free-any}
use kbo_workbench.Compiler.ConflictFreeEnd.{compile_ledger-IsConflictFree}
use kbo_workbench.Compiler.Context.{CompileContext}
use kbo_workbench.Compiler.Finish.{compile_ledger}
use kbo_workbench.Compiler.Outcome.{compile_ledger-IsSound}
use kbo_workbench.Compiler.RowChecks.{is_blocking_finding}
use kbo_workbench.Compiler.SameDocument.{compile_ledger-document}
use kbo_workbench.Compiler.Validity.{IsValid}
use kbo_workbench.Contracts.Canonical.{IsCanonical}
use kbo_workbench.Contracts.Document.{StagingGameDocumentV2}
use kbo_workbench.Contracts.Event.{EventId}
use kbo_workbench.Contracts.Semantics.{validate_staging_game_document_v2_semantics}
use kbo_workbench.Contracts.Validated.{validate_semantics-IsCanonical}
use kbo_workbench.Facts.Document.{pitch_facts_of}
use kbo_workbench.Reducer.Compile.{
  ReplayResult, checked_context, compile_document, compile_staging_game_document_v2, compiled,
}
use kbo_workbench.Reducer.Order.{finding_le}
use kbo_workbench.Validation.Adds.{has_no_conflict, is_blocked}
use kbo_workbench.Validation.Linked.{tracking_index, validate_tracking}
use kbo_workbench.Validation.OfficialAgreement.{
  Adds-official_records, RecordsAgree, compare_official_records-agree,
}
use kbo_workbench.Validation.Settled.{IsSettled}
use kbo_workbench.Validation.Single.{Adds-validate_tracking, links_to, validate_tracking-IsSettled}

ledger_calm : (d : StagingGameDocumentV2) → has_no_conflict (compile_ledger d).context ≡ true
ledger_calm d =
    sym (conflict_free-any (compile_ledger d).context.findings) ∙ compile_ledger-IsConflictFree d

any_of_count {ℓ} : {D : Type ℓ} (p : D → Bool) (xs : List D) → any p xs ≡ ltb 0 (count p xs)
any_of_count p [] = refl
any_of_count p (x ∷ xs) = ground (arith, any_of_count p xs)

any-sort_by {ℓ} :
    {D : Type ℓ} (le : D → D → Bool) (p : D → Bool) (xs : List D) → any p (sort_by le xs) ≡ any p xs
any-sort_by le p xs =
    any_of_count p (sort_by le xs) ∙ ap (ltb 0) (count-sort_by le p xs) ∙ sym (any_of_count p xs)

-- Every candidate is settled against the facts, and no row has two candidates linked to it.
abbrev HasSettledTracking : StagingGameDocumentV2 → Type 0
HasSettledTracking d =
    All (λ x. IsSettled (tracking_index d (pitch_facts_of d)) x x.resolution) d.tracking_candidates
    × ((k : EventId) → count (links_to k) d.tracking_candidates ≤ 1)

-- A document and a result that can be promoted.
pub record IsAccepted (d : StagingGameDocumentV2) (r : ReplayResult) : Type 0 where
  pub canonical : IsCanonical d
  pub valid : IsValid r.final_state
  pub tracking : HasSettledTracking d
  pub records : RecordsAgree d (compile_ledger d).context

RecordsAgree-kept :
    (d : StagingGameDocumentV2) (c t : CompileContext)
    → t.document ≡ d
    → t.uncertain_rbi_batter_ids ≡ c.uncertain_rbi_batter_ids
    → t.batter_lines ≡ c.batter_lines
    → t.pitcher_lines ≡ c.pitcher_lines
    → RecordsAgree t.document t
    → RecordsAgree d c
RecordsAgree-kept d c t e u b p h = (rw⁻¹ u (rw⁻¹ b (rw⁻¹ e h.0)), rw⁻¹ p (rw⁻¹ e h.1))

compiled-injective : {q r : ReplayResult} → compiled q ≡ compiled r → q ≡ r
compiled-injective h = cc

decoded-IsCanonical :
    (d : StagingGameDocumentV2) (r : ReplayResult)
    → compile_staging_game_document_v2 d ≡ compiled r
    → IsCanonical d × (compile_document d ≡ r)
unfolding compile_staging_game_document_v2
decoded-IsCanonical d r h = elim (is_nil-cases (validate_staging_game_document_v2_semantics d)) [
  | inl clean ↦
      let own = rw (clean, compile_staging_game_document_v2) at h in
      ((validate_semantics-IsCanonical d).0 clean, compiled-injective own)
  | inr (i, is, found) ↦ let own = rw (found, compile_staging_game_document_v2) at h in cc
]

checked-unblocked :
    (d : StagingGameDocumentV2)
    → any is_blocking_finding (compile_document d).findings ≡ false
    → is_blocked (checked_context d) ≡ false
unfolding compile_document
checked-unblocked d h =
    sym (any-sort_by finding_le is_blocking_finding (checked_context d).findings) ∙ h

document-IsAccepted :
    (d : StagingGameDocumentV2)
    → IsCanonical d
    → any is_blocking_finding (compile_document d).findings ≡ false
    → IsAccepted d (compile_document d)
unfolding compile_document checked_context
document-IsAccepted d canonical clear =
    let c = (compile_ledger d).context in
    let tracked = validate_tracking d (pitch_facts_of d) c in
    let blocked = checked-unblocked d clear in
    let before = (Adds-official_records tracked).unblocked blocked in
    let kept = Adds-validate_tracking d (pitch_facts_of d) c in
    record {
      canonical = canonical;
      valid = (compile_ledger-IsSound d).valid;
      tracking = validate_tracking-IsSettled d (pitch_facts_of d) c (ledger_calm d) before;
      records =
          RecordsAgree-kept d c tracked (kept.document ∙ compile_ledger-document d) kept.uncertain
            kept.batters kept.pitchers (compare_official_records-agree tracked blocked);
    }

-- When a document compiles and no finding of the result blocks, the document is canonical, the last
-- state is valid, every tracking candidate of the document is settled against the pitch facts with
-- at most one candidate linked to a row, and every official record of the document agrees with the
-- line that the ledger counts for its player.
pub compile_staging_game_document_v2-IsAccepted :
    (d : StagingGameDocumentV2) (r : ReplayResult)
    → compile_staging_game_document_v2 d ≡ compiled r
    → any is_blocking_finding r.findings ≡ false
    → IsAccepted d r
compile_staging_game_document_v2-IsAccepted d r h clear =
    let (canonical, same) = decoded-IsCanonical d r h in
    subst (IsAccepted d) same (
      document-IsAccepted d canonical
        (subst (λ x. any is_blocking_finding x.findings ≡ false) (sym same) clear))

-- ===== src/Correction/Decoded.antt =====
-- A whole correction: the batch, the numbering, the contexts and the two decodings of
-- packages/correction/src/commands.ts.
use mathlib.Core.Path.{subst}
use kbo_workbench.Prelude.{All, List, [], inl, inr, last, refl, ◌∷◌, ◌≡◌}
use kbo_workbench.Collections.Distinct.{is_nil-cases}
use kbo_workbench.Contracts.Canonical.{IsCanonical, IsCanonicalRow}
use kbo_workbench.Contracts.Document.{StagingGameDocumentV2}
use kbo_workbench.Contracts.Semantics.{validate_staging_game_document_v2_semantics}
use kbo_workbench.Contracts.Validated.{validate_semantics-IsCanonical}
use kbo_workbench.Correction.Accepted.{apply_atomic-IsStructured}
use kbo_workbench.Correction.Batch.{
  apply_batch-IsWellFormed, follow-IsWellFormed, resequence-IsWellFormed,
}
use kbo_workbench.Correction.Commands.{
  AtomicCorrectionCommand, apply_atomic, apply_batch, apply_correction, resequence,
}
use kbo_workbench.Correction.Contexts.{follow_stable_tracking_plate_appearance_contexts}
use kbo_workbench.Correction.Links.{IsWellFormed}
use kbo_workbench.Correction.Numbered.{follow-IsCanonical, resequence-IsCanonical}
use kbo_workbench.Correction.Rows.{
  CorrectionError, corrected_chain, draft, draft-injective, parse_document, thrown, ◌>>=◌,
}
use kbo_workbench.Correction.Structure.{IsCanonical-IsStructured, IsStructured}

parse_document-canonical : (d : StagingGameDocumentV2) → IsCanonical d → parse_document d ≡ draft d
unfolding parse_document
parse_document-canonical d c =
    let clean = (validate_semantics-IsCanonical d).1 c in rw (clean, parse_document) refl

parsed :
    (d : StagingGameDocumentV2) {n : StagingGameDocumentV2}
    → parse_document d ≡ draft n
    → (d ≡ n) × IsCanonical n
unfolding parse_document
parsed d {n} h = elim (is_nil-cases (validate_staging_game_document_v2_semantics d)) [
  | inl clean ↦
      let same : d ≡ n = draft-injective (rw (clean, parse_document) at h) in
      (same, subst IsCanonical same ((validate_semantics-IsCanonical d).0 clean))
  | inr (i, is, found) ↦
      let failed : thrown (CorrectionError.invalid_document (i ∷ is)) ≡ draft n =
        rw (found, parse_document) at h in
      cc
]

-- A correction that succeeds, of whatever commands, leaves a document whose linked candidates are
-- linked to pitch rows and in which the semantic check finds no issue: among others, its rows have
-- distinct identifiers and are numbered by their places, which the play index relies on.
pub apply_correction-IsWellFormed :
    (d : StagingGameDocumentV2) (cs : List AtomicCorrectionCommand) {n : StagingGameDocumentV2}
    → IsWellFormed d
    → apply_correction d cs ≡ draft n
    → IsWellFormed n × IsCanonical n
unfolding apply_correction
apply_correction-IsWellFormed d cs {n} w h =
    let (m, applied, rest) =
      corrected_chain (apply_batch d cs)
        (λ r. parse_document (resequence r) >>= λ p.
          parse_document (follow_stable_tracking_plate_appearance_contexts d p))
        h in
    let (p, decoded, last) =
      corrected_chain (parse_document (resequence m))
        (λ p. parse_document (follow_stable_tracking_plate_appearance_contexts d p)) rest in
    let kept = (resequence-IsWellFormed m (apply_batch-IsWellFormed d cs {n = m} w applied)).0 in
    let provisional = subst IsWellFormed (parsed (resequence m) {n = p} decoded).0 kept in
    let (same, canonical) =
      parsed (follow_stable_tracking_plate_appearance_contexts d p) {n = n} last in
    (subst IsWellFormed same (follow-IsWellFormed d p provisional), canonical)

apply_batch-IsStructured :
    (d : StagingGameDocumentV2) (cs : List AtomicCorrectionCommand) {n : StagingGameDocumentV2}
    → IsStructured d
    → apply_batch d cs ≡ draft n
    → IsStructured n
unfolding apply_batch
apply_batch-IsStructured d [] s h = subst IsStructured (draft-injective h) s
apply_batch-IsStructured d (c ∷ cs) {n} s h =
    let (m, applied, rest) = corrected_chain (apply_atomic d c) (λ next. apply_batch next cs) h in
    apply_batch-IsStructured m cs {n = n} (apply_atomic-IsStructured d c {n = m} s applied) rest

-- On a document that the semantic check accepts and whose links hold, the draft of a batch that
-- succeeds is refused for nothing but the content of a row: when each row of it is canonical by
-- itself, both decodings succeed, and the correction is the numbered draft with the contexts that
-- follow.
pub apply_correction_accepted :
    (d : StagingGameDocumentV2) (cs : List AtomicCorrectionCommand) {m : StagingGameDocumentV2}
    → IsWellFormed d
    → IsCanonical d
    → apply_batch d cs ≡ draft m
    → All IsCanonicalRow m.events
    → apply_correction d cs
      ≡ draft (follow_stable_tracking_plate_appearance_contexts d (resequence m))
unfolding apply_correction
apply_correction_accepted d cs {m} w c applied rows =
    let structured = apply_batch-IsStructured d cs {n = m} (IsCanonical-IsStructured d c) applied in
    let formed = apply_batch-IsWellFormed d cs {n = m} w applied in
    let provisional = resequence-IsCanonical m structured formed rows in
    rw
      (
        applied,
        parse_document-canonical (resequence m) provisional,
        parse_document-canonical (follow_stable_tracking_plate_appearance_contexts d (resequence m))
            (follow-IsCanonical d (resequence m) provisional),
      )
      refl

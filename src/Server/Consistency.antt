-- ===== src/Server/Consistency.antt =====
-- What holds of every correction session, and the steps that its calls take.
use mathlib.Core.Path.{subst}
use kbo_workbench.Prelude.{
  Bool-cases, List, Option-cases, [], ap, arith, inl, inr, refl, some, suc, sym, ℕ, ◌==◌, ◌∙◌, ◌∷◌,
  ◌≡◌, ◌≤◌, ◌⊎◌,
}
use kbo_workbench.Collections.Distinct.{is_nil-cases}
use kbo_workbench.Contracts.Canonical.{IsCanonical}
use kbo_workbench.Contracts.Document.{StagingGameDocumentV2}
use kbo_workbench.Contracts.Semantics.{validate_staging_game_document_v2_semantics}
use kbo_workbench.Contracts.Validated.{validate_semantics-IsCanonical}
use kbo_workbench.Reducer.Compile.{ReplayResult, compile_document, compile_staging_game_document_v2}
use kbo_workbench.Server.Session.{
  Answer, CorrectionSession, HistoryEntry, InternalSession, SessionError, answered,
  compile_correction_document, fresh_snapshot, move_to, redo, refused, shown, snapshot, undo,
}
use kbo_workbench.Server.StoredFindings.{
  CanonicalText, PreparedCorrectionSnapshot, StoredFinding, prepare_correction_snapshot,
}

-- The entries behind a document lead back to the one that the session is based on, whose hash it has.
abbrev LeadsBack : CanonicalText → ℕ → StagingGameDocumentV2 → List HistoryEntry → Type 0
LeadsBack text base d [] = text.document_hash d ≡ base
LeadsBack text base d (e ∷ es) =
    (e.after ≡ d) × IsCanonical e.before × LeadsBack text base e.before es

-- The entries that were undone lead on from a document.
abbrev LeadsOn : StagingGameDocumentV2 → List HistoryEntry → Type 0
LeadsOn d [] = Unit
LeadsOn d (e ∷ es) = (e.before ≡ d) × IsCanonical e.after × LeadsOn e.after es

pub record IsConsistent (text : CanonicalText) (s : InternalSession) : Type 0 where
  pub canonical : IsCanonical s.document
  pub replayed : s.replay ≡ compile_document s.document
  pub prepared : s.prepared ≡ prepare_correction_snapshot text s.document s.replay s.stored_findings
  pub back : LeadsBack text s.base_document_hash s.document s.undo_stack
  pub on : LeadsOn s.document s.redo_stack
  pub cache :
      (c : CorrectionSession)
      → s.cached_snapshot ≡ some c
      → (c.session_version ≤ s.session_version)
        × (c.session_version ≡ s.session_version → c ≡ fresh_snapshot s)

pub document-hashed :
    (text : CanonicalText) (s : InternalSession)
    → IsConsistent text s
    → s.prepared.draft_document_hash ≡ text.document_hash s.document
unfolding prepare_correction_snapshot
document-hashed text s v = ap (λ p. p.draft_document_hash) v.prepared

pub compile_correction_document-canonical :
    (text : CanonicalText) (d : StagingGameDocumentV2) (stored : List StoredFinding)
    → IsCanonical d
    → compile_correction_document text d stored
      ≡ answered
          (compile_document d, prepare_correction_snapshot text d (compile_document d) stored)
unfolding compile_correction_document compile_staging_game_document_v2
compile_correction_document-canonical text d stored c =
    let clean = (validate_semantics-IsCanonical d).1 c in
    rw (clean, compile_correction_document, compile_staging_game_document_v2) refl

pub compile_correction_document-answered :
    (text : CanonicalText) (d : StagingGameDocumentV2) (stored : List StoredFinding)
    (a : ReplayResult × PreparedCorrectionSnapshot)
    → compile_correction_document text d stored ≡ answered a
    → IsCanonical d
unfolding compile_correction_document compile_staging_game_document_v2
compile_correction_document-answered text d stored a h =
    elim (is_nil-cases (validate_staging_game_document_v2_semantics d)) [
      | inl clean ↦ (validate_semantics-IsCanonical d).0 clean
      | inr (i, is, found) ↦
          let failed =
            rw (found, compile_correction_document, compile_staging_game_document_v2) at h in
          cc
    ]

-- A session that has gone on to a canonical document.
abbrev pub moved :
    CanonicalText
    → StagingGameDocumentV2
    → List HistoryEntry
    → List HistoryEntry
    → InternalSession
    → InternalSession
moved text d undo redo s = record s {
  document = d;
  replay = compile_document d;
  prepared = prepare_correction_snapshot text d (compile_document d) s.stored_findings;
  undo_stack = undo;
  redo_stack = redo;
  session_version = suc s.session_version;
}

pub move_to-moved :
    (text : CanonicalText) (d : StagingGameDocumentV2) (u r : List HistoryEntry)
    (s : InternalSession)
    → IsCanonical d
    → move_to d u r s (compile_correction_document text d s.stored_findings)
      ≡ answered (moved text d u r s)
move_to-moved text d u r s c =
    rw (compile_correction_document-canonical text d s.stored_findings c) refl

pub answer-cases {ℓ} :
    {D : Type ℓ} (a : Answer D)
    → ((e : SessionError) × (a ≡ refused e)) ⊎ ((x : D) × (a ≡ answered x))
answer-cases (refused e) = inl (e, refl)
answer-cases (answered x) = inr (x, refl)

pub answered-injective {ℓ} : {D : Type ℓ} {x y : D} → answered x ≡ answered y → x ≡ y
answered-injective h = cc

move_to-answered :
    (text : CanonicalText) (d : StagingGameDocumentV2) (u r : List HistoryEntry)
    (s t : InternalSession)
    → move_to d u r s (compile_correction_document text d s.stored_findings) ≡ answered t
    → IsCanonical d × (moved text d u r s ≡ t)
move_to-answered text d u r s t h =
    elim (answer-cases (compile_correction_document text d s.stored_findings)) [
      | inl (e, failed) ↦ let none_answered = rw failed at h in cc
      | inr (a, done) ↦
          let c = compile_correction_document-answered text d s.stored_findings a done in
          (c, answered-injective (sym (move_to-moved text d u r s c) ∙ h))
    ]

too_late : {m n : ℕ} → m ≤ n → m ≡ suc n → ⊥
too_late h same = omega (arith, h, same)

pub later_version : {m n : ℕ} {P : Type 0} → m ≤ n → (m ≤ suc n) × (m ≡ suc n → P)
later_version {m} {n} h =
    let later : m ≤ suc n = omega (arith, h) in (later, λ same. elim (too_late h same) [ ])

moved-IsConsistent :
    (text : CanonicalText) (d : StagingGameDocumentV2) (u r : List HistoryEntry)
    (s : InternalSession)
    → IsConsistent text s
    → IsCanonical d
    → LeadsBack text s.base_document_hash d u
    → LeadsOn d r
    → IsConsistent text (moved text d u r s)
unfolding prepare_correction_snapshot
moved-IsConsistent text d u r s v c back on = record {
  canonical = c;
  replayed = refl;
  prepared = refl;
  back = back;
  on = on;
  cache = λ k e. later_version (v.cache k e).0;
}

pub move_to-IsConsistent :
    (text : CanonicalText) (d : StagingGameDocumentV2) (u r : List HistoryEntry)
    (s t : InternalSession)
    → IsConsistent text s
    → LeadsBack text s.base_document_hash d u
    → LeadsOn d r
    → move_to d u r s (compile_correction_document text d s.stored_findings) ≡ answered t
    → IsConsistent text t
move_to-IsConsistent text d u r s t v back on h =
    let (c, same) = move_to-answered text d u r s t h in
    subst (IsConsistent text) same (moved-IsConsistent text d u r s v c back on)

snapshot-fresh :
    (text : CanonicalText) (s : InternalSession)
    → IsConsistent text s
    → snapshot s ≡ fresh_snapshot s
unfolding snapshot
snapshot-fresh text s v = elim (Option-cases s.cached_snapshot) [
  | inl first_time ↦ rw (first_time, snapshot) refl
  | inr (c, kept) ↦ elim (Bool-cases (c.session_version == s.session_version)) [
    | inl same ↦ rw (kept, snapshot, same) ((v.cache c kept).1 (ground arith))
    | inr other ↦ rw (kept, snapshot, other) refl
  ]
]

some-injective {ℓ} : {D : Type ℓ} {x y : D} → some x ≡ some y → x ≡ y
some-injective h = cc

pub shown-IsConsistent :
    (text : CanonicalText) (s : InternalSession) → IsConsistent text s → IsConsistent text (shown s)
shown-IsConsistent text s v = record {
  canonical = v.canonical;
  replayed = v.replayed;
  prepared = v.prepared;
  back = v.back;
  on = v.on;
  cache = λ c e.
      let fresh : c ≡ fresh_snapshot s = sym (some-injective e) ∙ snapshot-fresh text s v in
      (rw fresh (omega arith), λ same. fresh);
}

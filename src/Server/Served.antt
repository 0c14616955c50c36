-- ===== src/Server/Served.antt =====
-- A correction session stays consistent along whatever calls.
use mathlib.Core.Path.{subst}
use kbo_workbench.Prelude.{
  Bool, List, [], ap, arith, false, inl, inr, refl, sym, true, ℕ, ◌∙◌, ◌∷◌, ◌≡◌,
}
use kbo_workbench.Collections.Distinct.{is_nil-cases}
use kbo_workbench.Contracts.Document.{StagingGameDocumentV2}
use kbo_workbench.Correction.Commands.{apply_correction}
use kbo_workbench.Correction.Rows.{Corrected, draft, parse_document, thrown, ◌>>=◌}
use kbo_workbench.Server.Calls.{SessionCall, handle, serve, session_after}
use kbo_workbench.Server.Commit.{StagingCorrectionCommit, commit, commit_of, committed}
use kbo_workbench.Server.Consistency.{
  IsConsistent, answer-cases, answered-injective, compile_correction_document-answered,
  compile_correction_document-canonical, document-hashed, later_version, move_to-IsConsistent,
  shown-IsConsistent,
}
use kbo_workbench.Server.Merged.{prepare-stored}
use kbo_workbench.Server.Session.{
  InternalSession, SessionSource, answered, command, compile_correction_document, corrected, create,
  load_original, move_to, redo, shown, undo,
}
use kbo_workbench.Server.StoredFindings.{
  CanonicalText, PreparedCorrectionSnapshot, prepare_correction_snapshot,
}

undo-IsConsistent :
    (text : CanonicalText) (s t : InternalSession)
    → IsConsistent text s
    → undo text s ≡ answered t
    → IsConsistent text t
unfolding undo
undo-IsConsistent text s t v h = elim (is_nil-cases s.undo_stack) [
  | inl idle ↦ let failed = rw (idle, undo) at h in cc
  | inr (e, es, busy) ↦
      let (made, before, back) = rw busy at v.back in
      move_to-IsConsistent text e.before es (e ∷ s.redo_stack) s t v back
        (refl, rw made v.canonical, rw made v.on) (rw (busy, undo) at h)
]

redo-IsConsistent :
    (text : CanonicalText) (s t : InternalSession)
    → IsConsistent text s
    → redo text s ≡ answered t
    → IsConsistent text t
unfolding redo
redo-IsConsistent text s t v h = elim (is_nil-cases s.redo_stack) [
  | inl idle ↦ let failed = rw (idle, redo) at h in cc
  | inr (e, es, busy) ↦
      let (undone, after, on) = rw busy at v.on in
      move_to-IsConsistent text e.after (e ∷ s.undo_stack) es s t v
        (refl, rw undone v.canonical, rw undone v.back) on (rw (busy, redo) at h)
]

-- Going on to a new document drops what was undone.
new_entry-IsConsistent :
    (text : CanonicalText) (d : StagingGameDocumentV2) (s t : InternalSession)
    → IsConsistent text s
    → move_to d
        (record { before = s.document; after = d } ∷ s.undo_stack)
        []
        s
        (compile_correction_document text d s.stored_findings)
      ≡ answered t
    → IsConsistent text t
new_entry-IsConsistent text d s t v h =
    move_to-IsConsistent text d (record { before = s.document; after = d } ∷ s.undo_stack) [] s t v
      (refl, v.canonical, v.back) tt h

corrected-IsConsistent :
    (text : CanonicalText) (apply : Bool) (s t : InternalSession)
    (r : Corrected StagingGameDocumentV2)
    → IsConsistent text s
    → corrected text apply s r ≡ answered t
    → IsConsistent text t
corrected-IsConsistent text apply s t (thrown e) v h = cc
corrected-IsConsistent text false s t (draft d) v h =
    subst (IsConsistent text) (answered-injective h) v
corrected-IsConsistent text true s t (draft d) v h = new_entry-IsConsistent text d s t v h

pub commit-answered :
    (text : CanonicalText) (saves : StagingCorrectionCommit → Bool) (allow : Bool)
    (s t : InternalSession)
    → commit text saves allow s ≡ answered t
    → committed (commit_of text s) s ≡ t
unfolding commit
commit-answered text saves allow s t h = ground arith

commit-IsConsistent :
    (text : CanonicalText) (saves : StagingCorrectionCommit → Bool) (allow : Bool)
    (s t : InternalSession)
    → IsConsistent text s
    → commit text saves allow s ≡ answered t
    → IsConsistent text t
commit-IsConsistent text saves allow s t v h =
    subst (IsConsistent text) (commit-answered text saves allow s t h) (record {
      canonical = v.canonical;
      replayed = v.replayed;
      prepared =
          ap (λ (p : PreparedCorrectionSnapshot). record p { stored_findings = p.findings })
            v.prepared
          ∙ prepare-stored text s.document s.replay s.stored_findings;
      back = sym (document-hashed text s v);
      on = tt;
      cache = λ k e. later_version (v.cache k e).0;
    })

handle-IsConsistent :
    (text : CanonicalText) (call : SessionCall) (s t : InternalSession)
    → IsConsistent text s
    → handle text call s ≡ answered t
    → IsConsistent text t
unfolding handle command load_original
handle-IsConsistent text SessionCall.get s t v h =
    subst (IsConsistent text) (answered-injective h) v
handle-IsConsistent text SessionCall.undoes s t v h = undo-IsConsistent text s t v h
handle-IsConsistent text SessionCall.redoes s t v h = redo-IsConsistent text s t v h
handle-IsConsistent text (SessionCall.commands cs apply) s t v h =
    corrected-IsConsistent text apply s t (parse_document s.document >>= λ d. apply_correction d cs)
      v h
handle-IsConsistent text (SessionCall.loads_original d) s t v h =
    new_entry-IsConsistent text (record d { revision_base = s.document.revision_base }) s t v h
handle-IsConsistent text (SessionCall.commits saves allow) s t v h =
    commit-IsConsistent text saves allow s t v h

session_after-IsConsistent :
    (text : CanonicalText) (call : SessionCall) (s : InternalSession)
    → IsConsistent text s
    → IsConsistent text (session_after (handle text call s) s)
session_after-IsConsistent text call s v = elim (answer-cases (handle text call s)) [
  | inl (e, failed) ↦ rw failed v
  | inr (t, done) ↦ rw done (shown-IsConsistent text t (handle-IsConsistent text call s t v done))
]

serve-IsConsistent :
    (text : CanonicalText) (calls : List SessionCall) (s : InternalSession)
    → IsConsistent text s
    → IsConsistent text (serve text calls s)
unfolding serve
serve-IsConsistent text [] s v = v
serve-IsConsistent text (c ∷ cs) s v =
    serve-IsConsistent text cs (session_after (handle text c s) s)
      (session_after-IsConsistent text c s v)

create-IsConsistent :
    (text : CanonicalText) (id : ℕ) (source : SessionSource) (s : InternalSession)
    → create text id source ≡ answered s
    → IsConsistent text s
unfolding create prepare_correction_snapshot
create-IsConsistent text id source s h =
    elim (answer-cases (compile_correction_document text source.document source.findings)) [
      | inl (e, failed) ↦ let none_created = rw (failed, create) at h in cc
      | inr (a, done) ↦
          let c =
            compile_correction_document-answered text source.document source.findings a done in
          let made = compile_correction_document-canonical text source.document source.findings c in
          subst (IsConsistent text) (answered-injective (rw (made, create) at h)) (record {
            canonical = c;
            replayed = refl;
            prepared = refl;
            back = refl;
            on = tt;
            cache = λ k e. cc;
          })
    ]

-- A session that has been created stays consistent along any list of calls, whether they succeed or
-- throw: its document is canonical, its replay is that of the document, its snapshot is prepared
-- from the document, the replay and the stored findings, its undo stack leads back to the document
-- that it is based on and its redo stack on from its document, and a cached snapshot of its version
-- is the snapshot that would be taken anew.
pub served-IsConsistent :
    (text : CanonicalText) (id : ℕ) (source : SessionSource) (s : InternalSession)
    (calls : List SessionCall)
    → create text id source ≡ answered s
    → IsConsistent text (serve text calls (shown s))
served-IsConsistent text id source s calls h =
    serve-IsConsistent text calls (shown s)
      (shown-IsConsistent text s (create-IsConsistent text id source s h))

-- ===== src/Server/History.antt =====
-- Undoing and redoing, and what a commit hands over.
use mathlib.Core.Path.{subst}
use kbo_workbench.Prelude.{
  Bool, List, [], ap, arith, count, false, if◌then◌else◌, is_some, ltb, none, refl, sym, true, ℕ,
  ◌+◌, ◌↔◌, ◌∙◌, ◌∷◌, ◌≡◌,
}
use kbo_workbench.Contracts.Canonical.{IsCanonical}
use kbo_workbench.Reducer.Compile.{compile_document}
use kbo_workbench.Server.Commit.{StagingCorrectionCommit, commit, commit_of, committed_findings}
use kbo_workbench.Server.Consistency.{IsConsistent, document-hashed, move_to-moved, moved}
use kbo_workbench.Server.Served.{commit-answered}
use kbo_workbench.Server.Session.{
  HistoryEntry, InternalSession, SessionAuthority, answered, redo, undo,
}
use kbo_workbench.Server.StoredFindings.{
  CanonicalText, is_blocking_stored, merge_persistent_source_findings,
}

-- Where a session stands: what a client sees but for the version, and the two stacks.
pub record SamePlace (s t : InternalSession) : Type 0 where
  pub document : t.document ≡ s.document
  pub replay : t.replay ≡ s.replay
  pub undo_stack : t.undo_stack ≡ s.undo_stack
  pub redo_stack : t.redo_stack ≡ s.redo_stack
  pub base : t.base_document_hash ≡ s.base_document_hash
  pub stored : t.stored_findings ≡ s.stored_findings

-- In a consistent session that has something to undo, undoing succeeds, and redoing then succeeds and
-- leads back to the document, the replay and the stacks of before, two versions later.
pub undo-redo :
    (text : CanonicalText) (s : InternalSession) (e : HistoryEntry) (es : List HistoryEntry)
    → IsConsistent text s
    → s.undo_stack ≡ e ∷ es
    → (t : InternalSession) × (u : InternalSession) × (undo text s ≡ answered t)
      × (redo text t ≡ answered u)
      × (t.document ≡ e.before)
      × SamePlace s u
      × (u.session_version ≡ s.session_version + 2)
unfolding undo redo
undo-redo text s e es v busy =
    let (made, before, back) = rw busy at v.back in
    let t = moved text e.before es (e ∷ s.redo_stack) s in
    let after : IsCanonical e.after = rw made v.canonical in
    (
      t,
      moved text e.after (e ∷ es) s.redo_stack t,
      rw (busy, undo) (move_to-moved text e.before es (e ∷ s.redo_stack) s before),
      move_to-moved text e.after (e ∷ es) s.redo_stack t after,
      refl,
      record {
        document = made;
        replay = ap compile_document made ∙ sym v.replayed;
        undo_stack = sym busy;
        redo_stack = refl;
        base = refl;
        stored = refl;
      },
      omega arith,
    )

-- What a commit hands to the workspace: the document of the session, the findings of its
-- compilation merged with the stored ones, and what the session is based on; the snapshot and its
-- content go along for a superseded document, and for no other.
pub record IsHandedOver (text : CanonicalText) (s : InternalSession) (c : StagingCorrectionCommit)
    : Type 0 where
  pub document : c.document ≡ s.document
  pub findings :
      c.findings
      ≡ merge_persistent_source_findings text s.stored_findings
          (compile_document s.document).findings
          s.document
  pub base_document : c.base_document_hash ≡ s.base_document_hash
  pub base_authority : c.base_authority ≡ s.authority
  pub superseded :
      s.authority ≡ SessionAuthority.superseded
      → (c.base_snapshot_id ≡ s.snapshot_id)
        × (is_some s.snapshot_id ≡ true)
        × (c.base_current_content_hash ≡ s.base_current_content_hash)
  pub current :
      ¬ (s.authority ≡ SessionAuthority.superseded)
      → (c.base_snapshot_id ≡ none) × (c.base_current_content_hash ≡ none)

-- A commit `c` that has been taken, and the session behind it.
pub record IsCommitted (text : CanonicalText) (allow : Bool) (c : StagingCorrectionCommit)
    (s t : InternalSession) : Type 0 where
  pub handed : IsHandedOver text s c
  pub kept : t.document ≡ s.document
  pub based : t.base_document_hash ≡ text.document_hash c.document
  pub stored : t.stored_findings ≡ c.findings
  pub authority : t.authority ≡ c.target_authority
  pub clean :
      (c.target_authority ≡ SessionAuthority.staging) ↔ (count is_blocking_stored c.findings ≡ 0)
  pub allowed : allow ≡ false → t.authority ≡ SessionAuthority.staging
  pub undo_stack : t.undo_stack ≡ []
  pub redo_stack : t.redo_stack ≡ []

staging-or-quarantine :
    (n : ℕ)
    → ((if ltb 0 n then SessionAuthority.quarantine else SessionAuthority.staging)
        ≡ SessionAuthority.staging)
      ↔ (n ≡ 0)
staging-or-quarantine n = (λ h. ground arith, λ h. ground arith)

commit_of-IsHandedOver :
    (text : CanonicalText) (s : InternalSession)
    → (s.authority ≡ SessionAuthority.superseded → is_some s.snapshot_id ≡ true)
    → s.replay ≡ compile_document s.document
    → IsHandedOver text s (commit_of text s)
commit_of-IsHandedOver text s present replayed = record {
  document = refl;
  findings = rw replayed refl;
  base_document = refl;
  base_authority = refl;
  superseded = λ e. (rw e refl, present e, rw e refl);
  current = λ other. ground arith;
}

commit-guards :
    (text : CanonicalText) (saves : StagingCorrectionCommit → Bool) (allow : Bool)
    (s t : InternalSession)
    → commit text saves allow s ≡ answered t
    → (saves (commit_of text s) ≡ true)
      × (allow ≡ false → count is_blocking_stored (committed_findings text s) ≡ 0)
      × (s.authority ≡ SessionAuthority.superseded → is_some s.snapshot_id ≡ true)
unfolding commit
commit-guards text saves allow s t h = (ground arith, λ a. ground arith, λ a. ground arith)

-- When a commit of a consistent session succeeds, the workspace has taken the document of the session
-- as it stands, with the findings of its compilation merged into the stored ones, and based on what
-- the session was based on, with the snapshot and its content exactly for a superseded one; it goes
-- to the staging area exactly when none of the findings blocks, and blocking ones only when they are
-- allowed; and the session keeps its document, is based on it, stores the findings that were taken,
-- and has nothing to undo or redo.
pub commit-IsCommitted :
    (text : CanonicalText) (saves : StagingCorrectionCommit → Bool) (allow : Bool)
    (s t : InternalSession)
    → IsConsistent text s
    → commit text saves allow s ≡ answered t
    → (c : StagingCorrectionCommit) × (saves c ≡ true) × IsCommitted text allow c s t
commit-IsCommitted text saves allow s t v h =
    let (taken, allowed, present) = commit-guards text saves allow s t h in
    let c = commit_of text s in
    let clean = staging-or-quarantine (count is_blocking_stored c.findings) in
    (
      c,
      taken,
      subst (IsCommitted text allow c s) (commit-answered text saves allow s t h) (record {
        handed = commit_of-IsHandedOver text s present v.replayed;
        kept = refl;
        based = document-hashed text s v;
        stored = refl;
        authority = refl;
        clean = clean;
        allowed = λ a. clean.1 (allowed a);
        undo_stack = refl;
        redo_stack = refl;
      }),
    )

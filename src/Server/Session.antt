-- ===== src/Server/Session.antt =====
-- apps/server/src/correction-session-state.ts and the operations on one session of
-- apps/server/src/correction-session-manager.ts. The lock of a session makes each operation one
-- step. A stack is a list with its last entry first; an operation that throws leaves the session.
use kbo_workbench.Prelude.{
  Bool, List, Option, [], false, if◌then◌else◌, none, not, some, suc, true, ℕ, ◌==◌, ◌∷◌,
}
use kbo_workbench.Contracts.Document.{StagingGameDocumentV2}
use kbo_workbench.Contracts.Semantics.{ContractIssue}
use kbo_workbench.Correction.Commands.{AtomicCorrectionCommand, apply_correction}
use kbo_workbench.Correction.Rows.{Corrected, CorrectionError, draft, parse_document, thrown, ◌>>=◌}
use kbo_workbench.Reducer.Compile.{
  Compiled, ReplayResult, compile_staging_game_document_v2, compiled,
}
use kbo_workbench.Server.StoredFindings.{
  CanonicalText, PreparedCorrectionSnapshot, StoredFinding, prepare_correction_snapshot,
}

pub record HistoryEntry : Type 0 where
  pub before : StagingGameDocumentV2
  pub after : StagingGameDocumentV2

pub data SessionAuthority : Type 0 where
  staging quarantine superseded : SessionAuthority

-- The session that a client sees.
pub record CorrectionSession : Type 0 where
  pub prepared : PreparedCorrectionSnapshot
  pub session_id : ℕ
  pub authority : SessionAuthority
  pub snapshot_id : Option ℕ
  pub game_id : ℕ
  pub base_document_hash : ℕ
  pub session_version : ℕ
  pub can_undo : Bool
  pub can_redo : Bool
  pub dirty : Bool

pub record InternalSession : Type 0 where
  pub session_id : ℕ
  pub game_id : ℕ
  pub base_document_hash : ℕ
  pub authority : SessionAuthority
  pub snapshot_id : Option ℕ
  pub base_current_content_hash : Option ℕ
  pub document : StagingGameDocumentV2
  pub replay : ReplayResult
  pub prepared : PreparedCorrectionSnapshot
  pub stored_findings : List StoredFinding
  pub session_version : ℕ
  pub undo_stack : List HistoryEntry
  pub redo_stack : List HistoryEntry
  pub cached_snapshot : Option CorrectionSession

pub data SessionError : Type 0 where
  session_not_found stale_session session_limit : SessionError
  nothing_to_undo nothing_to_redo nothing_to_save blocking_findings : SessionError
  snapshot_id_missing save_failed : SessionError
  invalid_document : List ContractIssue → SessionError
  command_failed : CorrectionError → SessionError

pub data Answer {ℓ} (D : Type ℓ) : Type ℓ where
  refused : SessionError → Answer D
  answered : D → Answer D

abbrev pub is_empty {ℓ} : {D : Type ℓ} → List D → Bool
is_empty [] = true
is_empty (x ∷ xs) = false

abbrev pub fresh_snapshot : InternalSession → CorrectionSession
fresh_snapshot s = record {
  prepared = s.prepared;
  session_id = s.session_id;
  authority = s.authority;
  snapshot_id = s.snapshot_id;
  game_id = s.game_id;
  base_document_hash = s.base_document_hash;
  session_version = s.session_version;
  can_undo = not (is_empty s.undo_stack);
  can_redo = not (is_empty s.redo_stack);
  dirty = not (is_empty s.undo_stack);
}

-- `snapshot`: the cached one, if it is of this version.
unfoldable pub snapshot : InternalSession → CorrectionSession
snapshot s = elim s.cached_snapshot [
  | none ↦ fresh_snapshot s
  | some c ↦ if c.session_version == s.session_version then c else fresh_snapshot s
]

-- The session once its snapshot has been taken.
abbrev pub shown : InternalSession → InternalSession
shown s = record s { cached_snapshot = some (snapshot s) }

-- `compileCorrectionDocument`
unfoldable pub compile_correction_document :
    CanonicalText
    → StagingGameDocumentV2
    → List StoredFinding
    → Answer (ReplayResult × PreparedCorrectionSnapshot)
unfolding compile_staging_game_document_v2 prepare_correction_snapshot
compile_correction_document text d stored = elim (compile_staging_game_document_v2 d) [
  | Compiled.thrown is ↦ refused (SessionError.invalid_document is)
  | compiled r ↦ answered (r, prepare_correction_snapshot text d r stored)
]

-- What the workspace has read for a new session.
pub record SessionSource : Type 0 where
  pub game_id : ℕ
  pub authority : SessionAuthority
  pub snapshot_id : Option ℕ
  pub current_content_hash : Option ℕ
  pub document : StagingGameDocumentV2
  pub findings : List StoredFinding

abbrev session_on :
    ℕ → SessionSource → Answer (ReplayResult × PreparedCorrectionSnapshot) → Answer InternalSession
session_on id source (refused e) = refused e
session_on id source (answered (r, p)) = answered (record {
  session_id = id;
  game_id = source.game_id;
  base_document_hash = p.draft_document_hash;
  authority = source.authority;
  snapshot_id = source.snapshot_id;
  base_current_content_hash = source.current_content_hash;
  document = source.document;
  replay = r;
  prepared = p;
  stored_findings = source.findings;
  session_version = 0;
  undo_stack = [];
  redo_stack = [];
  cached_snapshot = none;
})

-- `create`, behind the reading of the workspace.
unfoldable pub create : CanonicalText → ℕ → SessionSource → Answer InternalSession
unfolding compile_correction_document
create text id source =
    session_on id source (compile_correction_document text source.document source.findings)

-- Go on to a document that compiles, with new stacks and the next version.
abbrev pub move_to :
    StagingGameDocumentV2
    → List HistoryEntry
    → List HistoryEntry
    → InternalSession
    → Answer (ReplayResult × PreparedCorrectionSnapshot)
    → Answer InternalSession
move_to d undo redo s (refused e) = refused e
move_to d undo redo s (answered (r, p)) = answered (record s {
  document = d;
  replay = r;
  prepared = p;
  undo_stack = undo;
  redo_stack = redo;
  session_version = suc s.session_version;
})

abbrev pub corrected :
    CanonicalText
    → Bool
    → InternalSession
    → Corrected StagingGameDocumentV2
    → Answer InternalSession
corrected text apply s (thrown e) = refused (SessionError.command_failed e)
corrected text apply s (draft d) =
    if apply
    then move_to d (record { before = s.document; after = d } ∷ s.undo_stack) [] s
        (compile_correction_document text d s.stored_findings)
    else answered s

unfoldable pub command :
    CanonicalText → List AtomicCorrectionCommand → Bool → InternalSession → Answer InternalSession
unfolding parse_document apply_correction compile_correction_document
command text cs apply s =
    corrected text apply s (parse_document s.document >>= λ d. apply_correction d cs)

unfoldable pub undo : CanonicalText → InternalSession → Answer InternalSession
unfolding compile_correction_document
undo text s = elim s.undo_stack [
  | [] ↦ refused SessionError.nothing_to_undo
  | e ∷ es ↦
      move_to e.before es (e ∷ s.redo_stack) s
        (compile_correction_document text e.before s.stored_findings)
]

unfoldable pub redo : CanonicalText → InternalSession → Answer InternalSession
unfolding compile_correction_document
redo text s = elim s.redo_stack [
  | [] ↦ refused SessionError.nothing_to_redo
  | e ∷ es ↦
      move_to e.after (e ∷ s.undo_stack) es s
        (compile_correction_document text e.after s.stored_findings)
]

-- `loadOriginal`, for the original that the workspace has read.
unfoldable pub load_original :
    CanonicalText → StagingGameDocumentV2 → InternalSession → Answer InternalSession
unfolding compile_correction_document
load_original text original s =
    let rebased = record original { revision_base = s.document.revision_base } in
    move_to rebased (record { before = s.document; after = rebased } ∷ s.undo_stack) [] s
      (compile_correction_document text rebased s.stored_findings)

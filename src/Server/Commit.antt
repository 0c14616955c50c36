-- ===== src/Server/Commit.antt =====
-- `commit` of apps/server/src/correction-session-manager.ts.
use kbo_workbench.Prelude.{
  Bool, List, Option, [], count, false, if◌then◌else◌, is_some, ltb, none, not, suc, true, ℕ, ◌&&◌,
  ◌==◌,
}
use kbo_workbench.Contracts.Document.{StagingGameDocumentV2}
use kbo_workbench.Server.Session.{
  Answer, InternalSession, SessionAuthority, SessionError, answered, is_empty, refused,
}
use kbo_workbench.Server.StoredFindings.{
  CanonicalText, StoredFinding, is_blocking_stored, merge_persistent_source_findings,
}

-- `StagingCorrectionCommit`, what is handed to the workspace.
pub record StagingCorrectionCommit : Type 0 where
  pub base_authority : SessionAuthority
  pub base_snapshot_id : Option ℕ
  pub base_current_content_hash : Option ℕ
  pub target_authority : SessionAuthority
  pub base_document_hash : ℕ
  pub document : StagingGameDocumentV2
  pub findings : List StoredFinding

abbrev is_quarantine : SessionAuthority → Bool
is_quarantine SessionAuthority.quarantine = true
is_quarantine _ = false

abbrev is_superseded : SessionAuthority → Bool
is_superseded SessionAuthority.superseded = true
is_superseded _ = false

abbrev pub committed_findings : CanonicalText → InternalSession → List StoredFinding
committed_findings text s =
    merge_persistent_source_findings text s.stored_findings s.replay.findings s.document

abbrev pub commit_of : CanonicalText → InternalSession → StagingCorrectionCommit
commit_of text s =
    let findings = committed_findings text s in
    record {
      base_authority = s.authority;
      base_snapshot_id = if is_superseded s.authority then s.snapshot_id else none;
      base_current_content_hash =
          if is_superseded s.authority then s.base_current_content_hash else none;
      target_authority =
          if ltb 0 (count is_blocking_stored findings)
          then SessionAuthority.quarantine
          else SessionAuthority.staging;
      base_document_hash = s.base_document_hash;
      document = s.document;
      findings = findings;
    }

abbrev pub committed : StagingCorrectionCommit → InternalSession → InternalSession
committed c s = record s {
  base_document_hash = s.prepared.draft_document_hash;
  prepared = record s.prepared { stored_findings = s.prepared.findings };
  authority = c.target_authority;
  snapshot_id = none;
  base_current_content_hash = none;
  stored_findings = c.findings;
  undo_stack = [];
  redo_stack = [];
  session_version = suc s.session_version;
}

-- `saves` says whether the workspace takes the commit.
unfoldable pub commit :
    CanonicalText
    → (StagingCorrectionCommit → Bool)
    → Bool
    → InternalSession
    → Answer InternalSession
unfolding merge_persistent_source_findings
commit text saves allow_blocking_staging s =
    let c = commit_of text s in
    let blocking = count is_blocking_stored c.findings in
    if is_empty s.undo_stack
      && not (is_quarantine s.authority && blocking == 0)
      && not (is_superseded s.authority)
    then refused SessionError.nothing_to_save
    else if ltb 0 blocking && not allow_blocking_staging
    then refused SessionError.blocking_findings
    else if is_superseded s.authority && not (is_some s.snapshot_id)
    then refused SessionError.snapshot_id_missing
    else if saves c
    then answered (committed c s)
    else refused SessionError.save_failed

-- ===== src/Tests/Server.antt =====
-- Witnesses for the correction sessions: a session on the document of the compiler's tests.
use kbo_workbench.Prelude.{
  List, [], arith, false, length, map, none, refl, some, true, ◌∷◌, ◌≡◌, ◌≤◌,
}
use kbo_workbench.Collections.Dict.{lookup}
use kbo_workbench.Contracts.Document.{StagingGameDocumentV2}
use kbo_workbench.Contracts.Semantics.{validate_staging_game_document_v2_semantics}
use kbo_workbench.Contracts.Validated.{validate_semantics-IsCanonical}
use kbo_workbench.Correction.Commands.{AtomicCorrectionCommand}
use kbo_workbench.Game.Findings.{FindingCategory, FindingSeverity}
use kbo_workbench.Reducer.Compile.{compile_document, compile_staging_game_document_v2}
use kbo_workbench.Server.Calls.{SessionCall, serve}
use kbo_workbench.Server.Capacity.{make_room-keeps_work, store_run-IsWithin}
use kbo_workbench.Server.Commit.{StagingCorrectionCommit, commit, commit_of, committed}
use kbo_workbench.Server.Consistency.{IsConsistent}
use kbo_workbench.Server.History.{IsCommitted, SamePlace, commit-IsCommitted, undo-redo}
use kbo_workbench.Server.Merged.{merge-merge}
use kbo_workbench.Server.Served.{served-IsConsistent}
use kbo_workbench.Server.Session.{
  HistoryEntry, InternalSession, SessionAuthority, SessionSource, answered,
  compile_correction_document, create, redo, shown, undo,
}
use kbo_workbench.Server.Store.{SessionStore, StoreCall, make_room, store_run}
use kbo_workbench.Server.StoredFindings.{
  CanonicalText, FindingLifecycle, FindingProducer, PreparedCorrectionSnapshot, StoredFinding,
  merge_persistent_source_findings, prepare_correction_snapshot,
}
use kbo_workbench.Tests.Reducer.{accepted_document, accepted_document-clean}

-- A hash that counts the rows and a key that counts the details.
abbrev plain_text : CanonicalText
plain_text = record { document_hash = λ d. length d.events; finding_key = λ f. length f.details }

abbrev source : SessionSource
source = record {
  game_id = 9;
  authority = SessionAuthority.staging;
  snapshot_id = none;
  current_content_hash = none;
  document = accepted_document;
  findings = [];
}

abbrev accepted_snapshot : PreparedCorrectionSnapshot
accepted_snapshot =
    prepare_correction_snapshot plain_text accepted_document (compile_document accepted_document) []

abbrev first_session : InternalSession
first_session = record {
  session_id = 1;
  game_id = 9;
  base_document_hash = accepted_snapshot.draft_document_hash;
  authority = SessionAuthority.staging;
  snapshot_id = none;
  base_current_content_hash = none;
  document = accepted_document;
  replay = compile_document accepted_document;
  prepared = accepted_snapshot;
  stored_findings = [];
  session_version = 0;
  undo_stack = [];
  redo_stack = [];
  cached_snapshot = none;
}

source-created : create plain_text 1 source ≡ answered first_session
unfolding create compile_correction_document compile_staging_game_document_v2
    validate_staging_game_document_v2_semantics
source-created = refl

served-IsConsistent_example : IsConsistent plain_text (
    serve plain_text
      (SessionCall.commands (AtomicCorrectionCommand.delete_event 103 ∷ []) true
        ∷ SessionCall.undoes
        ∷ SessionCall.redoes
        ∷ SessionCall.commits (λ c. true) false
        ∷ [])
      (shown first_session))
served-IsConsistent_example =
    served-IsConsistent plain_text 1 source first_session
      (SessionCall.commands (AtomicCorrectionCommand.delete_event 103 ∷ []) true
        ∷ SessionCall.undoes
        ∷ SessionCall.redoes
        ∷ SessionCall.commits (λ c. true) false
        ∷ [])
      source-created

-- The same session once its document has been put in the place of one without tracking candidates.
abbrev untracked_document : StagingGameDocumentV2
untracked_document = record accepted_document { tracking_candidates = [] }

abbrev replacement : HistoryEntry
replacement = record { before = untracked_document; after = accepted_document }

abbrev edited_session : InternalSession
edited_session = record first_session {
  base_document_hash = 4;
  session_version = 1;
  undo_stack = replacement ∷ [];
}

untracked_document-clean : validate_staging_game_document_v2_semantics untracked_document ≡ []
unfolding validate_staging_game_document_v2_semantics
untracked_document-clean = refl

edited_session-IsConsistent : IsConsistent plain_text edited_session
unfolding prepare_correction_snapshot
edited_session-IsConsistent = record {
  canonical = (validate_semantics-IsCanonical accepted_document).0 accepted_document-clean;
  replayed = refl;
  prepared = refl;
  back =
      (refl, (validate_semantics-IsCanonical untracked_document).0 untracked_document-clean, refl);
  on = tt;
  cache = λ c e. cc;
}

undo-redo_example :
    (t : InternalSession) × (u : InternalSession) × (undo plain_text edited_session ≡ answered t)
    × (redo plain_text t ≡ answered u)
    × (t.document ≡ untracked_document)
    × SamePlace edited_session u
    × (u.session_version ≡ 3)
undo-redo_example =
    undo-redo plain_text edited_session replacement [] edited_session-IsConsistent refl

edited_session-committed :
    commit plain_text (λ c. true) true edited_session
    ≡ answered (committed (commit_of plain_text edited_session) edited_session)
unfolding commit
edited_session-committed = ground arith

commit-IsCommitted_example :
    (c : StagingCorrectionCommit) × (true ≡ true)
    × IsCommitted plain_text true c edited_session
        (committed (commit_of plain_text edited_session) edited_session)
commit-IsCommitted_example =
    commit-IsCommitted plain_text (λ c. true) true edited_session
      (committed (commit_of plain_text edited_session) edited_session) edited_session-IsConsistent
      edited_session-committed

abbrev two_sessions : SessionStore
two_sessions = record {
  sessions = (1, edited_session) ∷ (2, record first_session { session_id = 2 }) ∷ [];
  mutexes = (1, false) ∷ (2, false) ∷ [];
  accessed_at = (1, 0) ∷ (2, 0) ∷ [];
}

-- An hour later the second session makes room, and the first one, which has work, stays.
rooms : map (λ e. e.0) (make_room 3600000 two_sessions).0.sessions ≡ 1 ∷ []
unfolding make_room
rooms = refl

make_room-keeps_work_example :
    lookup 1 (make_room 3600000 two_sessions).0.sessions ≡ some edited_session
make_room-keeps_work_example =
    make_room-keeps_work 3600000 1 two_sessions (λ e. refl, (λ e. ground arith, tt))

store_run-IsWithin_example :
    length
      (store_run plain_text
        ((3600000, StoreCall.opens 3 source)
          ∷ (3600001, StoreCall.calls 1 1 SessionCall.undoes)
          ∷ (3600002, StoreCall.deletes 1 2)
          ∷ [])
        two_sessions).sessions
    ≤ 64
store_run-IsWithin_example =
    store_run-IsWithin plain_text
      ((3600000, StoreCall.opens 3 source)
        ∷ (3600001, StoreCall.calls 1 1 SessionCall.undoes)
        ∷ (3600002, StoreCall.deletes 1 2)
        ∷ [])
      two_sessions (omega arith)

-- A finding of the collection, which stays, and one of an earlier compilation, which does not.
abbrev stored_finding : FindingLifecycle → StoredFinding
stored_finding l = record {
  producer = FindingProducer.collection;
  lifecycle = l;
  code = "source_missing";
  category = FindingCategory.source;
  severity = FindingSeverity.blocking;
  game_id = none;
  event_id = none;
  endpoint = some "relay";
  event_sequence = none;
  record_identity = none;
  details = [];
}

abbrev stored_findings : List StoredFinding
stored_findings =
    stored_finding FindingLifecycle.persistent ∷ stored_finding FindingLifecycle.recomputed ∷ []

abbrev merged : List StoredFinding
merged =
    merge_persistent_source_findings plain_text stored_findings
      (compile_document accepted_document).findings accepted_document

merge-merge_example :
    merge_persistent_source_findings plain_text merged
      (compile_document accepted_document).findings
      accepted_document
    ≡ merged
merge-merge_example =
    merge-merge plain_text stored_findings (compile_document accepted_document).findings
      accepted_document

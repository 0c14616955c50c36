-- ===== src/Server/Calls.antt =====
-- The calls of apps/server/src/correction-session-manager.ts on one session, and lists of them.
use kbo_workbench.Prelude.{Bool, List, [], ◌∷◌}
use kbo_workbench.Contracts.Document.{StagingGameDocumentV2}
use kbo_workbench.Correction.Commands.{AtomicCorrectionCommand}
use kbo_workbench.Server.Commit.{StagingCorrectionCommit, commit}
use kbo_workbench.Server.Session.{
  Answer, InternalSession, answered, command, load_original, redo, refused, shown, undo,
}
use kbo_workbench.Server.StoredFindings.{CanonicalText}

-- The calls of a client on its session.
pub data SessionCall : Type 0 where
  get undoes redoes : SessionCall
  commands : List AtomicCorrectionCommand → Bool → SessionCall
  loads_original : StagingGameDocumentV2 → SessionCall
  commits : (StagingCorrectionCommit → Bool) → Bool → SessionCall

unfoldable pub handle : CanonicalText → SessionCall → InternalSession → Answer InternalSession
unfolding undo redo command load_original commit
handle text SessionCall.get s = answered s
handle text SessionCall.undoes s = undo text s
handle text SessionCall.redoes s = redo text s
handle text (SessionCall.commands cs apply) s = command text cs apply s
handle text (SessionCall.loads_original d) s = load_original text d s
handle text (SessionCall.commits saves allow) s = commit text saves allow s

-- The session behind a call: a call that throws leaves it as it was.
abbrev pub session_after : Answer InternalSession → InternalSession → InternalSession
session_after (refused e) s = s
session_after (answered t) s = shown t

-- The session behind a list of calls.
unfoldable pub serve : CanonicalText → List SessionCall → InternalSession → InternalSession
unfolding handle
serve text [] s = s
serve text (c ∷ cs) s = serve text cs (session_after (handle text c s) s)

-- ===== src/Compiler/Outcome.antt =====
-- What `compileStagingGameDocumentV2` of packages/game-core/src/reducer.ts guarantees of the
-- ledger part of its result.
use kbo_workbench.Prelude.{Option-cases, arith, inl, inr}
use kbo_workbench.Compiler.Context.{CompileContext}
use kbo_workbench.Compiler.FinalScore.{compare_final_observed_score, last_candidate, score_options}
use kbo_workbench.Compiler.Finish.{
  SameLines-IsBalanced, compile_ledger, finish_document, finish_document-IsBalanced,
}
use kbo_workbench.Compiler.Ledger.{walk_document}
use kbo_workbench.Compiler.Walk.{
  IsSound, SameLines, compare_observed_state-SameLines, walk_document-IsSound,
}
use kbo_workbench.Contracts.Document.{StagingGameDocumentV2}
use kbo_workbench.Contracts.Event.{base_of}
use kbo_workbench.Game.State.{GameState}

compare_final_observed_score-SameLines :
    (s : GameState) (c : CompileContext) → SameLines (compare_final_observed_score s c) c
unfolding compare_final_observed_score
compare_final_observed_score-SameLines s c =
    elim (Option-cases (last_candidate c.document.events)) [
      | inl unseen ↦ ground arith
      | inr ((e, later), seen) ↦
          ground (arith, compare_observed_state-SameLines s (base_of e) score_options c)
    ]

-- For every document, compiling its ledger ends in a valid state and with a balanced box score.
-- Valid: at most four balls, three strikes and three outs; no runner on base at three outs; a
-- plate appearance only in an active half inning, its pitcher the active pitcher of the fielding
-- side. Balanced: the runs in the batters' lines and in the pitchers' lines are the score, both
-- sides agree on hits, walks, intentional walks, hit batters and strikeouts, and the plate
-- appearances and the batters faced are the completed summaries.
pub compile_ledger-IsSound : (document : StagingGameDocumentV2) → IsSound (compile_ledger document)
unfolding compile_ledger
compile_ledger-IsSound document =
    let r = walk_document document in
    let sound = walk_document-IsSound document in
    let finished = finish_document-IsBalanced r.state r.context sound.balanced in
    record {
      valid = sound.valid;
      balanced =
          SameLines-IsBalanced
            (compare_final_observed_score-SameLines r.state (finish_document r.state r.context))
            finished;
    }

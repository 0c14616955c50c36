-- ===== src/Compiler/IndependentPlay.antt =====
-- `applyIndependentRunnerPlay` of packages/game-core/src/compiler/plate-play.ts.
use kbo_workbench.Prelude.{Bool, List, [], drop, if◌then◌else◌, map, none, some, ◌++◌}
use kbo_workbench.Compiler.Context.{CompileContext, domain_finding}
use kbo_workbench.Compiler.PlatePlay.{Applied, append_rows, application_of, by_sequence}
use kbo_workbench.Compiler.PlayMovements.{
  apply_movements_atomically, explicit_movements, pitcher_in_charge,
}
use kbo_workbench.Contracts.Event.{PlayerId, RunnerAdvanceEvent, StagingRelayEvent}
use kbo_workbench.Game.Findings.{FindingCode}
use kbo_workbench.Game.State.{CompiledRunnerMovement, GameState}
use kbo_workbench.Movement.Order.{order_play_movements}

-- The end of `applyIndependentRunnerPlay`: the rows behind the first join the plate appearance
-- whether or not the movements were applied.
unfoldable pub finish_independent_play :
    List StagingRelayEvent
    → List CompiledRunnerMovement
    → Bool × GameState × CompileContext
    → Applied
finish_independent_play rows placement (applied, state, context) = record {
  application = application_of rows (if applied then placement else []);
  state = append_rows (drop 1 rows) state;
  context = context;
}

unfoldable pub independent_play_of :
    PlayerId
    → RunnerAdvanceEvent
    → List RunnerAdvanceEvent
    → List StagingRelayEvent
    → GameState
    → CompileContext
    → Applied
unfolding explicit_movements finish_independent_play
independent_play_of pitcher event runners rows state context =
    let raw = explicit_movements state.bases pitcher runners [] in
    let placement = order_play_movements state.bases raw in
    finish_independent_play rows placement
      (apply_movements_atomically state event.base placement (some 0) context raw)

unfoldable pub apply_independent_runner_play :
    GameState
    → RunnerAdvanceEvent
    → List RunnerAdvanceEvent
    → List StagingRelayEvent
    → CompileContext
    → Applied
unfolding independent_play_of
apply_independent_runner_play state event runners attached context =
    let rows = by_sequence (map StagingRelayEvent.runner_advance runners ++ attached) in
    elim (pitcher_in_charge state) [
      | none ↦ record {
        application = application_of rows [];
        state = state;
        context = domain_finding event.base FindingCode.runner_advance_without_pitcher context;
      }
      | some pitcher ↦ independent_play_of pitcher event runners rows state context
    ]

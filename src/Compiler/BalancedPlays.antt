-- ===== src/Compiler/BalancedPlays.antt =====
-- The plays keep the box score balanced, and so does every row of the ledger.
use kbo_workbench.Prelude.{
  Bool, List, Option, Option-cases, [], arith, count-append, drop, false, inl, inr, map, refl, some,
  true, ℕ, ◌++◌, ◌-◌, ◌∷◌, ◌≡◌,
}
use kbo_workbench.Collections.Dict.{Dict}
use kbo_workbench.Compiler.Appearances.{update_completed_lines-plate_appearances}
use kbo_workbench.Compiler.Balance.{
  IsBalanced, apply_batter_start-IsBalanced, apply_half_start-IsBalanced, apply_pitch-IsBalanced,
  apply_substitution-IsBalanced, commit_transition-IsBalanced, is_completed,
}
use kbo_workbench.Compiler.Books.{update_completed_lines-BothSums}
use kbo_workbench.Compiler.Context.{CompileContext, push_plate_appearance}
use kbo_workbench.Compiler.EventTransition.{
  Attached, apply_ledger_event, dispatch_event, group_or_self, runner_advance_of,
}
use kbo_workbench.Compiler.IndependentPlay.{apply_independent_runner_play, independent_play_of}
use kbo_workbench.Compiler.PlatePlay.{
  active_event_ids, append_rows, apply_plate_result_play, batting_score, by_sequence, check_count,
  complete_plate_play, completed_summary, finish_plate_play, inherit_base, plate_play_of,
  play_movements, result_batter, result_pitcher,
}
use kbo_workbench.Compiler.PlayMovements.{
  apply_movements_atomically, explicit_movements, pitcher_in_charge,
}
use kbo_workbench.Compiler.State.{append_plate_event}
use kbo_workbench.Compiler.Statistics.{update_completed_lines}
use kbo_workbench.Contracts.Event.{
  EventId, LedgerEventBase, PlateResultEvent, PlateResultPayload, PlayerId, RunnerAdvanceContext,
  RunnerAdvanceEvent, StagingRelayEvent, base_of, event_id_of,
}
use kbo_workbench.Game.State.{
  CompiledRunnerMovement, GameState, PlateAppearance, PlateAppearanceSummary, map_bases,
}
use kbo_workbench.Movement.Order.{order_play_movements}
use kbo_workbench.Movement.Transition.{transition_movements}

-- The rows of a play change neither score.
append_rows-away_score :
    (rows : List StagingRelayEvent) (s : GameState) → (append_rows rows s).away_score ≡ s.away_score
unfolding append_plate_event
append_rows-away_score [] s = refl
append_rows-away_score (e ∷ es) s = append_rows-away_score es (append_plate_event (event_id_of e) s)

append_rows-home_score :
    (rows : List StagingRelayEvent) (s : GameState) → (append_rows rows s).home_score ≡ s.home_score
unfolding append_plate_event
append_rows-home_score [] s = refl
append_rows-home_score (e ∷ es) s = append_rows-home_score es (append_plate_event (event_id_of e) s)

-- A completed result adds one appearance to the list and one turn to both sides.
completed-IsBalanced :
    (s : GameState) (c : CompileContext) (pa : PlateAppearanceSummary) (e : PlateResultPayload)
    (b p : PlayerId) (runs : ℕ)
    → pa.completed ≡ true
    → IsBalanced s c
    → IsBalanced s (update_completed_lines e b p runs (push_plate_appearance pa c))
completed-IsBalanced s c pa e b p runs h v =
    let pushed = push_plate_appearance pa c in
    ground (
      arith,
      count-append is_completed c.plate_appearances (pa ∷ []),
      update_completed_lines-BothSums e b p runs pushed,
      update_completed_lines-plate_appearances e b p runs pushed,
    )

finish_plate_play-IsBalanced :
    (pa : PlateAppearance) (e : PlateResultEvent) (rows : List StagingRelayEvent)
    (d : Dict PlayerId) (n : ℕ) (ps : List CompiledRunnerMovement)
    (t : Bool × GameState × CompileContext)
    → IsBalanced t.1 t.2
    → let a = finish_plate_play pa e rows d n ps t in IsBalanced a.state a.context
unfolding finish_plate_play
finish_plate_play-IsBalanced pa e rows d n ps (false, s, c) v = v
finish_plate_play-IsBalanced pa e rows d n ps (true, s, c) v =
    let inheriting = record s { bases = map_bases (inherit_base d) s.bases } in
    let summary = completed_summary s pa e (active_event_ids (append_rows rows inheriting)) in
    let balanced =
      completed-IsBalanced s c summary e.payload (result_batter e.payload.result pa)
        (result_pitcher e.payload.result pa) (batting_score s - n) refl v in
    ground (
      arith,
      balanced,
      append_rows-away_score rows inheriting,
      append_rows-home_score rows inheriting,
    )

apply_movements-IsBalanced :
    (s : GameState) (b : LedgerEventBase) (ps : List CompiledRunnerMovement) (direct : Option ℕ)
    (c : CompileContext) (ms : List CompiledRunnerMovement)
    → IsBalanced s c
    → let t = apply_movements_atomically s b ps direct c ms in IsBalanced t.1 t.2
unfolding apply_movements_atomically
apply_movements-IsBalanced s b ps direct c ms v =
    commit_transition-IsBalanced s b c
      (transition_movements (record { outs = s.outs; bases = s.bases }) ps direct ms) v

complete_plate_play-IsBalanced :
    (pa : PlateAppearance) (e : PlateResultEvent) (linked : List RunnerAdvanceEvent)
    (rows : List StagingRelayEvent) (s : GameState) (c : CompileContext)
    → IsBalanced s c
    → let a = complete_plate_play pa e linked rows s c in IsBalanced a.state a.context
unfolding complete_plate_play
complete_plate_play-IsBalanced pa e linked rows s c v =
    let (chronological, inherited) = play_movements pa e linked s in
    let placement = order_play_movements s.bases chronological in
    finish_plate_play-IsBalanced pa e rows inherited (batting_score s) placement
      (apply_movements_atomically s e.base placement e.payload.outs_recorded c chronological)
      (apply_movements-IsBalanced s e.base placement e.payload.outs_recorded c chronological v)

check_count-IsBalanced :
    (e : PlateResultEvent) (s : GameState) (c : CompileContext)
    → IsBalanced s c
    → IsBalanced s (check_count e s c)
unfolding check_count
check_count-IsBalanced e s c v = ground arith

plate_play_of-IsBalanced :
    (pa : PlateAppearance) (e : PlateResultEvent) (linked : List RunnerAdvanceEvent)
    (rows : List StagingRelayEvent) (s : GameState) (c : CompileContext)
    → IsBalanced s c
    → let a = plate_play_of pa e linked rows s c in IsBalanced a.state a.context
unfolding plate_play_of
plate_play_of-IsBalanced pa e linked rows s c v = ground (
  arith,
  check_count-IsBalanced e s c v,
  complete_plate_play-IsBalanced pa e linked rows s (check_count e s c),
)

apply_plate_result_play-IsBalanced :
    (s : GameState) (e : PlateResultEvent) (linked : List RunnerAdvanceEvent)
    (attached : List StagingRelayEvent) (c : CompileContext)
    → IsBalanced s c
    → let a = apply_plate_result_play s e linked attached c in IsBalanced a.state a.context
unfolding apply_plate_result_play
apply_plate_result_play-IsBalanced s e linked attached c v =
    let rows = by_sequence (
      StagingRelayEvent.plate_result e
      ∷ (map StagingRelayEvent.runner_advance linked ++ attached)) in
    elim (Option-cases s.active_plate_appearance) [
      | inl idle ↦ ground arith
      | inr (pa, active) ↦ ground (arith, plate_play_of-IsBalanced pa e linked rows s c v)
    ]

independent_play_of-IsBalanced :
    (p : PlayerId) (e : RunnerAdvanceEvent) (runners : List RunnerAdvanceEvent)
    (rows : List StagingRelayEvent) (s : GameState) (c : CompileContext)
    → IsBalanced s c
    → let a = independent_play_of p e runners rows s c in IsBalanced a.state a.context
unfolding independent_play_of
independent_play_of-IsBalanced p e runners rows s c v =
    let raw = explicit_movements s.bases p runners [] in
    let placement = order_play_movements s.bases raw in
    let t = apply_movements_atomically s e.base placement (some 0) c raw in
    let balanced = apply_movements-IsBalanced s e.base placement (some 0) c raw v in
    ground (
      arith,
      balanced,
      append_rows-away_score (drop 1 rows) t.1,
      append_rows-home_score (drop 1 rows) t.1,
    )

apply_independent_runner_play-IsBalanced :
    (s : GameState) (e : RunnerAdvanceEvent) (runners : List RunnerAdvanceEvent)
    (attached : List StagingRelayEvent) (c : CompileContext)
    → IsBalanced s c
    → let a = apply_independent_runner_play s e runners attached c in IsBalanced a.state a.context
unfolding apply_independent_runner_play
apply_independent_runner_play-IsBalanced s e runners attached c v =
    let rows = by_sequence (map StagingRelayEvent.runner_advance runners ++ attached) in
    elim (Option-cases (pitcher_in_charge s)) [
      | inl idle ↦ ground arith
      | inr (p, active) ↦ ground (arith, independent_play_of-IsBalanced p e runners rows s c v)
    ]

runner_advance_of-IsBalanced :
    (k : RunnerAdvanceContext) (s : GameState) (e : RunnerAdvanceEvent) (a : Attached)
    (c : CompileContext)
    → IsBalanced s c
    → let r = runner_advance_of k s e a c in IsBalanced r.state r.context
unfolding runner_advance_of
runner_advance_of-IsBalanced (RunnerAdvanceContext.plate_result t) s e a c v = v
runner_advance_of-IsBalanced (RunnerAdvanceContext.independent r) s e a c v =
    apply_independent_runner_play-IsBalanced s e (group_or_self a.independent_runners e)
      a.independent_non_state c v

dispatch_event-IsBalanced :
    (s : GameState) (e : StagingRelayEvent) (a : Attached) (c : CompileContext)
    → IsBalanced s c
    → let r = dispatch_event s e a c in IsBalanced r.state r.context
unfolding dispatch_event
dispatch_event-IsBalanced s (StagingRelayEvent.half_inning_start b) a c v =
    apply_half_start-IsBalanced s b c v
dispatch_event-IsBalanced s (StagingRelayEvent.batter_start e) a c v =
    apply_batter_start-IsBalanced s e c v
dispatch_event-IsBalanced s (StagingRelayEvent.pitch e) a c v = apply_pitch-IsBalanced s e c v
dispatch_event-IsBalanced s (StagingRelayEvent.plate_result e) a c v =
    apply_plate_result_play-IsBalanced s e a.linked_runners a.attached_non_state c v
dispatch_event-IsBalanced s (StagingRelayEvent.runner_advance e) a c v =
    runner_advance_of-IsBalanced e.payload.context s e a c v
dispatch_event-IsBalanced s (StagingRelayEvent.substitution e) a c v =
    apply_substitution-IsBalanced s e c v
dispatch_event-IsBalanced s (StagingRelayEvent.review e) a c v = v
dispatch_event-IsBalanced s (StagingRelayEvent.administrative e) a c v = v
dispatch_event-IsBalanced s (StagingRelayEvent.unresolved e) a c v = ground arith

append_plate_event-IsBalanced :
    (e : EventId) (s : GameState) (c : CompileContext)
    → IsBalanced s c
    → IsBalanced (append_plate_event e s) c
unfolding append_plate_event
append_plate_event-IsBalanced e s c v = ground arith

-- Every row of the ledger keeps the box score balanced: the runs of the batters and of the
-- pitchers are the score, the two sides agree on hits, walks, hit batters and strikeouts, and the
-- turns of either side are the completed plate appearances.
pub apply_ledger_event-IsBalanced :
    (s : GameState) (e : StagingRelayEvent) (a : Attached) (c : CompileContext)
    → IsBalanced s c
    → let r = apply_ledger_event s e a c in IsBalanced r.state r.context
unfolding apply_ledger_event
apply_ledger_event-IsBalanced s e a c v =
    let id = (base_of e).identity.event_id in
    ground (
      arith,
      dispatch_event-IsBalanced (append_plate_event id s) e a c,
      append_plate_event-IsBalanced id s c v,
    )

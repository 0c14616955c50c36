-- ===== src/Compiler/ValidPlays.antt =====
-- The plays keep the invariant of the game state, and so does every row of the ledger.
use kbo_workbench.Prelude.{
  Bool, List, Option, Option-cases, [], arith, drop, false, inl, inr, map, refl, some, true, ℕ,
  ◌++◌, ◌∷◌, ◌≡◌, ◌≤◌,
}
use kbo_workbench.Collections.Dict.{Dict}
use kbo_workbench.Compiler.Context.{CompileContext}
use kbo_workbench.Compiler.EventTransition.{
  Attached, apply_ledger_event, dispatch_event, group_or_self, needs_half, runner_advance_of,
}
use kbo_workbench.Compiler.IndependentPlay.{
  apply_independent_runner_play, finish_independent_play, independent_play_of,
}
use kbo_workbench.Compiler.PlatePlay.{
  append_rows, apply_plate_result_play, batting_score, by_sequence, check_count,
  close_plate_appearance, complete_plate_play, finish_plate_play, inherit_base, plate_play_of,
  play_movements,
}
use kbo_workbench.Compiler.PlayMovements.{
  apply_movements_atomically, commit_transition, explicit_movements, pitcher_in_charge,
}
use kbo_workbench.Compiler.State.{append_plate_event}
use kbo_workbench.Compiler.Validity.{
  IsValid, append_plate_event-IsValid, apply_batter_start-IsValid, apply_half_start-IsValid,
  apply_pitch-IsValid, apply_substitution-IsValid,
}
use kbo_workbench.Contracts.Event.{
  EventId, LedgerEventBase, PlateResultEvent, PlayerId, RunnerAdvanceContext, RunnerAdvanceEvent,
  StagingRelayEvent, base_of, event_id_of,
}
use kbo_workbench.Game.State.{
  CompiledRunnerMovement, GameState, PlateAppearance, map_bases, no_bases,
}
use kbo_workbench.Movement.Order.{order_play_movements}
use kbo_workbench.Movement.Placement.{MovementSuccess, Result, err, ok}
use kbo_workbench.Movement.Transition.{transition_movements}
use kbo_workbench.Movement.TransitionLaws.{transition_outs}

commit_transition-IsValid :
    (s : GameState) (b : LedgerEventBase) (c : CompileContext) (t : Result MovementSuccess)
    → ((r : MovementSuccess) → t ≡ ok r → (r.outs ≤ 3) × (r.outs ≡ 3 → r.bases ≡ no_bases))
    → IsValid s
    → IsValid (commit_transition s b c t).1
unfolding commit_transition
commit_transition-IsValid s b c (err e) h v = v
commit_transition-IsValid s b c (ok r) h v = ground (arith, h r refl)

transition_within :
    (s : GameState) (ps : List CompiledRunnerMovement) (direct : Option ℕ)
    (ms : List CompiledRunnerMovement)
    → IsValid s
    → (r : MovementSuccess)
    → transition_movements (record { outs = s.outs; bases = s.bases }) ps direct ms ≡ ok r
    → (r.outs ≤ 3) × (r.outs ≡ 3 → r.bases ≡ no_bases)
transition_within s ps direct ms v r e =
    let (le, grows, clears) =
      transition_outs (record { outs = s.outs; bases = s.bases }) ps direct ms v.outs_le e in
    (le, clears)

apply_movements-IsValid :
    (s : GameState) (b : LedgerEventBase) (ps : List CompiledRunnerMovement) (direct : Option ℕ)
    (c : CompileContext) (ms : List CompiledRunnerMovement)
    → IsValid s
    → IsValid (apply_movements_atomically s b ps direct c ms).1
unfolding apply_movements_atomically
apply_movements-IsValid s b ps direct c ms v =
    commit_transition-IsValid s b c
      (transition_movements (record { outs = s.outs; bases = s.bases }) ps direct ms)
      (transition_within s ps direct ms v) v

append_rows-IsValid :
    (rows : List StagingRelayEvent) (s : GameState) → IsValid s → IsValid (append_rows rows s)
append_rows-IsValid [] s v = v
append_rows-IsValid (e ∷ es) s v =
    append_rows-IsValid es (append_plate_event (event_id_of e) s)
      (append_plate_event-IsValid (event_id_of e) v)

inheriting-IsValid :
    (d : Dict PlayerId) (s : GameState)
    → IsValid s
    → IsValid (record s { bases = map_bases (inherit_base d) s.bases })
inheriting-IsValid d s v = ground arith

close_plate_appearance-IsValid : (s : GameState) → IsValid s → IsValid (close_plate_appearance s)
close_plate_appearance-IsValid s v = ground arith

finish_plate_play-IsValid :
    (pa : PlateAppearance) (e : PlateResultEvent) (rows : List StagingRelayEvent)
    (d : Dict PlayerId) (n : ℕ) (ps : List CompiledRunnerMovement)
    (t : Bool × GameState × CompileContext)
    → IsValid t.1
    → IsValid (finish_plate_play pa e rows d n ps t).state
unfolding finish_plate_play
finish_plate_play-IsValid pa e rows d n ps (true, s, c) v =
    close_plate_appearance-IsValid _ (append_rows-IsValid rows _ (inheriting-IsValid d s v))
finish_plate_play-IsValid pa e rows d n ps (false, s, c) v = v

complete_plate_play-IsValid :
    (pa : PlateAppearance) (e : PlateResultEvent) (linked : List RunnerAdvanceEvent)
    (rows : List StagingRelayEvent) (s : GameState) (c : CompileContext)
    → IsValid s
    → IsValid (complete_plate_play pa e linked rows s c).state
unfolding complete_plate_play
complete_plate_play-IsValid pa e linked rows s c v =
    let (chronological, inherited) = play_movements pa e linked s in
    let placement = order_play_movements s.bases chronological in
    finish_plate_play-IsValid pa e rows inherited (batting_score s) placement _
      (apply_movements-IsValid s e.base placement e.payload.outs_recorded c chronological v)

plate_play_of-IsValid :
    (pa : PlateAppearance) (e : PlateResultEvent) (linked : List RunnerAdvanceEvent)
    (rows : List StagingRelayEvent) (s : GameState) (c : CompileContext)
    → IsValid s
    → IsValid (plate_play_of pa e linked rows s c).state
unfolding plate_play_of
plate_play_of-IsValid pa e linked rows s c v =
    ground (arith, complete_plate_play-IsValid pa e linked rows s (check_count e s c) v)

apply_plate_result_play-IsValid :
    (s : GameState) (e : PlateResultEvent) (linked : List RunnerAdvanceEvent)
    (attached : List StagingRelayEvent) (c : CompileContext)
    → IsValid s
    → IsValid (apply_plate_result_play s e linked attached c).state
unfolding apply_plate_result_play
apply_plate_result_play-IsValid s e linked attached c v =
    elim (Option-cases s.active_plate_appearance) [
      | inl idle ↦ rw (idle, apply_plate_result_play) v
      | inr (pa, active) ↦
          rw (active, apply_plate_result_play) (plate_play_of-IsValid pa e linked _ s c v)
    ]

finish_independent_play-IsValid :
    (rows : List StagingRelayEvent) (ps : List CompiledRunnerMovement)
    (t : Bool × GameState × CompileContext)
    → IsValid t.1
    → IsValid (finish_independent_play rows ps t).state
unfolding finish_independent_play
finish_independent_play-IsValid rows ps (b, s, c) v = append_rows-IsValid (drop 1 rows) s v

independent_play_of-IsValid :
    (p : PlayerId) (e : RunnerAdvanceEvent) (runners : List RunnerAdvanceEvent)
    (rows : List StagingRelayEvent) (s : GameState) (c : CompileContext)
    → IsValid s
    → IsValid (independent_play_of p e runners rows s c).state
unfolding independent_play_of
independent_play_of-IsValid p e runners rows s c v =
    let raw = explicit_movements s.bases p runners [] in
    let placement = order_play_movements s.bases raw in
    finish_independent_play-IsValid rows placement
      (apply_movements_atomically s e.base placement (some 0) c raw)
      (apply_movements-IsValid s e.base placement (some 0) c raw v)

apply_independent_runner_play-IsValid :
    (s : GameState) (e : RunnerAdvanceEvent) (runners : List RunnerAdvanceEvent)
    (attached : List StagingRelayEvent) (c : CompileContext)
    → IsValid s
    → IsValid (apply_independent_runner_play s e runners attached c).state
unfolding apply_independent_runner_play
apply_independent_runner_play-IsValid s e runners attached c v =
    let rows = by_sequence (map StagingRelayEvent.runner_advance runners ++ attached) in
    elim (Option-cases (pitcher_in_charge s)) [
      | inl idle ↦ rw (idle, apply_independent_runner_play) v
      | inr (p, active) ↦
          rw (active, apply_independent_runner_play)
            (independent_play_of-IsValid p e runners rows s c v)
    ]

runner_advance_of-IsValid :
    (k : RunnerAdvanceContext) (s : GameState) (e : RunnerAdvanceEvent) (a : Attached)
    (c : CompileContext)
    → IsValid s
    → IsValid (runner_advance_of k s e a c).state
unfolding runner_advance_of
runner_advance_of-IsValid (RunnerAdvanceContext.plate_result t) s e a c v = v
runner_advance_of-IsValid (RunnerAdvanceContext.independent r) s e a c v =
    apply_independent_runner_play-IsValid s e (group_or_self a.independent_runners e)
      a.independent_non_state c v

dispatch_event-IsValid :
    (s : GameState) (e : StagingRelayEvent) (a : Attached) (c : CompileContext)
    → (needs_half e ≡ true → s.half_active ≡ true)
    → IsValid s
    → IsValid (dispatch_event s e a c).state
unfolding dispatch_event
dispatch_event-IsValid s (StagingRelayEvent.half_inning_start b) a c h v =
    apply_half_start-IsValid s b c v
dispatch_event-IsValid s (StagingRelayEvent.batter_start e) a c h v =
    apply_batter_start-IsValid s e c (h refl) v
dispatch_event-IsValid s (StagingRelayEvent.pitch e) a c h v = apply_pitch-IsValid s e c v
dispatch_event-IsValid s (StagingRelayEvent.plate_result e) a c h v =
    apply_plate_result_play-IsValid s e a.linked_runners a.attached_non_state c v
dispatch_event-IsValid s (StagingRelayEvent.runner_advance e) a c h v =
    runner_advance_of-IsValid e.payload.context s e a c v
dispatch_event-IsValid s (StagingRelayEvent.substitution e) a c h v =
    apply_substitution-IsValid s e c v
dispatch_event-IsValid s (StagingRelayEvent.review e) a c h v = v
dispatch_event-IsValid s (StagingRelayEvent.administrative e) a c h v = v
dispatch_event-IsValid s (StagingRelayEvent.unresolved e) a c h v = v

append_plate_event-half :
    (e : EventId) (s : GameState) → (append_plate_event e s).half_active ≡ s.half_active
unfolding append_plate_event
append_plate_event-half e s = refl

-- Every row of the ledger, whatever rows are attached to it, keeps the state valid: the count and
-- the outs stay in range, a third out leaves the bases empty, a plate appearance stands only in
-- an active half inning, and its pitcher is the active pitcher of the fielding side.
pub apply_ledger_event-IsValid :
    (s : GameState) (e : StagingRelayEvent) (a : Attached) (c : CompileContext)
    → IsValid s
    → IsValid (apply_ledger_event s e a c).state
unfolding apply_ledger_event
apply_ledger_event-IsValid s e a c v =
    let id = (base_of e).identity.event_id in
    ground (
      arith,
      append_plate_event-half id s,
      dispatch_event-IsValid (append_plate_event id s) e a c,
      append_plate_event-IsValid id v,
    )

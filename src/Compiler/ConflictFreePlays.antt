-- ===== src/Compiler/ConflictFreePlays.antt =====
-- A play, and with it every row of the ledger, reports no conflict between tracking candidates.
use kbo_workbench.Prelude.{
  Bool, List, Option, Option-cases, [], arith, false, inl, inr, map, none, refl, some, true, ℕ,
  ◌++◌, ◌∷◌, ◌≡◌,
}
use kbo_workbench.Collections.Dict.{Dict}
use kbo_workbench.Compiler.ConflictFree.{
  IsConflictFree, apply_batter_start-IsConflictFree, apply_half_start-IsConflictFree,
  apply_pitch-IsConflictFree, apply_substitution-IsConflictFree, conflict_free-push,
}
use kbo_workbench.Compiler.Context.{CompileContext}
use kbo_workbench.Compiler.EventTransition.{
  Attached, apply_ledger_event, dispatch_event, group_or_self, runner_advance_of,
}
use kbo_workbench.Compiler.IndependentPlay.{
  apply_independent_runner_play, finish_independent_play, independent_play_of,
}
use kbo_workbench.Compiler.PlatePlay.{
  apply_plate_result_play, batting_score, by_sequence, check_count, complete_plate_play,
  finish_plate_play, plate_play_of, play_movements,
}
use kbo_workbench.Compiler.PlayMovements.{
  apply_movements_atomically, commit_transition, count_outs, count_run, count_runs,
  explicit_movements, pitcher_in_charge,
}
use kbo_workbench.Compiler.State.{append_plate_event}
use kbo_workbench.Compiler.Statistics.{batter_line, pitcher_line, update_completed_lines}
use kbo_workbench.Contracts.Event.{
  LedgerEventBase, PlateResultEvent, PlateResultPayload, PlayerId, RunnerAdvanceContext,
  RunnerAdvanceEvent, StagingRelayEvent, base_of,
}
use kbo_workbench.Game.Findings.{is_conflict_code}
use kbo_workbench.Game.State.{CompiledRunnerMovement, GameState, PlateAppearance}
use kbo_workbench.Movement.Failures.{transition_movements-plain}
use kbo_workbench.Movement.Order.{order_play_movements}
use kbo_workbench.Movement.Placement.{
  MovementFailure, MovementState, MovementSuccess, Result, err, ok,
}
use kbo_workbench.Movement.Transition.{transition_movements}

count_runs-findings :
    (ms : List CompiledRunnerMovement) (c : CompileContext)
    → (count_runs ms c).findings ≡ c.findings
unfolding count_runs batter_line pitcher_line
count_runs-findings [] c = refl
count_runs-findings (m ∷ ms) c = count_runs-findings ms (count_run m c)

count_outs-findings :
    (o : Option PlayerId) (n : ℕ) (c : CompileContext) → (count_outs o n c).findings ≡ c.findings
unfolding pitcher_line
count_outs-findings none n c = refl
count_outs-findings (some p) n c = refl

update_completed_lines-findings :
    (e : PlateResultPayload) (b p : PlayerId) (n : ℕ) (c : CompileContext)
    → (update_completed_lines e b p n c).findings ≡ c.findings
unfolding update_completed_lines
update_completed_lines-findings e b p n c = ground arith

commit_transition-IsConflictFree :
    (s : GameState) (b : LedgerEventBase) (c : CompileContext) (t : Result MovementSuccess)
    → ((e : MovementFailure) → t ≡ err e → is_conflict_code e.code ≡ false)
    → IsConflictFree c
    → IsConflictFree (commit_transition s b c t).2
unfolding commit_transition
commit_transition-IsConflictFree s b c (err e) plain h =
    let code = plain e refl in grind (arith, conflict_free-push)
commit_transition-IsConflictFree s b c (ok r) plain h =
    rw
      (
        count_runs-findings r.scored (count_outs (pitcher_in_charge s) r.outs_added c),
        count_outs-findings (pitcher_in_charge s) r.outs_added c,
      )
      h

apply_movements-IsConflictFree :
    (s : GameState) (b : LedgerEventBase) (ps : List CompiledRunnerMovement) (direct : Option ℕ)
    (c : CompileContext) (ms : List CompiledRunnerMovement)
    → IsConflictFree c
    → IsConflictFree (apply_movements_atomically s b ps direct c ms).2
unfolding apply_movements_atomically
apply_movements-IsConflictFree s b ps direct c ms h =
    let bases : MovementState = record { outs = s.outs; bases = s.bases } in
    commit_transition-IsConflictFree s b c (transition_movements bases ps direct ms)
      (λ e failed. transition_movements-plain bases ps direct ms {e = e} failed) h

finish_plate_play-IsConflictFree :
    (pa : PlateAppearance) (e : PlateResultEvent) (rows : List StagingRelayEvent)
    (d : Dict PlayerId) (n : ℕ) (ps : List CompiledRunnerMovement)
    (t : Bool × GameState × CompileContext)
    → IsConflictFree t.2
    → IsConflictFree (finish_plate_play pa e rows d n ps t).context
unfolding finish_plate_play
finish_plate_play-IsConflictFree pa e rows d n ps (false, s, c) h = h
finish_plate_play-IsConflictFree pa e rows d n ps (true, s, c) h =
    rw (update_completed_lines-findings e.payload _ _ _ _) h

complete_plate_play-IsConflictFree :
    (pa : PlateAppearance) (e : PlateResultEvent) (linked : List RunnerAdvanceEvent)
    (rows : List StagingRelayEvent) (s : GameState) (c : CompileContext)
    → IsConflictFree c
    → IsConflictFree (complete_plate_play pa e linked rows s c).context
unfolding complete_plate_play
complete_plate_play-IsConflictFree pa e linked rows s c h =
    let (chronological, inherited) = play_movements pa e linked s in
    let placement = order_play_movements s.bases chronological in
    finish_plate_play-IsConflictFree pa e rows inherited (batting_score s) placement
      (apply_movements_atomically s e.base placement e.payload.outs_recorded c chronological)
      (apply_movements-IsConflictFree s e.base placement e.payload.outs_recorded c chronological h)

check_count-IsConflictFree :
    (e : PlateResultEvent) (s : GameState) (c : CompileContext)
    → IsConflictFree c
    → IsConflictFree (check_count e s c)
unfolding check_count
check_count-IsConflictFree e s c h = grind (arith, conflict_free-push)

plate_play_of-IsConflictFree :
    (pa : PlateAppearance) (e : PlateResultEvent) (linked : List RunnerAdvanceEvent)
    (rows : List StagingRelayEvent) (s : GameState) (c : CompileContext)
    → IsConflictFree c
    → IsConflictFree (plate_play_of pa e linked rows s c).context
unfolding plate_play_of
plate_play_of-IsConflictFree pa e linked rows s c h =
    let checked = check_count-IsConflictFree e s c h in
    let completed =
      complete_plate_play-IsConflictFree pa e linked rows s (check_count e s c) checked in
    grind (arith, conflict_free-push)

apply_plate_result_play-IsConflictFree :
    (s : GameState) (e : PlateResultEvent) (linked : List RunnerAdvanceEvent)
    (attached : List StagingRelayEvent) (c : CompileContext)
    → IsConflictFree c
    → IsConflictFree (apply_plate_result_play s e linked attached c).context
unfolding apply_plate_result_play
apply_plate_result_play-IsConflictFree s e linked attached c h =
    let rows = by_sequence (
      StagingRelayEvent.plate_result e
      ∷ (map StagingRelayEvent.runner_advance linked ++ attached)) in
    elim (Option-cases s.active_plate_appearance) [
      | inl idle ↦ rw idle (grind (arith, conflict_free-push))
      | inr (pa, active) ↦ ground (arith, plate_play_of-IsConflictFree pa e linked rows s c h)
    ]

independent_play_of-IsConflictFree :
    (p : PlayerId) (e : RunnerAdvanceEvent) (runners : List RunnerAdvanceEvent)
    (rows : List StagingRelayEvent) (s : GameState) (c : CompileContext)
    → IsConflictFree c
    → IsConflictFree (independent_play_of p e runners rows s c).context
unfolding independent_play_of finish_independent_play
independent_play_of-IsConflictFree p e runners rows s c h =
    let raw = explicit_movements s.bases p runners [] in
    apply_movements-IsConflictFree s e.base (order_play_movements s.bases raw) (some 0) c raw h

apply_independent_runner_play-IsConflictFree :
    (s : GameState) (e : RunnerAdvanceEvent) (runners : List RunnerAdvanceEvent)
    (attached : List StagingRelayEvent) (c : CompileContext)
    → IsConflictFree c
    → IsConflictFree (apply_independent_runner_play s e runners attached c).context
unfolding apply_independent_runner_play
apply_independent_runner_play-IsConflictFree s e runners attached c h =
    let rows = by_sequence (map StagingRelayEvent.runner_advance runners ++ attached) in
    elim (Option-cases (pitcher_in_charge s)) [
      | inl nobody ↦ rw (nobody, apply_independent_runner_play) (grind (arith, conflict_free-push))
      | inr (p, charged) ↦
          rw (charged, apply_independent_runner_play)
            (independent_play_of-IsConflictFree p e runners rows s c h)
    ]

runner_advance_of-IsConflictFree :
    (k : RunnerAdvanceContext) (s : GameState) (e : RunnerAdvanceEvent) (a : Attached)
    (c : CompileContext)
    → IsConflictFree c
    → IsConflictFree (runner_advance_of k s e a c).context
unfolding runner_advance_of
runner_advance_of-IsConflictFree (RunnerAdvanceContext.plate_result t) s e a c h = h
runner_advance_of-IsConflictFree (RunnerAdvanceContext.independent r) s e a c h =
    apply_independent_runner_play-IsConflictFree s e (group_or_self a.independent_runners e)
      a.independent_non_state c h

dispatch_event-IsConflictFree :
    (s : GameState) (e : StagingRelayEvent) (a : Attached) (c : CompileContext)
    → IsConflictFree c
    → IsConflictFree (dispatch_event s e a c).context
unfolding dispatch_event
dispatch_event-IsConflictFree s (StagingRelayEvent.half_inning_start b) a c h =
    apply_half_start-IsConflictFree s b c h
dispatch_event-IsConflictFree s (StagingRelayEvent.batter_start e) a c h =
    apply_batter_start-IsConflictFree s e c h
dispatch_event-IsConflictFree s (StagingRelayEvent.pitch e) a c h =
    apply_pitch-IsConflictFree s e c h
dispatch_event-IsConflictFree s (StagingRelayEvent.plate_result e) a c h =
    apply_plate_result_play-IsConflictFree s e a.linked_runners a.attached_non_state c h
dispatch_event-IsConflictFree s (StagingRelayEvent.runner_advance e) a c h =
    runner_advance_of-IsConflictFree e.payload.context s e a c h
dispatch_event-IsConflictFree s (StagingRelayEvent.substitution e) a c h =
    apply_substitution-IsConflictFree s e c h
dispatch_event-IsConflictFree s (StagingRelayEvent.review e) a c h = h
dispatch_event-IsConflictFree s (StagingRelayEvent.administrative e) a c h = h
dispatch_event-IsConflictFree s (StagingRelayEvent.unresolved e) a c h =
    grind (arith, conflict_free-push)

pub apply_ledger_event-IsConflictFree :
    (s : GameState) (e : StagingRelayEvent) (a : Attached) (c : CompileContext)
    → IsConflictFree c
    → IsConflictFree (apply_ledger_event s e a c).context
unfolding apply_ledger_event
apply_ledger_event-IsConflictFree s e a c h =
    let dispatched =
      dispatch_event-IsConflictFree (append_plate_event (base_of e).identity.event_id s) e a c h in
    grind (arith, conflict_free-push)

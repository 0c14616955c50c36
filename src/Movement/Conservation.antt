-- ===== src/Movement/Conservation.antt =====
-- No runner is lost and none appears from nowhere: the conservation of runners over a play.
use kbo_workbench.Prelude.{
  All, List, Option, [], any, ap, arith, count, false, length, refl, ℕ, ◌+◌, ◌<◌, ◌==◌, ◌∷◌, ◌≡◌,
}
use kbo_workbench.Collections.Dict.{Dict}
use kbo_workbench.Game.State.{CompiledRunnerMovement}
use kbo_workbench.Movement.Occupancy.{
  DistinctRunners, Untouched, check_origins-starts_there, from_plate, leaves_play, occupied,
  occupied-clear_origins, occupied-place_finals, stays_on_base,
}
use kbo_workbench.Movement.Placement.{
  MovementState, MovementSuccess, clear_origins, current_bases, final_movements, ok, outs_added_by,
  place_finals, placement_third_out, reaches_third,
}
use kbo_workbench.Movement.Transition.{transition_movements}
use kbo_workbench.Movement.TransitionLaws.{transition-Settled}

final_movements-distinct :
    (ms : List CompiledRunnerMovement) → DistinctRunners ms → final_movements ms ≡ ms
unfolding final_movements
final_movements-distinct [] d = refl
final_movements-distinct (m ∷ ms) d =
    rw (no_later ms d.0) (ap (λ xs. m ∷ xs) (final_movements-distinct ms d.1))
  where
    no_later :
        (ns : List CompiledRunnerMovement)
        → All (λ n. (n.runner_id == m.runner_id) ≡ false) ns
        → any (λ n. n.runner_id == m.runner_id) ns ≡ false
    no_later [] h = refl
    no_later (n ∷ ns) h = rw h.0 (no_later ns h.1)

Untouched-self : (d : Dict ℕ) (ms : List CompiledRunnerMovement) → Untouched d d ms
Untouched-self d [] = tt
Untouched-self d (m ∷ ms) = (refl, Untouched-self d ms)

count-leaves_play :
    (ms : List CompiledRunnerMovement) → count stays_on_base ms + count leaves_play ms ≡ length ms
count-leaves_play [] = refl
count-leaves_play (m ∷ ms) = ground (arith, count-leaves_play ms)

-- When each runner moves at most once and the play does not end the half, the runners on base
-- before the play and the batters who come from the plate are, in number, the runners on base
-- behind it and those who are out or at home: the play loses no runner and invents none.
pub transition_conserves_runners :
    (s : MovementState) (ps : List CompiledRunnerMovement) (direct : Option ℕ)
    (ms : List CompiledRunnerMovement) {r : MovementSuccess}
    → DistinctRunners ps
    → r.outs < 3
    → transition_movements s ps direct ms ≡ ok r
    → occupied r.bases + count leaves_play ps ≡ occupied s.bases + count from_plate ps
unfolding placement_third_out
transition_conserves_runners s ps direct ms {r} d lt h =
    let (placed, checked, located, settled) = transition-Settled s ps direct ms h in
    let start =
      check_origins-starts_there s.bases (current_bases s.bases) [] ps d
        (Untouched-self (current_bases s.bases) ps) checked in
    let open_half : reaches_third s.outs (outs_added_by direct ms) ≡ false =
      ground (arith, settled) in
    let kept : r.bases ≡ placed = ground (arith, settled) in
    let placing : place_finals false ps (clear_origins ps s.bases) ≡ ok placed =
      rw (open_half, final_movements-distinct ps d) at located in
    rw kept (
      omega (
        arith,
        count-leaves_play ps,
        occupied-clear_origins ps s.bases d start,
        occupied-place_finals ps (clear_origins ps s.bases) placing,
      ))

-- ===== src/Tests/Movement.antt =====
-- Witnesses for the order and the transition of the runners' movements.
use kbo_workbench.Prelude.{
  List, [], arith, count, filter, none, refl, some, ◌+◌, ◌==◌, ◌∷◌, ◌≡◌, ◌≤◌,
}
use kbo_workbench.Contracts.Event.{RunnerOutKind, RunnerOutcome}
use kbo_workbench.Game.State.{Bases, CompiledRunnerMovement, no_bases}
use kbo_workbench.Movement.Conservation.{transition_conserves_runners}
use kbo_workbench.Movement.Occupancy.{DistinctRunners, from_plate, leaves_play, occupied}
use kbo_workbench.Movement.Order.{order_play_movements}
use kbo_workbench.Movement.OrderLaws.{count-order_play_movements}
use kbo_workbench.Movement.OrderRunner.{order_play_movements-runner}
use kbo_workbench.Movement.Placement.{
  MovementSuccess, batter_outs, index_of_third_out, movement_outs, natural_third_out, ok,
  result_outs,
}
use kbo_workbench.Movement.Runs.{
  VoidsRuns, crosses_home, transition_force_cancels_runs, transition_runs_before_third_out,
}
use kbo_workbench.Movement.Transition.{
  check_fourth_out, check_outs, fourth_out_indexes, scored_runs, transition_movements,
}
use kbo_workbench.Movement.TransitionLaws.{transition_outs, transition_outs_exact}
use kbo_workbench.Rules.Results.{third_out_cancels_every_run}
use kbo_workbench.Tests.Samples.{movement, on_base}

abbrev two_on : Bases
two_on = record { first_base = on_base 1; second_base = on_base 2; third_base = none }

-- A single with runners on first and second: the lead runner scores, the others advance.
abbrev single_play : List CompiledRunnerMovement
single_play =
    movement 3 0 1 RunnerOutcome.safe none
    ∷ movement 1 1 2 RunnerOutcome.safe none
    ∷ movement 2 2 4 RunnerOutcome.scored none
    ∷ []

abbrev single_result : MovementSuccess
single_result = record {
  bases = record { first_base = on_base 3; second_base = on_base 1; third_base = none };
  outs = 1;
  outs_added = 0;
  scored = movement 2 2 4 RunnerOutcome.scored none ∷ [];
}

-- With two outs, the runner on second crosses home and the runner on first is forced out.
abbrev forced_play : List CompiledRunnerMovement
forced_play =
    movement 2 2 4 RunnerOutcome.scored none
    ∷ movement 1 1 2 RunnerOutcome.out (some RunnerOutKind.force)
    ∷ movement 3 0 1 RunnerOutcome.safe none
    ∷ []

abbrev forced_result : MovementSuccess
forced_result = record { bases = no_bases; outs = 3; outs_added = 1; scored = [] }

order_play_movements-runner_example :
    filter (λ m. m.runner_id == 1) (order_play_movements two_on single_play)
    ≡ filter (λ m. m.runner_id == 1) single_play
order_play_movements-runner_example = order_play_movements-runner 1 two_on single_play

count-order_play_movements_example :
    count crosses_home (order_play_movements two_on single_play) ≡ count crosses_home single_play
count-order_play_movements_example = count-order_play_movements crosses_home two_on single_play

transition_single :
    transition_movements (record { outs = 1; bases = two_on }) single_play none single_play
    ≡ ok single_result
unfolding transition_movements fourth_out_indexes natural_third_out check_fourth_out check_outs
    scored_runs third_out_cancels_every_run
transition_single = refl

transition_forced :
    transition_movements (record { outs = 2; bases = two_on }) forced_play none forced_play
    ≡ ok forced_result
unfolding transition_movements fourth_out_indexes natural_third_out check_fourth_out check_outs
    scored_runs third_out_cancels_every_run index_of_third_out
transition_forced = refl

single_play-Distinct : DistinctRunners single_play
single_play-Distinct = ((refl, (refl, tt)), ((refl, tt), (tt, tt)))

transition_conserves_runners_example :
    occupied single_result.bases + count leaves_play single_play
    ≡ occupied two_on + count from_plate single_play
transition_conserves_runners_example =
    transition_conserves_runners (record { outs = 1; bases = two_on }) single_play none single_play
      single_play-Distinct (omega arith) transition_single

transition_outs_example :
    (forced_result.outs ≤ 3)
    × (forced_result.outs ≡ 2 + forced_result.outs_added)
    × (forced_result.outs ≡ 3 → forced_result.bases ≡ no_bases)
transition_outs_example =
    transition_outs (record { outs = 2; bases = two_on }) forced_play none forced_play (omega arith)
      transition_forced

transition_outs_exact_example :
    forced_result.outs + batter_outs forced_play
    ≡ 2 + movement_outs forced_play + result_outs none forced_play
unfolding fourth_out_indexes
transition_outs_exact_example =
    transition_outs_exact (record { outs = 2; bases = two_on }) forced_play none forced_play
      (omega arith) refl transition_forced

transition_force_cancels_runs_example : (forced_result.outs ≡ 3) × (forced_result.scored ≡ [])
unfolding fourth_out_indexes
transition_force_cancels_runs_example =
    transition_force_cancels_runs (record { outs = 2; bases = two_on }) forced_play none
      (movement 2 2 4 RunnerOutcome.scored none ∷ [])
      (movement 1 1 2 RunnerOutcome.out (some RunnerOutKind.force))
      (movement 3 0 1 RunnerOutcome.safe none ∷ []) (omega arith) refl transition_forced refl refl
      refl VoidsRuns.forced

transition_runs_before_third_out_example : single_result.scored ≡ filter crosses_home single_play
transition_runs_before_third_out_example =
    transition_runs_before_third_out (record { outs = 1; bases = two_on }) single_play none
      single_play (omega arith) transition_single

-- Runner 1 goes from first to third over two rows while runner 2 stays on second.
abbrev passing_play : List CompiledRunnerMovement
passing_play = movement 1 1 2 RunnerOutcome.safe none ∷ movement 1 2 3 RunnerOutcome.safe none ∷ []

-- The play is accepted, and runner 2 is gone from the bases.
passed_runner_vanishes :
    transition_movements (record { outs = 0; bases = two_on }) passing_play none passing_play
    ≡ ok (record {
      bases = record { first_base = none; second_base = none; third_base = on_base 1 };
      outs = 0;
      outs_added = 0;
      scored = [];
    })
unfolding transition_movements fourth_out_indexes natural_third_out check_fourth_out check_outs
    scored_runs third_out_cancels_every_run index_of_third_out
passed_runner_vanishes = refl

-- ===== src/Movement/Transition.antt =====
-- The outs and the runs of a play, and `transitionMovements` as a whole, of
-- packages/game-core/src/compiler/movement-engine.ts. The checks stand in the order of the source.
use kbo_workbench.Prelude.{
  Bool, List, Option, [], false, filter, first, get_elem?, if◌then◌else◌, is_some, length, ltb, min,
  none, not, or_else, or_option, some, suc, true, ℕ, ◌&&◌, ◌+◌, ◌-◌, ◌==◌, ◌∷◌,
}
use kbo_workbench.Contracts.Event.{PlayerId, RunnerOutKind, is_out, is_scored}
use kbo_workbench.Game.Findings.{DetailField, DetailValue, FindingCode}
use kbo_workbench.Game.State.{Bases, CompiledRunnerMovement, no_bases}
use kbo_workbench.Movement.Placement.{
  MovementFailure, MovementState, MovementSuccess, Result, batter_outs, check_origins,
  clear_origins, current_bases, err, failure, final_movements, natural_third_out, ok, outs_added_by,
  place_finals, place_one, placement_third_out, reaches_third, refuse_if, result_outs, ◌>>=◌, ◌>>◌,
}
use kbo_workbench.Rules.Results.{third_out_cancels_every_run}

abbrev supersedes : CompiledRunnerMovement → Bool
supersedes m = or_else m.supersedes_third_out false

-- `fourthOutIndexes`
unfoldable pub fourth_out_indexes : ℕ → List CompiledRunnerMovement → List ℕ
fourth_out_indexes i [] = []
fourth_out_indexes i (m ∷ ms) =
    if supersedes m then i ∷ fourth_out_indexes (suc i) ms else fourth_out_indexes (suc i) ms

abbrev out_at : List CompiledRunnerMovement → ℕ → Bool
out_at ms i = elim (get_elem? ms i) [ none ↦ false | some m ↦ is_out m.outcome ]

-- `i > n`, where `none` is infinity.
abbrev after : ℕ → Option ℕ → Bool
after i none = false
after i (some n) = ltb n i

-- The checks on the apparent fourth out.
unfoldable pub check_fourth_out :
    List CompiledRunnerMovement → Option ℕ → Option ℕ → Result (Unit {0})
check_fourth_out ms none natural = ok tt
check_fourth_out ms (some i) natural = do
  refuse_if (not (out_at ms i)) FindingCode.fourth_out_not_out
  refuse_if (not (after i natural)) FindingCode.fourth_out_not_after_third_out

abbrev too_many_outs : ℕ → MovementFailure
too_many_outs outs = failure FindingCode.outs_exceed_three (
    record {
      field = DetailField.outs;
      expected = some (DetailValue.number 3);
      actual = some (DetailValue.number outs);
    }
    ∷ [])

unfoldable pub check_outs : ℕ → Option ℕ → Result (Unit {0})
check_outs outs apparent =
    if ltb 3 outs && not (is_some apparent) then err (too_many_outs outs) else ok tt

-- `selectedOut`: the movement that counts as the third out.
unfoldable pub selected_out :
    Bool → Option ℕ → Option ℕ → List CompiledRunnerMovement → Option CompiledRunnerMovement
selected_out false apparent natural ms = none
selected_out true apparent natural ms = elim (or_option apparent natural) [
  | none ↦ none
  | some i ↦ get_elem? ms i
]

unfoldable pub cancelling_out : Option CompiledRunnerMovement → Bool
cancelling_out none = false
cancelling_out (some m) = third_out_cancels_every_run (or_else m.out_kind RunnerOutKind.tag)

-- `startingBaseByRunner.get(r)`: where the first movement of the runner begins.
abbrev starting_base : PlayerId → List CompiledRunnerMovement → Option ℕ
starting_base r [] = none
starting_base r (m ∷ ms) = if m.runner_id == r then some m.from_base else starting_base r ms

abbrev is_appeal_time : Option RunnerOutKind → Bool
is_appeal_time (some RunnerOutKind.appeal_time) = true
is_appeal_time _ = false

-- `appealedRunnerStartingBase`
unfoldable pub appealed_base :
    Option CompiledRunnerMovement → List CompiledRunnerMovement → Option ℕ
appealed_base none ms = none
appealed_base (some m) ms = if is_appeal_time m.out_kind then starting_base m.runner_id ms else none

abbrev ahead_of : Option ℕ → ℕ → Bool
ahead_of none b = true
ahead_of (some a) b = ltb a b

run_counts : Bool → Option ℕ → List CompiledRunnerMovement → CompiledRunnerMovement → Bool
run_counts cancelled appealed ms m =
    is_scored m.outcome
    && not cancelled
    && ahead_of appealed (or_else (starting_base m.runner_id ms) m.from_base)

unfoldable pub scored_runs :
    Bool → Option CompiledRunnerMovement → List CompiledRunnerMovement → List CompiledRunnerMovement
unfolding run_counts cancelling_out appealed_base
scored_runs reaches selected ms =
    filter (run_counts (reaches && cancelling_out selected) (appealed_base selected ms) ms) ms

-- `Math.min(3 - outs, added)` for at most three outs.
abbrev pub official_outs : ℕ → ℕ → ℕ
official_outs outs added = min (3 - outs) added

-- The counts and the runs of a play whose placement has succeeded.
unfoldable pub settle : ℕ → Option ℕ → List CompiledRunnerMovement → Bases → Result MovementSuccess
unfolding natural_third_out fourth_out_indexes check_fourth_out check_outs selected_out scored_runs
settle outs direct ms placed = do
  refuse_if (ltb (result_outs direct ms) (batter_outs ms))
      FindingCode.direct_outs_less_than_batter_out
  let added = outs_added_by direct ms
  let natural = natural_third_out outs direct ms
  let fourth = fourth_out_indexes 0 ms
  refuse_if (ltb 1 (length fourth)) FindingCode.multiple_apparent_fourth_outs
  check_fourth_out ms (first fourth) natural
  check_outs (outs + added) (first fourth)
  let reaches = reaches_third outs added
  let selected = selected_out reaches (first fourth) natural ms
  let final_outs = outs + official_outs outs added
  ok (record {
    outs = final_outs;
    outs_added = official_outs outs added;
    bases = if final_outs == 3 then no_bases else placed;
    scored = scored_runs reaches selected ms;
  })

unfoldable pub transition_movements :
    MovementState
    → List CompiledRunnerMovement
    → Option ℕ
    → List CompiledRunnerMovement
    → Result MovementSuccess
unfolding current_bases check_origins clear_origins placement_third_out final_movements place_one
    place_finals settle
transition_movements s placement direct chronological = do
  check_origins s.bases (current_bases s.bases) [] placement
  placed ←
      place_finals (placement_third_out s.outs direct chronological) (final_movements placement)
        (clear_origins placement s.bases)
  settle s.outs direct chronological placed

-- ===== src/Movement/TransitionLaws.antt =====
-- What a successful transition guarantees of the outs, the bases and the runs.
use kbo_workbench.Prelude.{
  List, Option, [], arith, first, if◌then◌else◌, is_some, true, ℕ, ◌+◌, ◌<◌, ◌==◌, ◌∷◌, ◌≡◌, ◌≤◌,
}
use kbo_workbench.Game.State.{Bases, CompiledRunnerMovement, no_bases}
use kbo_workbench.Movement.Placement.{
  >>=-eq-ok, MovementState, MovementSuccess, batter_outs, check_origins, clear_origins,
  current_bases, final_movements, movement_outs, natural_third_out, ok, outs_added_by, place_finals,
  placement_third_out, reaches_third, result_outs, ◌>>=◌,
}
use kbo_workbench.Movement.Transition.{
  fourth_out_indexes, official_outs, scored_runs, selected_out, settle, transition_movements,
}

-- What `settle` returns when it succeeds.
pub record Settled (outs : ℕ) (direct : Option ℕ) (ms : List CompiledRunnerMovement)
    (placed : Bases) (s : MovementSuccess) : Type 0 where
  pub enough : batter_outs ms ≤ result_outs direct ms
  pub outs_lem : s.outs ≡ outs + official_outs outs (outs_added_by direct ms)
  pub outs_added_lem : s.outs_added ≡ official_outs outs (outs_added_by direct ms)
  pub bases_lem : s.bases ≡ (if s.outs == 3 then no_bases else placed)
  pub scored_lem :
      s.scored
      ≡ scored_runs
          (reaches_third outs (outs_added_by direct ms))
          (selected_out
            (reaches_third outs (outs_added_by direct ms))
            (first (fourth_out_indexes 0 ms))
            (natural_third_out outs direct ms)
            ms)
          ms
  pub limit : 3 < outs + outs_added_by direct ms → is_some (first (fourth_out_indexes 0 ms)) ≡ true

settle-Settled :
    (outs : ℕ) (direct : Option ℕ) (ms : List CompiledRunnerMovement) (placed : Bases)
    {s : MovementSuccess}
    → settle outs direct ms placed ≡ ok s
    → Settled outs direct ms placed s
unfolding settle
settle-Settled outs direct ms placed h = ground arith

batter_outs-le : (ms : List CompiledRunnerMovement) → batter_outs ms ≤ movement_outs ms
batter_outs-le [] = omega arith
batter_outs-le (m ∷ ms) = ground (arith, batter_outs-le ms)

-- A successful transition passed its checks, placed the runners and settled the play.
pub transition-Settled :
    (s : MovementState) (ps : List CompiledRunnerMovement) (direct : Option ℕ)
    (ms : List CompiledRunnerMovement) {r : MovementSuccess}
    → transition_movements s ps direct ms ≡ ok r
    → (placed : Bases) × (check_origins s.bases (current_bases s.bases) [] ps ≡ ok tt)
      × (place_finals
            (placement_third_out s.outs direct ms)
            (final_movements ps)
            (clear_origins ps s.bases)
          ≡ ok placed)
      × Settled s.outs direct ms placed r
unfolding transition_movements
transition-Settled s ps direct ms h =
    let third = placement_third_out s.outs direct ms in
    let place = place_finals third (final_movements ps) (clear_origins ps s.bases) in
    let (_, checked, placing) =
      >>=-eq-ok (check_origins s.bases (current_bases s.bases) [] ps)
        (λ _. place >>= settle s.outs direct ms) h in
    let (placed, located, settled) = >>=-eq-ok place (settle s.outs direct ms) placing in
    (placed, checked, located, settle-Settled s.outs direct ms placed settled)

-- A play that begins with at most three outs and succeeds ends with at most three; its outs grow
-- by what is reported as added; and a play that ends the half clears the bases.
pub transition_outs :
    (s : MovementState) (ps : List CompiledRunnerMovement) (direct : Option ℕ)
    (ms : List CompiledRunnerMovement) {r : MovementSuccess}
    → s.outs ≤ 3
    → transition_movements s ps direct ms ≡ ok r
    → (r.outs ≤ 3) × (r.outs ≡ s.outs + r.outs_added) × (r.outs ≡ 3 → r.bases ≡ no_bases)
transition_outs s ps direct ms le h =
    let (placed, checked, located, settled) = transition-Settled s ps direct ms h in
    ground (arith, settled)

-- Unless a movement is marked as the apparent fourth out, the outs of the play are the outs of
-- its movements, with the direct outs in place of the batter's, and none of them is dropped.
pub transition_outs_exact :
    (s : MovementState) (ps : List CompiledRunnerMovement) (direct : Option ℕ)
    (ms : List CompiledRunnerMovement) {r : MovementSuccess}
    → s.outs ≤ 3
    → fourth_out_indexes 0 ms ≡ []
    → transition_movements s ps direct ms ≡ ok r
    → r.outs + batter_outs ms ≡ s.outs + movement_outs ms + result_outs direct ms
transition_outs_exact s ps direct ms le unmarked h =
    let (placed, checked, located, settled) = transition-Settled s ps direct ms h in
    ground (arith, settled, batter_outs-le ms)

-- ===== src/Movement/Failures.antt =====
-- The failures of `transitionMovements` of packages/game-core/src/compiler/movement-engine.ts: none
-- has the code of a conflict between tracking candidates.
use kbo_workbench.Prelude.{
  Bool, List, Option, Option-cases, [], arith, false, first, inl, inr, none, refl, some, ℕ, ◌∷◌,
  ◌≡◌, ◌⊎◌,
}
use kbo_workbench.Collections.Dict.{Dict, insert}
use kbo_workbench.Game.Findings.{is_conflict_code}
use kbo_workbench.Game.State.{BaseOccupant, Bases, CompiledRunnerMovement, get_base}
use kbo_workbench.Movement.Placement.{
  MovementFailure, MovementState, Origin, Result, add_origin, check_origins, clear_origins,
  current_bases, err, final_movements, landing, occupied_destination, ok, place_finals, place_one,
  placement_third_out, take_slot,
}
use kbo_workbench.Movement.Transition.{fourth_out_indexes, settle, transition_movements}

result_cases {ℓ} :
    {R : Type ℓ} (r : Result R) → ((e : MovementFailure) × (r ≡ err e)) ⊎ ((v : R) × (r ≡ ok v))
result_cases (err e) = inl (e, refl)
result_cases (ok v) = inr (v, refl)

take_slot-cases :
    (o : Option (Option BaseOccupant)) (m : CompiledRunnerMovement) (b : Bases)
    → ((c : Bases) × (take_slot o m b ≡ ok c)) ⊎ (take_slot o m b ≡ err (occupied_destination m))
take_slot-cases (some none) m b = inl (_, refl)
take_slot-cases (some (some o)) m b = inr refl
take_slot-cases none m b = inr refl

check_origins-plain :
    (b : Bases) (current : Dict ℕ) (origins : List Origin) (ms : List CompiledRunnerMovement)
    {e : MovementFailure}
    → check_origins b current origins ms ≡ err e
    → is_conflict_code e.code ≡ false
unfolding check_origins
check_origins-plain b current origins [] h = cc
check_origins-plain b current origins (m ∷ ms) {e} h = ground (
  arith,
  check_origins-plain b (insert m.runner_id (landing m) current) (add_origin m origins) ms {e = e},
)

place_one-plain :
    (third : Bool) (m : CompiledRunnerMovement) (b : Bases) {e : MovementFailure}
    → place_one third m b ≡ err e
    → is_conflict_code e.code ≡ false
unfolding place_one
place_one-plain third m b {e} h = elim (take_slot-cases (get_base b m.to_base) m b) [
  | inl (c, made) ↦ ground arith
  | inr made ↦ ground arith
]

place_finals-plain :
    (third : Bool) (ms : List CompiledRunnerMovement) (b : Bases) {e : MovementFailure}
    → place_finals third ms b ≡ err e
    → is_conflict_code e.code ≡ false
unfolding place_finals
place_finals-plain third [] b h = cc
place_finals-plain third (m ∷ ms) b {e} h = elim (result_cases (place_one third m b)) [
  | inl (f, failed) ↦ ground (arith, place_one-plain third m b {e = f} failed)
  | inr (c, placed) ↦ ground (arith, place_finals-plain third ms c {e = e})
]

settle-plain :
    (outs : ℕ) (direct : Option ℕ) (ms : List CompiledRunnerMovement) (placed : Bases)
    {e : MovementFailure}
    → settle outs direct ms placed ≡ err e
    → is_conflict_code e.code ≡ false
unfolding settle
settle-plain outs direct ms placed {e} h = elim (Option-cases (first (fourth_out_indexes 0 ms))) [
  | inl gone ↦ ground arith
  | inr (i, found) ↦ ground arith
]

pub transition_movements-plain :
    (s : MovementState) (ps : List CompiledRunnerMovement) (direct : Option ℕ)
    (ms : List CompiledRunnerMovement) {e : MovementFailure}
    → transition_movements s ps direct ms ≡ err e
    → is_conflict_code e.code ≡ false
unfolding transition_movements
transition_movements-plain s ps direct ms {e} h =
    let check = check_origins s.bases (current_bases s.bases) [] ps in
    let third = placement_third_out s.outs direct ms in
    let finals = final_movements ps in
    let cleared = clear_origins ps s.bases in
    elim (result_cases check) [
      | inl (f, failed) ↦
          ground (arith, check_origins-plain s.bases (current_bases s.bases) [] ps {e = f} failed)
      | inr (u, passed) ↦ elim (result_cases (place_finals third finals cleared)) [
        | inl (f, failed) ↦ ground (arith, place_finals-plain third finals cleared {e = f} failed)
        | inr (b, placed) ↦ ground (arith, settle-plain s.outs direct ms b {e = e})
      ]
    ]

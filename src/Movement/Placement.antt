-- ===== src/Movement/Placement.antt =====
-- The checks and the placement of runners in `transitionMovements`, and `indexOfThirdOut`, of
-- packages/game-core/src/compiler/movement-engine.ts. The early returns of a failure are the
-- error case of `Result`.
use kbo_workbench.Prelude.{
  Bool, List, Option, [], any, count, false, if◌then◌else◌, is_some, is_value, leb, ltb, none, not,
  or_else, refl, some, suc, true, ℕ, ◌&&◌, ◌+◌, ◌-◌, ◌==◌, ◌||◌, ◌∷◌, ◌≡◌,
}
use kbo_workbench.Collections.Dict.{Dict, insert, lookup}
use kbo_workbench.Contracts.Event.{is_out, is_safe}
use kbo_workbench.Game.Findings.{DetailField, DetailValue, FindingCode, FindingDetail}
use kbo_workbench.Game.State.{
  BaseOccupant, Bases, CompiledRunnerMovement, get_base, occupant_at, set_base,
}

pub record MovementState : Type 0 where
  pub outs : ℕ
  pub bases : Bases

pub record MovementFailure : Type 0 where
  pub code : FindingCode
  pub details : List FindingDetail

pub record MovementSuccess : Type 0 where
  pub outs : ℕ
  pub outs_added : ℕ
  pub bases : Bases
  pub scored : List CompiledRunnerMovement

-- `MovementTransition`: a value, or the failure that ended the call.
pub data Result {ℓ} (R : Type ℓ) : Type ℓ where
  err : MovementFailure → Result R
  ok : R → Result R

infixl 5 ◌>>=◌ ◌>>◌
abbrev pub ◌>>=◌ {ℓ κ} : {R : Type ℓ} {S : Type κ} → Result R → (R → Result S) → Result S
err failed >>= next = err failed
ok result >>= next = next result

-- A check, and what follows when it holds.
abbrev pub ◌>>◌ {ℓ} : {S : Type ℓ} → Result (Unit {0}) → Result S → Result S
check >> rest = check >>= λ _. rest

-- A chain that succeeds has succeeded in its first step.
pub >>=-eq-ok {ℓ κ} :
    {R : Type ℓ} {S : Type κ} (step : Result R) (next : R → Result S) {result : S}
    → (step >>= next) ≡ ok result
    → (first : R) × (step ≡ ok first) × (next first ≡ ok result)
>>=-eq-ok (err failed) next h = cc
>>=-eq-ok (ok value) next h = (value, refl, h)

abbrev pub failure : FindingCode → List FindingDetail → MovementFailure
failure c d = record { code = c; details = d }

abbrev pub refuse_if : Bool → FindingCode → Result (Unit {0})
refuse_if true c = err (failure c [])
refuse_if false c = ok tt

-- Where a runner stands behind a movement, 0 for nowhere.
abbrev pub landing : CompiledRunnerMovement → ℕ
landing m = if is_safe m.outcome && ltb m.to_base 4 then m.to_base else 0

abbrev note_occupant : ℕ → Option BaseOccupant → Dict ℕ → Dict ℕ
note_occupant n none d = d
note_occupant n (some o) d = insert o.runner_id n d

-- `currentBaseByRunner` before the play.
unfoldable pub current_bases : Bases → Dict ℕ
current_bases b =
    note_occupant 3 b.third_base (note_occupant 2 b.second_base (note_occupant 1 b.first_base []))

-- `origins`, a set of keys `${runnerId}:${fromBase}`.
abbrev pub Origin : Type 0
Origin = ℕ × ℕ

abbrev has_origin : CompiledRunnerMovement → List Origin → Bool
has_origin m os = any (λ o. o.0 == m.runner_id && o.1 == m.from_base) os

-- A runner who stays at the base has not left it.
abbrev leaves_origin : CompiledRunnerMovement → Bool
leaves_origin m = not (is_safe m.outcome) || not (m.to_base == m.from_base)

abbrev pub add_origin : CompiledRunnerMovement → List Origin → List Origin
add_origin m os =
    if m.from_base == 0 then os else if leaves_origin m then (m.runner_id, m.from_base) ∷ os else os

abbrev pub runner_value : Option BaseOccupant → DetailValue
runner_value none = DetailValue.null
runner_value (some o) = DetailValue.identifier o.runner_id

abbrev not_at_origin : Bases → CompiledRunnerMovement → MovementFailure
not_at_origin bases m = failure FindingCode.runner_not_at_origin (
    record {
      field = DetailField.runner_id;
      expected = some (runner_value (occupant_at bases m.from_base));
      actual = some (DetailValue.identifier m.runner_id);
    }
    ∷ record {
      field = DetailField.from_base;
      expected = none;
      actual = some (DetailValue.number m.from_base);
    }
    ∷ [])

-- The first loop: each runner leaves the base where the movements so far have put the runner.
unfoldable pub check_origins :
    Bases → Dict ℕ → List Origin → List CompiledRunnerMovement → Result (Unit {0})
check_origins bases current origins [] = ok tt
check_origins bases current origins (m ∷ ms) =
    let rest =
      check_origins bases (insert m.runner_id (landing m) current) (add_origin m origins) ms in
    if m.from_base == 0
    then rest
    else if has_origin m origins
    then err (failure FindingCode.movement_origin_duplicated [])
    else if is_value (lookup m.runner_id current) m.from_base
    then rest
    else err (not_at_origin bases m)

-- The second loop: every base that is left is cleared.
unfoldable pub clear_origins : List CompiledRunnerMovement → Bases → Bases
clear_origins [] b = b
clear_origins (m ∷ ms) b =
    clear_origins ms (if m.from_base == 0 then b else set_base m.from_base none b)

abbrev is_batter_out : CompiledRunnerMovement → Bool
is_batter_out m = m.from_base == 0 && is_out m.outcome

abbrev pub movement_outs : List CompiledRunnerMovement → ℕ
movement_outs ms = count (λ m. is_out m.outcome) ms

abbrev pub batter_outs : List CompiledRunnerMovement → ℕ
batter_outs ms = count is_batter_out ms

-- `directOuts ?? batterOuts`
abbrev pub result_outs : Option ℕ → List CompiledRunnerMovement → ℕ
result_outs direct ms = or_else direct (batter_outs ms)

-- `movementOuts + resultOuts - batterOuts`, which is never below 0: a batter's out is an out.
abbrev pub outs_added_by : Option ℕ → List CompiledRunnerMovement → ℕ
outs_added_by direct ms = movement_outs ms + result_outs direct ms - batter_outs ms

-- `indexOfThirdOut` from place `i`, with `none` for infinity. The outs so far are `plus - minus`,
-- kept as two numbers, since `anonymousOuts` is negative where the direct outs are too few.
unfoldable pub index_of_third_out : ℕ → ℕ → ℕ → List CompiledRunnerMovement → Option ℕ
index_of_third_out i plus minus [] = none
index_of_third_out i plus minus (m ∷ ms) =
    let outs = if is_out m.outcome then plus + 1 else plus in
    let rest = index_of_third_out (suc i) outs minus ms in
    if leb (3 + minus) outs then some i else rest

unfoldable pub natural_third_out : ℕ → Option ℕ → List CompiledRunnerMovement → Option ℕ
natural_third_out outs direct ms =
    index_of_third_out 0 (outs + result_outs direct ms) (batter_outs ms) ms

abbrev pub reaches_third : ℕ → ℕ → Bool
reaches_third outs added = ltb outs 3 && leb 3 (outs + added)

-- `Number.isFinite(placementThirdOutIndex)`
unfoldable pub placement_third_out : ℕ → Option ℕ → List CompiledRunnerMovement → Bool
unfolding natural_third_out
placement_third_out outs direct ms =
    reaches_third outs (outs_added_by direct ms) && is_some (natural_third_out outs direct ms)

-- `finalMovements`: the last movement of each runner.
unfoldable pub final_movements : List CompiledRunnerMovement → List CompiledRunnerMovement
final_movements [] = []
final_movements (m ∷ ms) =
    if any (λ n. n.runner_id == m.runner_id) ms then final_movements ms else m ∷ final_movements ms

abbrev pub occupied_destination : CompiledRunnerMovement → MovementFailure
occupied_destination m = failure FindingCode.runner_destination_occupied (
    record {
      field = DetailField.to_base;
      expected = none;
      actual = some (DetailValue.number m.to_base);
    }
    ∷ [])

abbrev pub occupant_of : CompiledRunnerMovement → BaseOccupant
occupant_of m = record {
  runner_id = m.runner_id;
  responsible_pitcher_id = m.responsible_pitcher_id;
}

-- A free slot is taken. A slot that is taken, or no slot of the array, is a failure.
abbrev pub take_slot : Option (Option BaseOccupant) → CompiledRunnerMovement → Bases → Result Bases
take_slot (some none) m b = ok (set_base m.to_base (some (occupant_of m)) b)
take_slot _ m b = err (occupied_destination m)

unfoldable pub place_one : Bool → CompiledRunnerMovement → Bases → Result Bases
place_one third m b =
    if not (is_safe m.outcome) || m.to_base == 4 || third
    then ok b
    else take_slot (get_base b m.to_base) m b

-- The third loop: the survivors are placed.
unfoldable pub place_finals : Bool → List CompiledRunnerMovement → Bases → Result Bases
place_finals third [] b = ok b
place_finals third (m ∷ ms) b = place_one third m b >>= place_finals third ms

-- ===== src/Movement/Occupancy.antt =====
-- How the checks, the clearing and the placing of `transitionMovements` change the number of
-- runners on base.
use kbo_workbench.Prelude.{
  All, Bool, List, Option, [], arith, count, false, if◌then◌else◌, is_value, length, none, not,
  refl, some, suc, true, zero, ℕ, ◌&&◌, ◌+◌, ◌==◌, ◌||◌, ◌∙◌, ◌∷◌, ◌≡◌,
}
use kbo_workbench.Collections.Dict.{Dict, insert, lookup, lookup-insert}
use kbo_workbench.Contracts.Event.{PlayerId, is_safe}
use kbo_workbench.Game.State.{
  BaseOccupant, Bases, CompiledRunnerMovement, get_base, occupant_at, set_base,
}
use kbo_workbench.Movement.Placement.{
  >>=-eq-ok, add_origin, check_origins, clear_origins, current_bases, landing, occupant_of, ok,
  place_finals, place_one, take_slot,
}

abbrev one : Option BaseOccupant → ℕ
one none = 0
one (some o) = 1

-- The number of runners on base.
abbrev pub occupied : Bases → ℕ
occupied b = one b.first_base + one b.second_base + one b.third_base

-- The runner still stands on a base behind the movement.
abbrev pub stays_on_base : CompiledRunnerMovement → Bool
stays_on_base m = is_safe m.outcome && not (m.to_base == 4)

-- The runner is out or at home behind the movement.
abbrev pub leaves_play : CompiledRunnerMovement → Bool
leaves_play m = not (stays_on_base m)

abbrev pub from_plate : CompiledRunnerMovement → Bool
from_plate m = m.from_base == 0

-- Each runner moves once.
abbrev pub DistinctRunners : List CompiledRunnerMovement → Type 0
DistinctRunners [] = Unit
DistinctRunners (m ∷ ms) = All (λ n. (n.runner_id == m.runner_id) ≡ false) ms × DistinctRunners ms

abbrev is_runner : PlayerId → Option BaseOccupant → Bool
is_runner r none = false
is_runner r (some o) = o.runner_id == r

abbrev stands_at : Bases → PlayerId → ℕ → Bool
stands_at b r n = is_runner r (occupant_at b n)

abbrev starts_there : Bases → CompiledRunnerMovement → Bool
starts_there b m = m.from_base == 0 || stands_at b m.runner_id m.from_base

lookup-current_bases :
    (b : Bases) (r n : ℕ) → is_value (lookup r (current_bases b)) n ≡ true → stands_at b r n ≡ true
unfolding current_bases
lookup-current_bases b r zero h = ground arith
lookup-current_bases b r (suc zero) h = ground arith
lookup-current_bases b r (suc (suc zero)) h = ground arith
lookup-current_bases b r (suc (suc (suc zero))) h = ground arith
lookup-current_bases b r (suc (suc (suc (suc n)))) h = ground arith

-- What is known of the runners that the remaining movements move.
abbrev pub Untouched : Dict ℕ → Dict ℕ → List CompiledRunnerMovement → Type 0
Untouched initial current ms = All (λ m. lookup m.runner_id current ≡ lookup m.runner_id initial) ms

Untouched-insert :
    (initial current : Dict ℕ) (r v : ℕ) (ms : List CompiledRunnerMovement)
    → All (λ n. (n.runner_id == r) ≡ false) ms
    → Untouched initial current ms
    → Untouched initial (insert r v current) ms
Untouched-insert initial current r v [] d u = tt
Untouched-insert initial current r v (m ∷ ms) d u = (
  lookup-insert m.runner_id r v current ∙ rw d.0 u.0,
  Untouched-insert initial current r v ms d.1 u.1,
)

pub check_origins-starts_there :
    (b : Bases) (current : Dict ℕ) (os : List (ℕ × ℕ)) (ms : List CompiledRunnerMovement)
    → DistinctRunners ms
    → Untouched (current_bases b) current ms
    → check_origins b current os ms ≡ ok tt
    → All (λ m. starts_there b m ≡ true) ms
unfolding check_origins
check_origins-starts_there b current os [] d u h = tt
check_origins-starts_there b current os (m ∷ ms) d u h = (
  ground (arith, u.0, lookup-current_bases b m.runner_id m.from_base),
  check_origins-starts_there b (insert m.runner_id (landing m) current) (add_origin m os) ms d.1
      (Untouched-insert (current_bases b) current m.runner_id (landing m) ms d.0 u.1)
      (ground arith),
)

occupied-clear :
    (b : Bases) (r i : ℕ) → stands_at b r i ≡ true → occupied (set_base i none b) + 1 ≡ occupied b
occupied-clear b r zero h = ground arith
occupied-clear b r (suc zero) h = ground arith
occupied-clear b r (suc (suc zero)) h = ground arith
occupied-clear b r (suc (suc (suc zero))) h = ground arith
occupied-clear b r (suc (suc (suc (suc n)))) h = ground arith

-- A number is one of the bases, the plate before them, or beyond them.
base_cases :
    (P : ℕ → Type 0)
    → P 0
    → P 1
    → P 2
    → P 3
    → ((n : ℕ) → P (suc (suc (suc (suc n)))))
    → (n : ℕ) → P n
base_cases P a b c d e zero = a
base_cases P a b c d e (suc zero) = b
base_cases P a b c d e (suc (suc zero)) = c
base_cases P a b c d e (suc (suc (suc zero))) = d
base_cases P a b c d e (suc (suc (suc (suc n)))) = e n

stands_at-clear :
    (b : Bases) (r q i j : ℕ)
    → (q == r) ≡ false
    → stands_at b r i ≡ true
    → stands_at b q j ≡ true
    → stands_at (set_base i none b) q j ≡ true
stands_at-clear b r q zero j ne h = λ k. k
stands_at-clear b r q (suc zero) j ne h =
    base_cases (λ n. stands_at b q n ≡ true → stands_at (set_base 1 none b) q n ≡ true) (λ k. k)
      (λ k. ground arith) (λ k. k) (λ k. k) (λ n k. k) j
stands_at-clear b r q (suc (suc zero)) j ne h =
    base_cases (λ n. stands_at b q n ≡ true → stands_at (set_base 2 none b) q n ≡ true) (λ k. k)
      (λ k. k) (λ k. ground arith) (λ k. k) (λ n k. k) j
stands_at-clear b r q (suc (suc (suc zero))) j ne h =
    base_cases (λ n. stands_at b q n ≡ true → stands_at (set_base 3 none b) q n ≡ true) (λ k. k)
      (λ k. k) (λ k. k) (λ k. ground arith) (λ n k. k) j
stands_at-clear b r q (suc (suc (suc (suc n)))) j ne h = λ k. k

abbrev clear_origin : CompiledRunnerMovement → Bases → Bases
clear_origin m b = if m.from_base == 0 then b else set_base m.from_base none b

starts_there-clear :
    (b : Bases) (m : CompiledRunnerMovement) (ns : List CompiledRunnerMovement)
    → starts_there b m ≡ true
    → All (λ n. (n.runner_id == m.runner_id) ≡ false) ns
    → All (λ n. starts_there b n ≡ true) ns
    → All (λ n. starts_there (clear_origin m b) n ≡ true) ns
starts_there-clear b m [] h d k = tt
starts_there-clear b m (n ∷ ns) h d k = (
  ground (arith, stands_at-clear b m.runner_id n.runner_id m.from_base n.from_base d.0),
  starts_there-clear b m ns h d.1 k.1,
)

-- Clearing the origins takes one runner off the bases for each movement that starts on a base.
pub occupied-clear_origins :
    (ms : List CompiledRunnerMovement) (b : Bases)
    → DistinctRunners ms
    → All (λ m. starts_there b m ≡ true) ms
    → occupied (clear_origins ms b) + length ms ≡ occupied b + count from_plate ms
unfolding clear_origins
occupied-clear_origins [] b d h = refl
occupied-clear_origins (m ∷ ms) b d h = ground (
  arith,
  occupied-clear b m.runner_id m.from_base,
  occupied-clear_origins ms (clear_origin m b) d.1 (starts_there-clear b m ms h.0 d.0 h.1),
)

occupied-place_slot :
    (b : Bases) (m : CompiledRunnerMovement) (n : ℕ)
    → get_base b n ≡ some none
    → occupied (set_base n (some (occupant_of m)) b) ≡ occupied b + 1
occupied-place_slot b m =
    base_cases
      (λ n.
        get_base b n ≡ some none → occupied (set_base n (some (occupant_of m)) b) ≡ occupied b + 1)
      (λ h. cc) (λ h. ground arith) (λ h. ground arith) (λ h. ground arith) (λ n h. cc)

occupied-take_slot :
    (slot : Option (Option BaseOccupant)) (m : CompiledRunnerMovement) (b : Bases) {b' : Bases}
    → get_base b m.to_base ≡ slot
    → take_slot slot m b ≡ ok b'
    → occupied b' ≡ occupied b + 1
occupied-take_slot none m b e h = cc
occupied-take_slot (some none) m b e h = ground (arith, occupied-place_slot b m m.to_base e)
occupied-take_slot (some (some o)) m b e h = cc

occupied-place_one :
    (m : CompiledRunnerMovement) (b : Bases) {b' : Bases}
    → place_one false m b ≡ ok b'
    → occupied b' ≡ occupied b + (if stays_on_base m then 1 else 0)
unfolding place_one
occupied-place_one m b h = ground (arith, occupied-take_slot (get_base b m.to_base) m b refl)

pub occupied-place_finals :
    (ms : List CompiledRunnerMovement) (b : Bases) {b' : Bases}
    → place_finals false ms b ≡ ok b'
    → occupied b' ≡ occupied b + count stays_on_base ms
unfolding place_finals
occupied-place_finals [] b h = ground arith
occupied-place_finals (m ∷ ms) b {b'} h =
    let (c, one_placed, rest) = >>=-eq-ok (place_one false m b) (place_finals false ms) h in
    ground (arith, occupied-place_one m b one_placed, occupied-place_finals ms c rest)

-- ===== src/Movement/OrderRunner.antt =====
-- `orderPlayMovements`: the movements of one runner keep the order in which the play records them.
use mathlib.Core.List.{append-nil, append_assoc}
use kbo_workbench.Prelude.{
  ==_refl, Bool, Bool-cases, List, Option, Option-cases, [], add_new, all, ap, arith, contains,
  entries_from, false, filter, get_elem?, if◌then◌else◌, inl, inr, leb, length, none, not, refl,
  some, suc, sym, true, zero, ℕ, ◌&&◌, ◌++◌, ◌+◌, ◌<◌, ◌==◌, ◌||◌, ◌∙◌, ◌∷◌, ◌≡◌,
}
use kbo_workbench.Contracts.Event.{PlayerId, is_safe}
use kbo_workbench.Game.State.{BaseOccupant, Bases, CompiledRunnerMovement, occupant_at}
use kbo_workbench.Movement.Order.{
  Entry, add_clearing, add_occupant, clearing, next_movement, order_loop, order_play_movements,
  predecessors, same_runner_before,
}
use kbo_workbench.Movement.OrderLaws.{
  count-everything, everything, next_movement_lem, order_loop_step, order_loop_stuck, pending_count,
  pending_count-nil, pending_count_round,
}

abbrev runs_by : PlayerId → CompiledRunnerMovement → Bool
runs_by r m = m.runner_id == r

-- The movements of runner `r` that are not completed.
pending_of : PlayerId → List ℕ → List Entry → List CompiledRunnerMovement
pending_of r done [] = []
pending_of r done (e ∷ es) =
    if not (contains e.0 done) && runs_by r e.1
    then e.1 ∷ pending_of r done es
    else pending_of r done es

pending_of_fresh :
    (r : PlayerId) (j k : ℕ) (done : List ℕ) (ms : List CompiledRunnerMovement)
    → j < k
    → pending_of r (j ∷ done) (entries_from k ms) ≡ pending_of r done (entries_from k ms)
unfolding pending_of
pending_of_fresh r j k done [] h = refl
pending_of_fresh r j k done (m ∷ ms) h =
    ground (arith, pending_of_fresh r j (suc k) done ms (omega arith))

pending_of_other :
    (r : PlayerId) (k i j : ℕ) (done : List ℕ) (ms : List CompiledRunnerMovement)
    {m : CompiledRunnerMovement}
    → j ≡ k + i
    → get_elem? ms i ≡ some m
    → runs_by r m ≡ false
    → pending_of r (j ∷ done) (entries_from k ms) ≡ pending_of r done (entries_from k ms)
unfolding pending_of
pending_of_other r k i j done [] e g n = cc
pending_of_other r k zero j done (x ∷ ms) {m} e g n =
    let same : x ≡ m = cc in
    rw (same, n) (ground (arith, pending_of_fresh r j (suc k) done ms (omega arith)))
pending_of_other r k (suc i) j done (x ∷ ms) e g n =
    let below : (k == j) ≡ false = ground arith in
    rw below (ground (arith, pending_of_other r (suc k) i j done ms (omega arith) g n))

pending_of_own :
    (r : PlayerId) (k i j : ℕ) (done : List ℕ) (ms : List CompiledRunnerMovement)
    {m : CompiledRunnerMovement}
    → j ≡ k + i
    → get_elem? ms i ≡ some m
    → runs_by r m ≡ true
    → contains j done ≡ false
    → all (λ n. contains n done) (same_runner_before j m (entries_from k ms)) ≡ true
    → pending_of r done (entries_from k ms) ≡ m ∷ pending_of r (j ∷ done) (entries_from k ms)
unfolding pending_of same_runner_before
pending_of_own r k i j done [] e g own c earlier = cc
pending_of_own r k zero j done (x ∷ ms) {m} e g own c earlier =
    let same : x ≡ m = cc in
    let here : k ≡ j = omega arith in
    rw (same, here, ==_refl j, c, own)
      (ap (λ ys. m ∷ ys) (sym (pending_of_fresh r j (suc j) done ms (omega arith))))
pending_of_own r k (suc i) j done (x ∷ ms) {m} e g own c earlier =
    let below : (k == j) ≡ false = ground arith in
    rw below (ground (arith, pending_of_own r (suc k) i j done ms {m = m} (omega arith) g own c))

all-append {ℓ} :
    {A : Type ℓ} (q : A → Bool) (xs ys : List A) → all q (xs ++ ys) ≡ true → all q xs ≡ true
all-append q [] ys h = refl
all-append q (x ∷ xs) ys h = ground (arith, all-append q xs ys)

all-add_new : (q : ℕ → Bool) (j : ℕ) (ps : List ℕ) → all q (add_new j ps) ≡ true → all q ps ≡ true
all-add_new q j ps h = elim (Bool-cases (contains j ps)) [
  | inl old ↦ rw old at h
  | inr new ↦ all-append q ps (j ∷ []) (rw new at h)
]

all-add_clearing :
    (q : ℕ → Bool) (c : Option Entry) (ps : List ℕ)
    → all q (add_clearing c ps) ≡ true
    → all q ps ≡ true
all-add_clearing q none ps h = h
all-add_clearing q (some (j, n)) ps h = all-add_new q j ps h

all-add_occupant :
    (q : ℕ → Bool) (o : Option BaseOccupant) (m : CompiledRunnerMovement) (es : List Entry)
    (ps : List ℕ)
    → all q (add_occupant o m es ps) ≡ true
    → all q ps ≡ true
unfolding add_occupant
all-add_occupant q none m es ps h = h
all-add_occupant q (some o) m es ps h =
    ground (arith, all-add_clearing q (clearing m o.runner_id es) ps)

-- Among the predecessors are all earlier movements of the same runner.
predecessors_same_runner :
    (q : ℕ → Bool) (bases : Bases) (es : List Entry) (e : Entry)
    → all q (predecessors bases es e) ≡ true
    → all q (same_runner_before e.0 e.1 es) ≡ true
unfolding predecessors
predecessors_same_runner q bases es e h =
    elim (Bool-cases (not (is_safe e.1.outcome) || leb 4 e.1.to_base)) [
      | inl plain ↦ rw plain at h
      | inr reaches ↦
          all-add_occupant q (occupant_at bases e.1.to_base) e.1 es (same_runner_before e.0 e.1 es)
            (rw reaches at h)
    ]

filter-append {ℓ} :
    {A : Type ℓ} (p : A → Bool) (xs ys : List A) → filter p (xs ++ ys) ≡ filter p xs ++ filter p ys
filter-append p [] ys = refl
filter-append p (x ∷ xs) ys = ground (arith, filter-append p xs ys)

pending_of-nil :
    (r : PlayerId) (k : ℕ) (ms : List CompiledRunnerMovement)
    → pending_of r [] (entries_from k ms) ≡ filter (runs_by r) ms
unfolding pending_of
pending_of-nil r k [] = refl
pending_of-nil r k (m ∷ ms) = ground (arith, pending_of-nil r (suc k) ms)

pending_of_done :
    (r : PlayerId) (done : List ℕ) (es : List Entry)
    → pending_count everything done es ≡ 0
    → pending_of r done es ≡ []
unfolding pending_of
pending_of_done r done [] h = refl
pending_of_done r done (e ∷ es) h = ground (arith, pending_of_done r done es)

-- One round of the loop keeps the runner's movements in order.
pending_of_round :
    (r : PlayerId) (bases : Bases) (ms : List CompiledRunnerMovement) (done : List ℕ) (e : Entry)
    → next_movement bases ms (entries_from 0 ms) done ≡ some e
    → filter (runs_by r) (e.1 ∷ []) ++ pending_of r (e.0 ∷ done) (entries_from 0 ms)
      ≡ pending_of r done (entries_from 0 ms)
pending_of_round r bases ms done e h =
    let (entry, available) = next_movement_lem bases ms done e h in
    elim (Bool-cases (runs_by r e.1)) [
      | inl own ↦ rw own (
          sym (
            pending_of_own r 0 entry.0 e.0 done ms entry.1 entry.2 own (ground arith)
              (predecessors_same_runner _ bases (entries_from 0 ms) e (ground arith))))
      | inr foreign ↦ rw foreign (pending_of_other r 0 entry.0 e.0 done ms entry.1 entry.2 foreign)
    ]

order_loop-runner :
    (r : PlayerId) (bases : Bases) (ms : List CompiledRunnerMovement) (left : ℕ) (done : List ℕ)
    (ordered : List CompiledRunnerMovement)
    → pending_count everything done (entries_from 0 ms) ≡ left
    → filter (runs_by r) ordered ++ pending_of r done (entries_from 0 ms) ≡ filter (runs_by r) ms
    → filter (runs_by r) (order_loop bases ms (entries_from 0 ms) left done ordered)
      ≡ filter (runs_by r) ms
unfolding order_loop
order_loop-runner r bases ms zero done ordered l f =
    rw (pending_of_done r done (entries_from 0 ms) l, append-nil) at f
order_loop-runner r bases ms (suc left) done ordered l f =
    elim (Option-cases (next_movement bases ms (entries_from 0 ms) done)) [
      | inl stuck ↦ rw (order_loop_stuck bases ms _ left done ordered stuck)
      | inr (e, chosen) ↦ rw (order_loop_step bases ms _ left done ordered e chosen) (
          order_loop-runner r bases ms left (e.0 ∷ done) (ordered ++ e.1 ∷ [])
            (omega (arith, pending_count_round everything bases ms done e chosen))
            (rw
              (
                filter-append (runs_by r) ordered (e.1 ∷ []),
                append_assoc,
                pending_of_round r bases ms done e chosen,
              )
              f))
    ]

-- Ordering a play keeps the movements of each runner in the order in which they are recorded.
pub order_play_movements-runner :
    (r : PlayerId) (bases : Bases) (ms : List CompiledRunnerMovement)
    → filter (λ m. m.runner_id == r) (order_play_movements bases ms)
      ≡ filter (λ m. m.runner_id == r) ms
unfolding order_play_movements
order_play_movements-runner r bases ms =
    order_loop-runner r bases ms (length ms) [] []
      (pending_count-nil everything 0 ms ∙ count-everything ms) (pending_of-nil r 0 ms)

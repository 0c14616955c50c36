-- ===== src/Movement/OrderLaws.antt =====
-- What `orderPlayMovements` guarantees: it loses and invents no movement, and the movements of
-- one runner keep the order in which the play records them.
use kbo_workbench.Prelude.{
  ==_refl, All, Bool, List, Option-cases, [], ap, arith, contains, count, count-append,
  entries_from, false, get_elem?, inl, inr, length, none, not, refl, some, suc, true, zero, ℕ, ◌&&◌,
  ◌++◌, ◌+◌, ◌<◌, ◌==◌, ◌∙◌, ◌∷◌, ◌≡◌, ◌≤◌,
}
use kbo_workbench.Collections.Sort.{All-filter, All-sort_by, first-All}
use kbo_workbench.Game.State.{Bases, CompiledRunnerMovement}
use kbo_workbench.Movement.Order.{
  Entry, available_le, is_available, next_movement, order_loop, order_play_movements,
}

abbrev bit : Bool → ℕ
bit true = 1
bit false = 0

-- An entry stands at its own place of the play.
abbrev IsEntry : ℕ → List CompiledRunnerMovement → Entry → Type 0
IsEntry k ms e = (i : ℕ) × (e.0 ≡ k + i) × (get_elem? ms i ≡ some e.1)

weaken_entries :
    (k : ℕ) (m : CompiledRunnerMovement) (ms : List CompiledRunnerMovement) (es : List Entry)
    → All (IsEntry (suc k) ms) es
    → All (IsEntry k (m ∷ ms)) es
weaken_entries k m ms [] h = tt
weaken_entries k m ms (e ∷ es) h =
    ((suc h.0.0, omega (arith, h.0.1), h.0.2), weaken_entries k m ms es h.1)

entries_from-IsEntry :
    (k : ℕ) (ms : List CompiledRunnerMovement) → All (IsEntry k ms) (entries_from k ms)
entries_from-IsEntry k [] = tt
entries_from-IsEntry k (m ∷ ms) =
    ((0, omega arith, refl), weaken_entries k m ms _ (entries_from-IsEntry (suc k) ms))

-- The round's choice is an entry of the play that is not completed, and all of its predecessors
-- are.
pub next_movement_lem :
    (bases : Bases) (ms : List CompiledRunnerMovement) (done : List ℕ) (e : Entry)
    → next_movement bases ms (entries_from 0 ms) done ≡ some e
    → IsEntry 0 ms e × (is_available bases (entries_from 0 ms) done e ≡ true)
unfolding next_movement
next_movement_lem bases ms done e h =
    first-All _ _ e
      (All-sort_by _ (available_le ms) _ (All-filter _ _ _ (entries_from-IsEntry 0 ms))) h

-- The movements that satisfy `p` and are not completed.
abbrev pub pending_count : (CompiledRunnerMovement → Bool) → List ℕ → List Entry → ℕ
pending_count p done = count (λ e. not (contains e.0 done) && p e.1)

pending_count_fresh :
    (p : CompiledRunnerMovement → Bool) (j k : ℕ) (done : List ℕ) (ms : List CompiledRunnerMovement)
    → j < k
    → pending_count p (j ∷ done) (entries_from k ms) ≡ pending_count p done (entries_from k ms)
pending_count_fresh p j k done [] h = refl
pending_count_fresh p j k done (m ∷ ms) h =
    ground (arith, pending_count_fresh p j (suc k) done ms (omega arith))

pending_count_step :
    (p : CompiledRunnerMovement → Bool) (k i j : ℕ) (done : List ℕ)
    (ms : List CompiledRunnerMovement) {m : CompiledRunnerMovement}
    → j ≡ k + i
    → get_elem? ms i ≡ some m
    → contains j done ≡ false
    → pending_count p (j ∷ done) (entries_from k ms) + bit (p m)
      ≡ pending_count p done (entries_from k ms)
pending_count_step p k i j done [] e g c = cc
pending_count_step p k zero j done (x ∷ ms) {m} e g c =
    let same : x ≡ m = cc in
    let here : k ≡ j = omega arith in
    rw (← same, here, ==_refl j, c, pending_count_fresh p j (suc j) done ms (omega arith))
      (ground arith)
pending_count_step p k (suc i) j done (x ∷ ms) e g c =
    let below : (k == j) ≡ false = ground arith in
    rw below (ground (arith, pending_count_step p (suc k) i j done ms (omega arith) g c))

abbrev pub everything : CompiledRunnerMovement → Bool
everything m = true

pending_count-le :
    (p : CompiledRunnerMovement → Bool) (done : List ℕ) (es : List Entry)
    → pending_count p done es ≤ pending_count everything done es
pending_count-le p done [] = omega arith
pending_count-le p done (e ∷ es) = ground (arith, pending_count-le p done es)

pub pending_count-nil :
    (p : CompiledRunnerMovement → Bool) (k : ℕ) (ms : List CompiledRunnerMovement)
    → pending_count p [] (entries_from k ms) ≡ count p ms
pending_count-nil p k [] = refl
pending_count-nil p k (m ∷ ms) = ground (arith, pending_count-nil p (suc k) ms)

pub count-everything : (ms : List CompiledRunnerMovement) → count everything ms ≡ length ms
count-everything [] = refl
count-everything (m ∷ ms) = ap suc (count-everything ms)

-- One round of the loop, for the movements that satisfy `p`.
pub pending_count_round :
    (p : CompiledRunnerMovement → Bool) (bases : Bases) (ms : List CompiledRunnerMovement)
    (done : List ℕ) (e : Entry)
    → next_movement bases ms (entries_from 0 ms) done ≡ some e
    → pending_count p (e.0 ∷ done) (entries_from 0 ms) + bit (p e.1)
      ≡ pending_count p done (entries_from 0 ms)
pending_count_round p bases ms done e h =
    let (entry, available) = next_movement_lem bases ms done e h in
    pending_count_step p 0 entry.0 e.0 done ms entry.1 entry.2 (ground arith)

module _ (bases : Bases) (ms : List CompiledRunnerMovement) (es : List Entry) (left : ℕ) where
  pub order_loop_stuck :
      (done : List ℕ) (ordered : List CompiledRunnerMovement)
      → next_movement bases ms es done ≡ none
      → order_loop bases ms es (suc left) done ordered ≡ ms
  unfolding order_loop
  order_loop_stuck done ordered h = rw (h, order_loop)

  pub order_loop_step :
      (done : List ℕ) (ordered : List CompiledRunnerMovement) (e : Entry)
      → next_movement bases ms es done ≡ some e
      → order_loop bases ms es (suc left) done ordered
        ≡ order_loop bases ms es left (e.0 ∷ done) (ordered ++ e.1 ∷ [])
  unfolding order_loop
  order_loop_step done ordered e h = rw (h, order_loop)

count-order_loop :
    (p : CompiledRunnerMovement → Bool) (bases : Bases) (ms : List CompiledRunnerMovement)
    (left : ℕ) (done : List ℕ) (ordered : List CompiledRunnerMovement)
    → pending_count everything done (entries_from 0 ms) ≡ left
    → count p ordered + pending_count p done (entries_from 0 ms) ≡ count p ms
    → count p (order_loop bases ms (entries_from 0 ms) left done ordered) ≡ count p ms
unfolding order_loop
count-order_loop p bases ms zero done ordered l c =
    omega (arith, pending_count-le p done (entries_from 0 ms))
count-order_loop p bases ms (suc left) done ordered l c =
    elim (Option-cases (next_movement bases ms (entries_from 0 ms) done)) [
      | inl stuck ↦ rw (order_loop_stuck bases ms _ left done ordered stuck)
      | inr (e, chosen) ↦ rw (order_loop_step bases ms _ left done ordered e chosen) (
          count-order_loop p bases ms left (e.0 ∷ done) (ordered ++ e.1 ∷ [])
            (omega (arith, pending_count_round everything bases ms done e chosen))
            (ground (
              arith,
              count-append p ordered (e.1 ∷ []),
              pending_count_round p bases ms done e chosen,
            )))
    ]

-- Ordering a play loses no movement and invents none: whatever `p` asks of a movement, as many
-- movements satisfy it in the ordered play as in the recorded one.
pub count-order_play_movements :
    (p : CompiledRunnerMovement → Bool) (bases : Bases) (ms : List CompiledRunnerMovement)
    → count p (order_play_movements bases ms) ≡ count p ms
unfolding order_play_movements
count-order_play_movements p bases ms =
    count-order_loop p bases ms (length ms) [] []
      (pending_count-nil everything 0 ms ∙ count-everything ms)
      (omega (arith, pending_count-nil p 0 ms))

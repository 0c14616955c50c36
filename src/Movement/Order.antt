-- ===== src/Movement/Order.antt =====
-- `orderPlayMovements` of packages/game-core/src/compiler/movement-engine.ts.
use kbo_workbench.Prelude.{
  Bool, List, Option, [], add_new, all, any, contains, entries_from, false, filter, find, first,
  if◌then◌else◌, leb, length, ltb, none, not, some, suc, take, true, zero, ℕ, ◌&&◌, ◌++◌, ◌==◌,
  ◌||◌, ◌∷◌,
}
use kbo_workbench.Collections.Sort.{sort_by}
use kbo_workbench.Contracts.Event.{is_out, is_safe}
use kbo_workbench.Game.State.{BaseOccupant, Bases, CompiledRunnerMovement, occupant_at}

-- A movement with its place in the play: an entry of `pending`.
abbrev pub Entry : Type 0
Entry = ℕ × CompiledRunnerMovement

-- The places of earlier movements of the same runner: the loop over `earlier`.
unfoldable pub same_runner_before : ℕ → CompiledRunnerMovement → List Entry → List ℕ
same_runner_before i m [] = []
same_runner_before i m ((j, n) ∷ es) =
    let rest = same_runner_before i m es in
    if ltb j i && n.runner_id == m.runner_id then j ∷ rest else rest

-- `pending.find(...)`: the movement that clears the base which `m` reaches.
pub clearing : CompiledRunnerMovement → ℕ → List Entry → Option Entry
clearing m runner es = find (λ e. e.1.runner_id == runner && e.1.from_base == m.to_base) es

abbrev pub add_clearing : Option Entry → List ℕ → List ℕ
add_clearing none ps = ps
add_clearing (some (j, n)) ps = add_new j ps

unfoldable pub add_occupant :
    Option BaseOccupant → CompiledRunnerMovement → List Entry → List ℕ → List ℕ
unfolding clearing
add_occupant none m es ps = ps
add_occupant (some o) m es ps =
    if o.runner_id == m.runner_id then ps else add_clearing (clearing m o.runner_id es) ps

-- `predecessors[i]`: the places that must be completed before this movement.
unfoldable pub predecessors : Bases → List Entry → Entry → List ℕ
unfolding same_runner_before add_occupant
predecessors bases pending (i, m) =
    let earlier = same_runner_before i m pending in
    if not (is_safe m.outcome) || leb 4 m.to_base
    then earlier
    else add_occupant (occupant_at bases m.to_base) m pending earlier

-- An out of a runner who moved earlier in the play is deferred.
deferred_out : List CompiledRunnerMovement → Entry → Bool
deferred_out ms (i, m) = is_out m.outcome && any (λ n. n.runner_id == m.runner_id) (take i ms)

abbrev to_number : Bool → ℕ
to_number true = 1
to_number false = 0

-- The comparator of `available.sort`, as "at most zero".
pub available_le : List CompiledRunnerMovement → Entry → Entry → Bool
unfolding deferred_out
available_le ms (i, m) (j, n) =
    let dl = to_number (deferred_out ms (i, m)) in
    let dr = to_number (deferred_out ms (j, n)) in
    if dl == dr
    then (if n.from_base == m.from_base then leb i j else ltb n.from_base m.from_base)
    else ltb dl dr

abbrev pub is_available : Bases → List Entry → List ℕ → Entry → Bool
is_available bases pending completed e =
    not (contains e.0 completed) && all (λ j. contains j completed) (predecessors bases pending e)

unfoldable pub next_movement :
    Bases → List CompiledRunnerMovement → List Entry → List ℕ → Option Entry
next_movement bases ms pending completed =
    first (sort_by (available_le ms) (filter (is_available bases pending completed) pending))

-- The `while` loop. Each round appends one movement, so `left`, the number of movements not yet
-- ordered, counts its rounds exactly. With none available the play keeps its own order.
unfoldable pub order_loop :
    Bases
    → List CompiledRunnerMovement
    → List Entry
    → ℕ
    → List ℕ
    → List CompiledRunnerMovement
    → List CompiledRunnerMovement
order_loop bases ms pending zero completed ordered = ordered
order_loop bases ms pending (suc left) completed ordered =
    elim (next_movement bases ms pending completed) [
      | none ↦ ms
      | some e ↦ order_loop bases ms pending left (e.0 ∷ completed) (ordered ++ e.1 ∷ [])
    ]

unfoldable pub order_play_movements :
    Bases → List CompiledRunnerMovement → List CompiledRunnerMovement
unfolding order_loop
order_play_movements bases ms = order_loop bases ms (entries_from 0 ms) (length ms) [] []

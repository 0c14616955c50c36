-- ===== src/Compiler/Responsibility.antt =====
-- `inheritFielderChoiceResponsibilities` of packages/game-core/src/compiler/plate-play.ts: on a
-- fielder's choice or a force double play the surviving runners take over, in order, the
-- pitchers who are responsible for the runners that were put out.
use kbo_workbench.Prelude.{
  Bool, List, Option, [], count, drop, false, filter, if◌then◌else◌, leb, ltb, map, none, not, some,
  take, true, ℕ, ◌&&◌, ◌++◌, ◌==◌, ◌||◌, ◌∷◌,
}
use kbo_workbench.Collections.Dict.{Dict, insert, lookup}
use kbo_workbench.Collections.Sort.{sort_by}
use kbo_workbench.Contracts.Event.{PlateResult, PlayerId, RunnerOutKind, is_out}
use kbo_workbench.Game.State.{BaseOccupant, Bases, CompiledRunnerMovement}

abbrev inherits : PlateResult → Bool
inherits PlateResult.fielder_choice = true
inherits PlateResult.double_play = true
inherits _ = false

abbrev is_fielder_choice : PlateResult → Bool
is_fielder_choice PlateResult.fielder_choice = true
is_fielder_choice _ = false

abbrev is_force : Option RunnerOutKind → Bool
is_force (some RunnerOutKind.force) = true
is_force _ = false

pub record RunnerSlot : Type 0 where
  pub origin : ℕ
  pub responsible_pitcher_id : PlayerId
  pub last : Option CompiledRunnerMovement

abbrev note_base : ℕ → Option BaseOccupant → Dict RunnerSlot → Dict RunnerSlot
note_base n none d = d
note_base n (some o) d =
    insert o.runner_id
      (record { origin = n; responsible_pitcher_id = o.responsible_pitcher_id; last = none }) d

abbrev slot_after : Option RunnerSlot → CompiledRunnerMovement → RunnerSlot
slot_after none m = record {
  origin = m.from_base;
  responsible_pitcher_id = m.responsible_pitcher_id;
  last = some m;
}
slot_after (some p) m = record p { last = some m }

-- The `runners` map behind both loops.
note_movements : List CompiledRunnerMovement → Dict RunnerSlot → Dict RunnerSlot
note_movements [] d = d
note_movements (m ∷ ms) d =
    note_movements ms (insert m.runner_id (slot_after (lookup m.runner_id d) m) d)

runner_slots : Bases → List CompiledRunnerMovement → Dict RunnerSlot
unfolding note_movements
runner_slots b ms =
    note_movements ms
      (note_base 3 b.third_base (note_base 2 b.second_base (note_base 1 b.first_base [])))

abbrev is_retired : RunnerSlot → Bool
is_retired s = elim s.last [ none ↦ false | some m ↦ is_out m.outcome ]

-- `runner.last?.responsiblePitcherId ?? runner.responsiblePitcherId`
abbrev slot_pitcher : RunnerSlot → PlayerId
slot_pitcher s = elim s.last [ none ↦ s.responsible_pitcher_id | some m ↦ m.responsible_pitcher_id ]

abbrev was_forced : RunnerSlot → Bool
was_forced s = elim s.last [ none ↦ false | some m ↦ is_force m.out_kind ]

survivors : Dict RunnerSlot → List (ℕ × RunnerSlot)
survivors d = sort_by (λ a b. leb b.1.origin a.1.origin) (filter (λ e. not (is_retired e.1)) d)

-- The retired runners whose slot is inherited.
abbrev passes_on : PlateResult → PlayerId → ℕ × RunnerSlot → Bool
passes_on r pitcher e =
    ltb 0 e.1.origin
    && is_retired e.1
    && (is_fielder_choice r || was_forced e.1)
    && not (e.1.responsible_pitcher_id == pitcher)

retired : PlateResult → PlayerId → Dict RunnerSlot → List (ℕ × RunnerSlot)
retired r pitcher d = sort_by (λ a b. leb a.1.origin b.1.origin) (filter (passes_on r pitcher) d)

-- `slots.splice(n, 0, p)`, which appends where `n` is past the end.
abbrev pub splice : ℕ → PlayerId → List PlayerId → List PlayerId
splice n p slots = take n slots ++ p ∷ drop n slots

abbrev lead_rank : List (ℕ × RunnerSlot) → RunnerSlot → ℕ
lead_rank alive s = count (λ e. ltb s.origin e.1.origin) alive

insert_retired : List (ℕ × RunnerSlot) → List (ℕ × RunnerSlot) → List PlayerId → List PlayerId
insert_retired alive [] slots = slots
insert_retired alive (e ∷ es) slots =
    insert_retired alive es (splice (lead_rank alive e.1) e.1.responsible_pitcher_id slots)

-- The survivors with the slots in front: `survivors.map(([id], i) => [id, slots[i]])`.
pair_slots : List (ℕ × RunnerSlot) → List PlayerId → Dict PlayerId
pair_slots [] slots = []
pair_slots (e ∷ es) [] = []
pair_slots (e ∷ es) (p ∷ slots) = (e.0, p) ∷ pair_slots es slots

pub inherit_fielder_choice_responsibilities :
    Bases → PlateResult → List CompiledRunnerMovement → PlayerId → Dict PlayerId
unfolding runner_slots survivors retired insert_retired pair_slots
inherit_fielder_choice_responsibilities bases r ms pitcher =
    let runners = runner_slots bases ms in
    let alive = survivors runners in
    let slots =
      insert_retired alive (retired r pitcher runners) (map (λ e. slot_pitcher e.1) alive) in
    if inherits r then pair_slots alive slots else []

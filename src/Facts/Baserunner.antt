-- ===== src/Facts/Baserunner.antt =====
-- `compileBaserunnerLines` of packages/game-core/src/compiler/derived-facts.ts, and what the lines
-- of all runners add up to.
use kbo_workbench.Prelude.{
  Bool, List, Option-cases, [], arith, false, filter, if◌then◌else◌, inl, inr, is_some, leb, none,
  not, refl, some, true, ℕ, ◌&&◌, ◌++◌, ◌+◌, ◌-◌, ◌==◌, ◌||◌, ◌∷◌, ◌≡◌,
}
use kbo_workbench.Collections.Dict.{Dict, lookup, sum_of, sum_of-upsert, upsert}
use kbo_workbench.Collections.Sort.{insert_by, sort_by}
use kbo_workbench.Compiler.Replay.{CompiledPlay}
use kbo_workbench.Compiler.Statistics.{one_if}
use kbo_workbench.Contracts.Event.{
  PlayerId, RunnerAdvanceReason, RunnerOutcome, Side, is_out, is_safe, is_scored,
}
use kbo_workbench.Game.State.{CompiledRunnerMovement, MovementReason}

-- `BaserunnerLine`
pub record BaserunnerLine : Type 0 where
  pub player_id : PlayerId
  pub side : Side
  pub advances : ℕ
  pub extra_bases_taken : ℕ
  pub runs : ℕ
  pub stolen_bases : ℕ
  pub caught_stealing : ℕ
  pub pickoffs : ℕ

abbrev new_baserunner_line : PlayerId → Side → BaserunnerLine
new_baserunner_line p s = record {
  player_id = p;
  side = s;
  advances = 0;
  extra_bases_taken = 0;
  runs = 0;
  stolen_bases = 0;
  caught_stealing = 0;
  pickoffs = 0;
}

abbrev is_successful : RunnerOutcome → Bool
is_successful o = is_safe o || is_scored o

abbrev is_stolen_base : MovementReason → Bool
is_stolen_base (MovementReason.advance RunnerAdvanceReason.stolen_base) = true
is_stolen_base _ = false

abbrev is_caught_stealing : MovementReason → Bool
is_caught_stealing (MovementReason.advance RunnerAdvanceReason.caught_stealing) = true
is_caught_stealing _ = false

abbrev is_pickoff : MovementReason → Bool
is_pickoff (MovementReason.advance RunnerAdvanceReason.pickoff) = true
is_pickoff _ = false

abbrev count_movement : CompiledRunnerMovement → BaserunnerLine → BaserunnerLine
count_movement m line =
    let successful = is_successful m.outcome in
    record line {
      advances = line.advances + one_if successful;
      extra_bases_taken =
          line.extra_bases_taken + (if successful then m.to_base - m.from_base - 1 else 0);
      runs = line.runs + one_if (is_scored m.outcome);
      stolen_bases = line.stolen_bases + one_if (is_stolen_base m.reason && successful);
      caught_stealing =
          line.caught_stealing + one_if (is_caught_stealing m.reason && is_out m.outcome);
      pickoffs = line.pickoffs + one_if (is_pickoff m.reason && is_out m.outcome);
    }

-- One movement: the batter's own, and a runner of no roster, are passed over.
note_movement : Dict Side → CompiledRunnerMovement → Dict BaserunnerLine → Dict BaserunnerLine
note_movement sides m lines = if m.from_base == 0 then lines else elim (lookup m.runner_id sides) [
  | none ↦ lines
  | some side ↦ upsert m.runner_id (new_baserunner_line m.runner_id side) (count_movement m) lines
]

note_all : Dict Side → List CompiledRunnerMovement → Dict BaserunnerLine → Dict BaserunnerLine
unfolding note_movement
note_all sides [] lines = lines
note_all sides (m ∷ ms) lines = note_all sides ms (note_movement sides m lines)

abbrev pub values_of {ℓ} : {V : Type ℓ} → Dict V → List V
values_of [] = []
values_of ((k, v) ∷ d) = v ∷ values_of d

abbrev movements_of : List CompiledPlay → List CompiledRunnerMovement
movements_of [] = []
movements_of (p ∷ ps) = p.movements ++ movements_of ps

-- `comparePlayerLine`: identifiers are numbered in the order of their canonical comparison.
abbrev by_player : BaserunnerLine → BaserunnerLine → Bool
by_player a b = leb a.player_id b.player_id

unfoldable pub compile_baserunner_lines : List CompiledPlay → Dict Side → List BaserunnerLine
unfolding note_all
compile_baserunner_lines plays sides =
    sort_by by_player (values_of (note_all sides (movements_of plays) []))

-- The total of a field over a list of lines.
abbrev pub total {ℓ} : {A : Type ℓ} → (A → ℕ) → List A → ℕ
total g [] = 0
total g (x ∷ xs) = g x + total g xs

total-insert_by {ℓ} :
    {A : Type ℓ} (le : A → A → Bool) (g : A → ℕ) (x : A) (xs : List A)
    → total g (insert_by le x xs) ≡ g x + total g xs
total-insert_by le g x [] = refl
total-insert_by le g x (y ∷ ys) = ground (arith, total-insert_by le g x ys)

pub total-sort_by {ℓ} :
    {A : Type ℓ} (le : A → A → Bool) (g : A → ℕ) (xs : List A)
    → total g (sort_by le xs) ≡ total g xs
total-sort_by le g [] = refl
total-sort_by le g (x ∷ xs) =
    ground (arith, total-insert_by le g x (sort_by le xs), total-sort_by le g xs)

pub total-values_of {ℓ} : {V : Type ℓ} (g : V → ℕ) (d : Dict V) → total g (values_of d) ≡ sum_of g d
total-values_of g [] = refl
total-values_of g ((k, v) ∷ d) = ground (arith, total-values_of g d)

-- The movements that a line is kept for: not from the plate, and of a runner on a roster.
abbrev is_counted : Dict Side → CompiledRunnerMovement → Bool
is_counted sides m = not (m.from_base == 0) && is_some (lookup m.runner_id sides)

-- A field that grows by `f m` with each movement `m`.
module _ (g : BaserunnerLine → ℕ) (f : CompiledRunnerMovement → ℕ)
    (fresh : (p : PlayerId) (s : Side) → g (new_baserunner_line p s) ≡ 0)
    (grows : (m : CompiledRunnerMovement) (l : BaserunnerLine)
      → g (count_movement m l) ≡ g l + f m) where
  sum_of-note_movement :
      (sides : Dict Side) (m : CompiledRunnerMovement) (d : Dict BaserunnerLine)
      → sum_of g (note_movement sides m d) ≡ sum_of g d + (if is_counted sides m then f m else 0)
  unfolding note_movement
  sum_of-note_movement sides m d = elim (Option-cases (lookup m.runner_id sides)) [
    | inl e ↦ ground arith
    | inr (s, e) ↦ ground (
      arith,
      sum_of-upsert g (f m) m.runner_id (new_baserunner_line m.runner_id s) (count_movement m) d
          (fresh m.runner_id s) (grows m),
    )
  ]

  sum_of-note_all :
      (sides : Dict Side) (ms : List CompiledRunnerMovement) (d : Dict BaserunnerLine)
      → sum_of g (note_all sides ms d) ≡ sum_of g d + total f (filter (is_counted sides) ms)
  unfolding note_all
  sum_of-note_all sides [] d = omega arith
  sum_of-note_all sides (m ∷ ms) d =
      ground
        (arith, sum_of-note_all sides ms (note_movement sides m d), sum_of-note_movement sides m d)

  total-compile_baserunner_lines :
      (plays : List CompiledPlay) (sides : Dict Side)
      → total g (compile_baserunner_lines plays sides)
        ≡ total f (filter (is_counted sides) (movements_of plays))
  unfolding compile_baserunner_lines
  total-compile_baserunner_lines plays sides = omega (
    arith,
    total-sort_by by_player g (values_of (note_all sides (movements_of plays) [])),
    total-values_of g (note_all sides (movements_of plays) []),
    sum_of-note_all sides (movements_of plays) [],
  )

-- The runs, the advances and the stolen bases in the runners' lines add up to those of the
-- movements that start on a base and belong to a player of a roster: sorting and grouping by
-- runner lose none and count none twice.
pub compile_baserunner_lines-totals :
    (plays : List CompiledPlay) (sides : Dict Side)
    → let lines = compile_baserunner_lines plays sides in
      let counted = filter (is_counted sides) (movements_of plays) in
      (total (λ l. l.runs) lines ≡ total (λ m. one_if (is_scored m.outcome)) counted)
      × (total (λ l. l.advances) lines ≡ total (λ m. one_if (is_successful m.outcome)) counted)
      × (total (λ l. l.stolen_bases) lines
          ≡ total (λ m. one_if (is_stolen_base m.reason && is_successful m.outcome)) counted)
compile_baserunner_lines-totals plays sides = (
  total-compile_baserunner_lines (λ l. l.runs) (λ m. one_if (is_scored m.outcome)) (λ p s. refl)
      (λ m l. refl) plays sides,
  total-compile_baserunner_lines (λ l. l.advances) (λ m. one_if (is_successful m.outcome))
      (λ p s. refl) (λ m l. refl) plays sides,
  total-compile_baserunner_lines (λ l. l.stolen_bases)
      (λ m. one_if (is_stolen_base m.reason && is_successful m.outcome)) (λ p s. refl) (λ m l. refl)
      plays sides,
)

-- ===== src/Rules/Terminal.antt =====
-- `findTerminalPitchForPlateResult` of packages/game-core/src/rules.ts: the pitch that the
-- result at an index ends, found behind the rows that change no state.
use kbo_workbench.Prelude.{
  Bool, Bool-cases, List, Option, [], all, ap, arith, first, get_elem?, if◌then◌else◌, inl, inr,
  none, refl, reverse, some, take, true, ℕ, ◌&&◌, ◌++◌, ◌==◌, ◌∷◌, ◌≡◌,
}
use kbo_workbench.Contracts.Event.{
  PitchEvent, PlateResultEvent, StagingRelayEvent, is_non_state, same_half, same_half_iff,
}

-- The rows before the result, nearest first, without the annotations at their head: the `while`
-- loop, whose next candidate is the head of what is left.
unfoldable pub skip_non_state : List StagingRelayEvent → List StagingRelayEvent
skip_non_state [] = []
skip_non_state (e ∷ es) = let rest = skip_non_state es in if is_non_state e then rest else e ∷ es

-- `a === undefined || a === b`
abbrev agrees : Option ℕ → ℕ → Bool
agrees none b = true
agrees (some a) b = a == b

unfoldable pub pitch_for_result : PlateResultEvent → Option StagingRelayEvent → Option PitchEvent
pitch_for_result result (some (StagingRelayEvent.pitch p)) =
    if p.base.inning == result.base.inning
      && same_half p.base.half result.base.half
      && agrees p.payload.batter_id result.payload.batter_id
      && agrees p.payload.pitcher_id result.payload.pitcher_id
    then some p
    else none
pitch_for_result result _ = none

terminal_of : Option StagingRelayEvent → List StagingRelayEvent → Option PitchEvent
unfolding pitch_for_result skip_non_state
terminal_of (some (StagingRelayEvent.plate_result r)) before =
    pitch_for_result r (first (skip_non_state before))
terminal_of _ before = none

unfoldable pub find_terminal_pitch_for_plate_result : List StagingRelayEvent → ℕ → Option PitchEvent
unfolding terminal_of
find_terminal_pitch_for_plate_result events result_index =
    terminal_of (get_elem? events result_index) (reverse (take result_index events))

-- What the search skips, and where it stops.
skip_non_state_lem :
    (es : List StagingRelayEvent) (e : StagingRelayEvent)
    → first (skip_non_state es) ≡ some e
    → (gap older : List StagingRelayEvent) × (es ≡ gap ++ e ∷ older) × (all is_non_state gap ≡ true)
unfolding skip_non_state
skip_non_state_lem [] e h = cc
skip_non_state_lem (x ∷ es) e h = elim (Bool-cases (is_non_state x)) [
  | inl note ↦
      let (gap, older, split, quiet) = skip_non_state_lem es e (rw note at h) in
      (x ∷ gap, older, ap (λ ys. x ∷ ys) split, rw note quiet)
  | inr state_row ↦ ([], es, ground arith, refl)
]

-- A row is the pitch that the result accepts.
pub record EndsResult (result : PlateResultEvent) (p : PitchEvent) : Type 0 where
  pub inning_agrees : p.base.inning ≡ result.base.inning
  pub half_agrees : p.base.half ≡ result.base.half
  pub batter_agrees : agrees p.payload.batter_id result.payload.batter_id ≡ true
  pub pitcher_agrees : agrees p.payload.pitcher_id result.payload.pitcher_id ≡ true

pitch_for_result_lem :
    (r : PlateResultEvent) (o : Option StagingRelayEvent) {p : PitchEvent}
    → pitch_for_result r o ≡ some p
    → (o ≡ some (StagingRelayEvent.pitch p)) × EndsResult r p
unfolding pitch_for_result
pitch_for_result_lem r none h = ground arith
pitch_for_result_lem r (some (StagingRelayEvent.pitch q)) h =
    ground (arith, same_half_iff q.base.half r.base.half)
pitch_for_result_lem r (some _) h = ground arith

-- The pitch that a result ends stands before it, with nothing but reviews and administrative rows
-- in between, in the same half inning, and names no other batter and no other pitcher.
pub find_terminal_pitch_adjacent :
    (events : List StagingRelayEvent) (i : ℕ) (r : PlateResultEvent) {p : PitchEvent}
    → get_elem? events i ≡ some (StagingRelayEvent.plate_result r)
    → find_terminal_pitch_for_plate_result events i ≡ some p
    → (gap older : List StagingRelayEvent) × (reverse (take i events)
        ≡ gap ++ StagingRelayEvent.pitch p ∷ older)
      × (all is_non_state gap ≡ true)
      × EndsResult r p
unfolding find_terminal_pitch_for_plate_result
find_terminal_pitch_adjacent events i r {p} at found =
    let before = reverse (take i events) in
    let (head, ends) =
      pitch_for_result_lem r (first (skip_non_state before)) {p = p} (rw at at found) in
    let (gap, older, split, quiet) = skip_non_state_lem before (StagingRelayEvent.pitch p) head in
    (gap, older, split, quiet, ends)

-- ===== src/Compiler/Validity.antt =====
-- The invariant of the game state, and the handlers of half innings, batters, pitches and
-- substitutions that keep it.
use kbo_workbench.Prelude.{Bool, Option, arith, is_some, is_value, none, some, true, ◌≡◌, ◌≤◌}
use kbo_workbench.Compiler.Context.{CompileContext}
use kbo_workbench.Compiler.EventHandlers.{apply_batter_start, apply_half_start}
use kbo_workbench.Compiler.EventTransition.{apply_pitch, apply_substitution}
use kbo_workbench.Compiler.State.{append_plate_event, batting_side, initial_state, opposite}
use kbo_workbench.Contracts.Event.{
  BatterStartEvent, EventId, Half, LedgerEventBase, PitchEvent, SubstitutionEvent,
}
use kbo_workbench.Game.State.{ActivePitchers, GameState, PlateAppearance, no_bases, pitcher_of}

-- The pitcher of the active plate appearance is the active pitcher of the fielding side.
abbrev mound_agrees : Option PlateAppearance → ActivePitchers → Half → Bool
mound_agrees none p h = true
mound_agrees (some pa) p h =
    is_value (pitcher_of p (opposite (batting_side h))) pa.current_pitcher_id

pub record IsValid (s : GameState) : Type 0 where
  pub balls_le : s.balls ≤ 4
  pub strikes_le : s.strikes ≤ 3
  pub outs_le : s.outs ≤ 3
  pub third_out_clears : s.outs ≡ 3 → s.bases ≡ no_bases
  pub appearance_in_half : is_some s.active_plate_appearance ≡ true → s.half_active ≡ true
  pub mound : mound_agrees s.active_plate_appearance s.active_pitchers s.half ≡ true

-- The first state is valid.
pub initial_state-IsValid : IsValid initial_state
unfolding initial_state
initial_state-IsValid = ground arith

pub append_plate_event-IsValid :
    (e : EventId) {s : GameState} → IsValid s → IsValid (append_plate_event e s)
unfolding append_plate_event
append_plate_event-IsValid e v = ground arith

pub apply_half_start-IsValid :
    (s : GameState) (b : LedgerEventBase) (c : CompileContext)
    → IsValid s
    → IsValid (apply_half_start s b c).0
unfolding apply_half_start
apply_half_start-IsValid s b c v = ground arith

pub apply_batter_start-IsValid :
    (s : GameState) (e : BatterStartEvent) (c : CompileContext)
    → s.half_active ≡ true
    → IsValid s
    → IsValid (apply_batter_start s e c).0
unfolding apply_batter_start
apply_batter_start-IsValid s e c active v = ground arith

pub apply_pitch-IsValid :
    (s : GameState) (e : PitchEvent) (c : CompileContext)
    → IsValid s
    → IsValid (apply_pitch s e c).0
unfolding apply_pitch
apply_pitch-IsValid s e c v = ground arith

pub apply_substitution-IsValid :
    (s : GameState) (e : SubstitutionEvent) (c : CompileContext)
    → IsValid s
    → IsValid (apply_substitution s e c).0
unfolding apply_substitution
apply_substitution-IsValid s e c v = ground arith

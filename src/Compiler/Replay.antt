-- ===== src/Compiler/Replay.antt =====
-- `CompiledPlay` and `ReplayFrame` of packages/game-core/src/types.ts, and the sets of pitches
-- that packages/game-core/src/reducer.ts collects before it walks the ledger.
use kbo_workbench.Prelude.{
  Bool, List, Option, String, [], add_new, false, if◌then◌else◌, none, some, suc, true, ℕ, ◌∷◌,
}
use kbo_workbench.Compiler.Statistics.{is_hit_by_pitch, is_strikeout}
use kbo_workbench.Contracts.Event.{
  EventId, Half, PitchCall, PitchEvent, PlateResult, StagingRelayEvent, StagingRelayEventKind,
}
use kbo_workbench.Game.State.{CompiledRunnerMovement, GameState}
use kbo_workbench.Rules.Terminal.{find_terminal_pitch_for_plate_result}

-- `play:${eventId}` is named by its event.
pub record CompiledPlay : Type 0 where
  pub play_id : EventId
  pub sequence : ℕ
  pub kind : StagingRelayEventKind
  pub inning : ℕ
  pub half : Half
  pub relay_event_ids : List EventId
  pub relay_texts : List String
  pub before : GameState
  pub after : GameState
  pub applied : Bool
  pub movements : List CompiledRunnerMovement

pub record ReplayFrame : Type 0 where
  pub event_id : EventId
  pub sequence : ℕ
  pub kind : StagingRelayEventKind
  pub play_id : Option EventId
  pub before : GameState
  pub after : GameState
  pub applied : Bool

-- What the rows attached to a play are shown with: the entries of `playByAttachedEvent` and
-- `stateByAttachedEvent`, which are always set together.
pub record AttachedPlay : Type 0 where
  pub play_id : EventId
  pub before : GameState
  pub after : GameState
  pub applied : Bool

abbrev is_ball_or_hit : PitchCall → Bool
is_ball_or_hit PitchCall.ball = true
is_ball_or_hit PitchCall.hit_by_pitch = true
is_ball_or_hit _ = false

abbrev is_foul_bunt : PitchCall → Bool
is_foul_bunt PitchCall.foul_bunt = true
is_foul_bunt _ = false

abbrev pub has_result : (PlateResult → Bool) → StagingRelayEvent → Bool
has_result q (StagingRelayEvent.plate_result e) = q e.payload.result
has_result q _ = false

abbrev add_pitch : (PitchCall → Bool) → Option PitchEvent → List EventId → List EventId
add_pitch q none ids = ids
add_pitch q (some p) ids = if q p.payload.call then add_new p.base.identity.event_id ids else ids

-- The pitches, of a call in `q`, that end a result in `r`: the loop over the result rows, each at
-- its index of the document.
terminal_pitch_ids :
    (PlateResult → Bool)
    → (PitchCall → Bool)
    → List StagingRelayEvent
    → ℕ
    → List StagingRelayEvent
    → List EventId
    → List EventId
terminal_pitch_ids r q events i [] ids = ids
terminal_pitch_ids r q events i (e ∷ es) ids = terminal_pitch_ids r q events (suc i) es (
    if has_result r e then add_pitch q (find_terminal_pitch_for_plate_result events i) ids else ids)

-- `findHitByPitchTerminalPitchIds`
pub hit_by_pitch_terminal_pitch_ids : List StagingRelayEvent → List EventId
unfolding terminal_pitch_ids
hit_by_pitch_terminal_pitch_ids events =
    terminal_pitch_ids is_hit_by_pitch is_ball_or_hit events 0 events []

-- `buntStrikeoutPitchIds`
pub bunt_strikeout_pitch_ids : List StagingRelayEvent → List EventId
unfolding terminal_pitch_ids
bunt_strikeout_pitch_ids events = terminal_pitch_ids is_strikeout is_foul_bunt events 0 events []

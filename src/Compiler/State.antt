-- ===== src/Compiler/State.antt =====
-- packages/game-core/src/compiler/state.ts: the first state, the order of the half innings and
-- the summary of a plate appearance that ends without a result.
use mathlib.Core.Option
use kbo_workbench.Prelude.{
  List, Option, [], add_new, false, if◌then◌else◌, none, some, ℕ, ◌+◌, ◌==◌, ◌∷◌,
}
use kbo_workbench.Collections.Dict.{Dict, insert}
use kbo_workbench.Contracts.Document.{StagingGameDocumentV2}
use kbo_workbench.Contracts.Event.{EventId, Half, Side, same_half}
use kbo_workbench.Contracts.Records.{RosterPlayer}
use kbo_workbench.Game.State.{
  GameState, PlateAppearance, PlateAppearanceSummary, PlateAppearanceTerminationReason, no_bases,
}

unfoldable pub initial_state : GameState
initial_state = record {
  inning = 0;
  half = Half.bottom;
  half_active = false;
  balls = 0;
  strikes = 0;
  outs = 0;
  bases = no_bases;
  away_score = 0;
  home_score = 0;
  active_plate_appearance = none;
  active_pitchers = record { away = none; home = none };
}

-- `partialPlateAppearance`, where `none` is its exception.
unfoldable pub partial_plate_appearance :
    GameState → Option EventId → PlateAppearanceTerminationReason → Option PlateAppearanceSummary
partial_plate_appearance state end_event_id reason = elim state.active_plate_appearance [
  | none ↦ none
  | some pa ↦ some (record {
    start_event_id = pa.start_event_id;
    end_event_id = end_event_id;
    inning = state.inning;
    half = state.half;
    start_batter_id = pa.start_batter_id;
    batter_id = pa.current_batter_id;
    start_pitcher_id = pa.start_pitcher_id;
    pitcher_id = pa.current_pitcher_id;
    result = none;
    completed = false;
    termination_reason = reason;
    actual_pitch_count = pa.actual_pitch_count;
    event_ids = pa.event_ids;
  })
]

abbrev add_players : Side → List RosterPlayer → Dict Side → Dict Side
add_players s [] d = d
add_players s (p ∷ ps) d = add_players s ps (insert p.player_id s d)

-- A player on both rosters counts for the home side, whose entries come later.
unfoldable pub player_sides : StagingGameDocumentV2 → Dict Side
player_sides document =
    add_players Side.home document.rosters.home.players
      (add_players Side.away document.rosters.away.players [])

abbrev append_event_id : EventId → PlateAppearance → PlateAppearance
append_event_id e pa = record pa { event_ids = add_new e pa.event_ids }

unfoldable pub append_plate_event : EventId → GameState → GameState
append_plate_event e state = record state {
  active_plate_appearance = Option.map (append_event_id e) state.active_plate_appearance;
}

abbrev pub next_half : GameState → ℕ × Half
next_half state =
    if state.inning == 0
    then (1, Half.top)
    else if same_half state.half Half.top
    then (state.inning, Half.bottom)
    else (state.inning + 1, Half.top)

abbrev pub batting_side : Half → Side
batting_side Half.top = Side.away
batting_side Half.bottom = Side.home

abbrev pub opposite : Side → Side
opposite Side.away = Side.home
opposite Side.home = Side.away

-- ===== src/Compiler/EventHandlers.antt =====
-- The handlers of packages/game-core/src/compiler/event-transition.ts: the start of a half inning
-- and of a plate appearance, a pitch, and a substitution. Each returns the state and the context;
-- an early return leaves both as they are but for the finding.
use kbo_workbench.Prelude.{
  Bool, List, Option, [], contains, false, if◌then◌else◌, leb, ltb, none, not, or_option, some,
  true, ℕ, ◌&&◌, ◌==◌, ◌∷◌,
}
use kbo_workbench.Collections.Dict.{lookup}
use kbo_workbench.Compiler.Context.{
  CompileContext, add_finding, detail, domain_finding, push_plate_appearance, source_finding,
}
use kbo_workbench.Compiler.State.{batting_side, next_half, opposite, partial_plate_appearance}
use kbo_workbench.Contracts.Event.{
  BatterStart, BatterStartEvent, Half, LedgerEventBase, PlayerId, Side, same_half, same_side,
}
use kbo_workbench.Game.Findings.{
  DetailField, DetailValue, FindingCategory, FindingCode, FindingDetail,
}
use kbo_workbench.Game.State.{
  GameState, PlateAppearance, PlateAppearanceSummary, PlateAppearanceTerminationReason, no_bases,
  set_pitcher,
}

abbrev pub Step : Type 0
Step = GameState × CompileContext

abbrev pub half_details : ℕ → Half → LedgerEventBase → List FindingDetail
half_details inning h event =
    detail DetailField.inning (DetailValue.number inning) (DetailValue.number event.inning)
    ∷ detail DetailField.half (DetailValue.half h) (DetailValue.half event.half)
    ∷ []

abbrev side_value : Option Side → DetailValue
side_value none = DetailValue.null
side_value (some s) = DetailValue.side s

abbrev is_side : Option Side → Side → Bool
is_side none s = false
is_side (some t) s = same_side t s

-- `requirePlayer`, as the test and as the finding of its failure.
unfoldable pub has_player : PlayerId → Side → CompileContext → Bool
has_player p s context = is_side (lookup p context.player_sides) s

unfoldable pub missing_player :
    PlayerId → Side → LedgerEventBase → DetailField → CompileContext → CompileContext
missing_player p s event field context =
    add_finding event FindingCode.player_roster_mismatch FindingCategory.domain
      (detail field (DetailValue.side s) (side_value (lookup p context.player_sides)) ∷ []) context

abbrev pub push_some : Option PlateAppearanceSummary → CompileContext → CompileContext
push_some none context = context
push_some (some pa) context = push_plate_appearance pa context

-- The block of `applyHalfStart` for a half that is still active. `partialPlateAppearance` is
-- called only where there is a plate appearance, so that its exception is no result here.
unfoldable pub close_half : GameState → LedgerEventBase → CompileContext → CompileContext
unfolding partial_plate_appearance
close_half state event context =
    let reason =
      if state.outs == 3
      then PlateAppearanceTerminationReason.third_out
      else PlateAppearanceTerminationReason.source_boundary in
    let closed =
      push_some (partial_plate_appearance state (some event.identity.event_id) reason) context in
    if ltb state.outs 3
    then add_finding event FindingCode.source_half_incomplete FindingCategory.source
        (detail DetailField.outs (DetailValue.number 3) (DetailValue.number state.outs) ∷ []) closed
    else closed

abbrev starts_next_half : GameState → LedgerEventBase → Bool
starts_next_half state event =
    event.inning == (next_half state).0 && same_half event.half (next_half state).1

unfoldable pub apply_half_start : GameState → LedgerEventBase → CompileContext → Step
unfolding close_half
apply_half_start state event context =
    let closed = if state.half_active then close_half state event context else context in
    if not (starts_next_half state event)
    then (
      state,
      add_finding event FindingCode.unexpected_half_start FindingCategory.domain
          (half_details (next_half state).0 (next_half state).1 event) closed,
    )
    else (
      record state {
        inning = event.inning;
        half = event.half;
        half_active = true;
        balls = 0;
        strikes = 0;
        outs = 0;
        bases = no_bases;
        active_plate_appearance = none;
      },
      record closed { observation_mismatch_fields = [] },
    )

-- The batter changes: with two strikes the one who took them stays responsible for a strikeout.
abbrev pub change_batter : ℕ → PlayerId → PlateAppearance → PlateAppearance
change_batter strikes batter pa = record pa {
  strikeout_responsible_batter_id =
      if ltb strikes 2
      then some batter
      else or_option pa.strikeout_responsible_batter_id (some pa.current_batter_id);
  current_batter_id = batter;
}

abbrev same_players : PlateAppearance → BatterStart → Bool
same_players pa p = pa.current_batter_id == p.batter_id && pa.current_pitcher_id == p.pitcher_id

abbrev untouched_count : GameState → PlateAppearance → Bool
untouched_count state pa = pa.actual_pitch_count == 0 && state.balls == 0 && state.strikes == 0

-- A batter row while a plate appearance is active.
restart_batter : PlateAppearance → GameState → BatterStartEvent → CompileContext → Step
unfolding has_player missing_player
restart_batter pa state event context =
    let p = event.payload in
    let confirmed =
      contains event.base.identity.event_id context.batter_headers_confirmed_by_substitution in
    let batting = batting_side state.half in
    if confirmed && same_players pa p
    then (state, context)
    else if same_players pa p && untouched_count state pa
    then (state, context)
    else if confirmed && pa.current_pitcher_id == p.pitcher_id
    then (if has_player p.batter_id batting context
        then (
          record state {
            active_plate_appearance = some (change_batter state.strikes p.batter_id pa);
          },
          context,
        )
        else (state, missing_player p.batter_id batting event.base DetailField.batter_id context))
    else (state, source_finding event.base FindingCode.plate_appearance_overlap context)

abbrev new_plate_appearance : BatterStartEvent → PlateAppearance
new_plate_appearance event = record {
  start_event_id = event.base.identity.event_id;
  start_batter_id = event.payload.batter_id;
  current_batter_id = event.payload.batter_id;
  start_pitcher_id = event.payload.pitcher_id;
  current_pitcher_id = event.payload.pitcher_id;
  walk_responsible_pitcher_id = none;
  strikeout_responsible_batter_id = none;
  actual_pitch_count = 0;
  event_ids = event.base.identity.event_id ∷ [];
}

start_batter : GameState → BatterStartEvent → CompileContext → Step
unfolding has_player missing_player
start_batter state event context =
    let p = event.payload in
    let batting = batting_side state.half in
    let fielding = opposite (batting_side state.half) in
    if not (has_player p.batter_id batting context)
    then (state, missing_player p.batter_id batting event.base DetailField.batter_id context)
    else if not (has_player p.pitcher_id fielding context)
    then (state, missing_player p.pitcher_id fielding event.base DetailField.pitcher_id context)
    else (
      record state {
        balls = 0;
        strikes = 0;
        active_plate_appearance = some (new_plate_appearance event);
        active_pitchers = set_pitcher fielding p.pitcher_id state.active_pitchers;
      },
      context,
    )

unfoldable pub apply_batter_start : GameState → BatterStartEvent → CompileContext → Step
unfolding restart_batter start_batter
apply_batter_start state event context =
    if leb 3 state.outs
    then (state, domain_finding event.base FindingCode.batter_start_after_three_outs context)
    else elim state.active_plate_appearance [
      | none ↦ start_batter state event context
      | some pa ↦ restart_batter pa state event context
    ]

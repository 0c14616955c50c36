-- ===== src/Compiler/PlatePlay.antt =====
-- `applyPlateResultPlay` and `applyIndependentRunnerPlay` of
-- packages/game-core/src/compiler/plate-play.ts.
use kbo_workbench.Prelude.{
  Bool, List, Option, String, [], any, false, if◌then◌else◌, leb, ltb, map, none, not, or_else,
  some, true, ℕ, ◌&&◌, ◌++◌, ◌-◌, ◌==◌, ◌||◌, ◌∷◌,
}
use kbo_workbench.Collections.Dict.{Dict, lookup}
use kbo_workbench.Collections.Sort.{sort_by}
use kbo_workbench.Compiler.Context.{CompileContext, push_plate_appearance, source_finding}
use kbo_workbench.Compiler.PlayMovements.{
  apply_movements_atomically, derive_batter_movement, explicit_movements,
}
use kbo_workbench.Compiler.Responsibility.{inherit_fielder_choice_responsibilities}
use kbo_workbench.Compiler.State.{append_plate_event}
use kbo_workbench.Compiler.Statistics.{
  is_intentional_walk, is_strikeout, is_walk, update_completed_lines,
}
use kbo_workbench.Contracts.Event.{
  EventId, Half, LedgerEventBase, PlateResult, PlateResultEvent, PlayerId, RunnerAdvanceEvent,
  StagingRelayEvent, base_of, event_id_of, same_half,
}
use kbo_workbench.Game.Findings.{FindingCode}
use kbo_workbench.Game.State.{
  BaseOccupant, CompiledRunnerMovement, GameState, PlateAppearance, PlateAppearanceSummary,
  PlateAppearanceTerminationReason, map_bases,
}
use kbo_workbench.Movement.Order.{order_play_movements}

-- `PlatePlayApplication`, which `EventApplication` repeats.
pub record EventApplication : Type 0 where
  pub relay_event_ids : List EventId
  pub relay_texts : List String
  pub movements : List CompiledRunnerMovement

-- What a handler returns: the rows and movements of the play, and the state and context that it
-- leaves behind.
pub record Applied : Type 0 where
  pub application : EventApplication
  pub state : GameState
  pub context : CompileContext

abbrev text_of : Option String → List String → List String
text_of none ts = ts
text_of (some t) ts = t ∷ ts

abbrev pub relay_texts_of : List StagingRelayEvent → List String
relay_texts_of [] = []
relay_texts_of (e ∷ es) = text_of (base_of e).relay_text (relay_texts_of es)

-- `rows.sort((left, right) => left.sequence - right.sequence)`
abbrev pub by_sequence : List StagingRelayEvent → List StagingRelayEvent
by_sequence rows = sort_by (λ a b. leb (base_of a).sequence (base_of b).sequence) rows

abbrev pub application_of : List StagingRelayEvent → List CompiledRunnerMovement → EventApplication
application_of rows ms = record {
  relay_event_ids = map event_id_of rows;
  relay_texts = relay_texts_of rows;
  movements = ms;
}

abbrev pub append_rows : List StagingRelayEvent → GameState → GameState
append_rows [] state = state
append_rows (e ∷ es) state = append_rows es (append_plate_event (event_id_of e) state)

abbrev is_other : PlateResult → Bool
is_other PlateResult.other = true
is_other _ = false

-- The pitcher who answers for a runner behind the inheritance.
abbrev inherit_movement : Dict PlayerId → CompiledRunnerMovement → CompiledRunnerMovement
inherit_movement d m = record m {
  responsible_pitcher_id = or_else (lookup m.runner_id d) m.responsible_pitcher_id;
}

abbrev inherit_occupant : Dict PlayerId → BaseOccupant → BaseOccupant
inherit_occupant d o = record o {
  responsible_pitcher_id = or_else (lookup o.runner_id d) o.responsible_pitcher_id;
}

abbrev pub inherit_base : Dict PlayerId → Option BaseOccupant → Option BaseOccupant
inherit_base d none = none
inherit_base d (some o) = some (inherit_occupant d o)

abbrev pub batting_score : GameState → ℕ
batting_score state = if same_half state.half Half.top then state.away_score else state.home_score

-- `resultBatterId` and `resultPitcherId`
abbrev pub result_batter : PlateResult → PlateAppearance → PlayerId
result_batter r pa =
    if is_strikeout r
    then or_else pa.strikeout_responsible_batter_id pa.current_batter_id
    else pa.current_batter_id

abbrev pub result_pitcher : PlateResult → PlateAppearance → PlayerId
result_pitcher r pa =
    if is_walk r || is_intentional_walk r
    then or_else pa.walk_responsible_pitcher_id pa.current_pitcher_id
    else pa.current_pitcher_id

abbrev pub completed_summary :
    GameState → PlateAppearance → PlateResultEvent → List EventId → PlateAppearanceSummary
completed_summary state pa event rows = record {
  start_event_id = pa.start_event_id;
  end_event_id = some event.base.identity.event_id;
  inning = state.inning;
  half = state.half;
  start_batter_id = pa.start_batter_id;
  batter_id = result_batter event.payload.result pa;
  start_pitcher_id = pa.start_pitcher_id;
  pitcher_id = result_pitcher event.payload.result pa;
  result = some event.payload.result;
  completed = true;
  termination_reason = PlateAppearanceTerminationReason.plate_result;
  actual_pitch_count = pa.actual_pitch_count;
  event_ids = rows;
}

-- The event ids of the active appearance behind the rows of the play.
abbrev pub active_event_ids : GameState → List EventId
active_event_ids state = elim state.active_plate_appearance [ none ↦ [] | some pa ↦ pa.event_ids ]

abbrev pub close_plate_appearance : GameState → GameState
close_plate_appearance state = record state {
  active_plate_appearance = none;
  balls = 0;
  strikes = 0;
}

-- The end of the handler, behind `applyMovementsAtomically`.
unfoldable pub finish_plate_play :
    PlateAppearance
    → PlateResultEvent
    → List StagingRelayEvent
    → Dict PlayerId
    → ℕ
    → List CompiledRunnerMovement
    → Bool × GameState × CompileContext
    → Applied
unfolding append_plate_event
finish_plate_play pa event rows inherited score_before placement (applied, state, context) =
    let inheriting = record state { bases = map_bases (inherit_base inherited) state.bases } in
    let listed = append_rows rows inheriting in
    let summary = completed_summary state pa event (active_event_ids listed) in
    let r = event.payload.result in
    if applied
    then record {
      application = application_of rows placement;
      state = close_plate_appearance listed;
      context =
          update_completed_lines event.payload (result_batter r pa) (result_pitcher r pa)
            (batting_score state - score_before) (push_plate_appearance summary context);
    }
    else record { application = application_of rows []; state = state; context = context }

-- The movements of the play in the order of the rows, with the inherited pitchers.
pub play_movements :
    PlateAppearance
    → PlateResultEvent
    → List RunnerAdvanceEvent
    → GameState
    → List CompiledRunnerMovement × Dict PlayerId
unfolding derive_batter_movement explicit_movements
play_movements pa event linked state =
    let r = event.payload.result in
    let raw =
      explicit_movements state.bases pa.current_pitcher_id linked
        (derive_batter_movement event (result_pitcher r pa) ∷ []) in
    let inherited =
      inherit_fielder_choice_responsibilities state.bases r raw pa.current_pitcher_id in
    (map (inherit_movement inherited) raw, inherited)

unfoldable pub complete_plate_play :
    PlateAppearance
    → PlateResultEvent
    → List RunnerAdvanceEvent
    → List StagingRelayEvent
    → GameState
    → CompileContext
    → Applied
unfolding play_movements finish_plate_play
complete_plate_play pa event linked rows state context =
    let (chronological, inherited) = play_movements pa event linked state in
    let placement = order_play_movements state.bases chronological in
    finish_plate_play pa event rows inherited (batting_score state) placement (
      apply_movements_atomically state event.base placement event.payload.outs_recorded context
        chronological)

-- The findings of a walk without four balls and a strikeout without three strikes.
unfoldable pub check_count : PlateResultEvent → GameState → CompileContext → CompileContext
check_count event state context =
    let r = event.payload.result in
    let walked =
      if is_walk r && not (state.balls == 4)
      then source_finding event.base FindingCode.walk_without_four_balls context
      else context in
    if is_strikeout r && not (state.strikes == 3)
    then source_finding event.base FindingCode.strikeout_without_three_strikes walked
    else walked

abbrev rejected :
    List StagingRelayEvent → FindingCode → LedgerEventBase → GameState → CompileContext → Applied
rejected rows c event state context = record {
  application = application_of rows [];
  state = state;
  context = source_finding event c context;
}

unfoldable pub plate_play_of :
    PlateAppearance
    → PlateResultEvent
    → List RunnerAdvanceEvent
    → List StagingRelayEvent
    → GameState
    → CompileContext
    → Applied
unfolding check_count
plate_play_of pa event linked rows state context =
    let p = event.payload in
    let checked = check_count event state context in
    if is_other p.result
    then rejected rows FindingCode.unresolved_plate_result event.base state context
    else if not (p.batter_id == pa.current_batter_id)
    then rejected rows FindingCode.result_batter_mismatch event.base state context
    else if not (p.pitcher_id == pa.current_pitcher_id)
    then rejected rows FindingCode.result_pitcher_mismatch event.base state context
    else if any (λ e. ltb e.payload.from_base 1) linked
    then rejected rows FindingCode.duplicate_batter_advance event.base state checked
    else complete_plate_play pa event linked rows state checked

unfoldable pub apply_plate_result_play :
    GameState
    → PlateResultEvent
    → List RunnerAdvanceEvent
    → List StagingRelayEvent
    → CompileContext
    → Applied
unfolding plate_play_of
apply_plate_result_play state event linked attached context =
    let rows = by_sequence (
      StagingRelayEvent.plate_result event
      ∷ (map StagingRelayEvent.runner_advance linked ++ attached)) in
    elim state.active_plate_appearance [
      | none ↦ rejected rows FindingCode.result_without_plate_appearance event.base state context
      | some pa ↦ plate_play_of pa event linked rows state context
    ]

-- ===== src/Compiler/EventTransition.antt =====
-- `applyPitch`, `applySubstitution` and `applyLedgerEvent` of
-- packages/game-core/src/compiler/event-transition.ts.
use mathlib.Core.Option
use kbo_workbench.Prelude.{
  Bool, List, Option, [], false, if◌then◌else◌, leb, ltb, none, not, some, true, ◌&&◌, ◌+◌, ◌==◌,
  ◌||◌, ◌∷◌,
}
use kbo_workbench.Compiler.Context.{CompileContext, add_finding, domain_finding, source_finding}
use kbo_workbench.Compiler.EventHandlers.{
  Step, apply_batter_start, apply_half_start, change_batter, half_details, has_player,
  missing_player,
}
use kbo_workbench.Compiler.IndependentPlay.{apply_independent_runner_play}
use kbo_workbench.Compiler.PlatePlay.{Applied, application_of, apply_plate_result_play}
use kbo_workbench.Compiler.State.{append_plate_event, batting_side, opposite}
use kbo_workbench.Compiler.Statistics.{one_if, pitcher_line}
use kbo_workbench.Contracts.Event.{
  PitchEvent, PlayerId, RunnerAdvanceContext, RunnerAdvanceEvent, StagingRelayEvent, Substitution,
  SubstitutionEvent, SubstitutionRole, base_of, same_half, same_side,
}
use kbo_workbench.Game.Findings.{DetailField, DetailValue, FindingCategory, FindingCode}
use kbo_workbench.Game.Lines.{PitcherLine}
use kbo_workbench.Game.State.{BaseOccupant, Bases, GameState, PlateAppearance, set_pitcher}
use kbo_workbench.Rules.Counts.{
  CountTransition, apply_pitch_call, is_walk_transferred_to_previous_pitcher,
}

abbrev differs : Option PlayerId → PlayerId → Bool
differs none p = false
differs (some q) p = not (q == p)

abbrev pub count_pitch : CountTransition → PitcherLine → PitcherLine
count_pitch next line = record line {
  pitches = line.pitches + 1;
  strikes = line.strikes + one_if next.is_pitching_strike;
}

-- The count, and for an actual pitch the pitch counts of the appearance and of the pitcher.
unfoldable pub record_pitch : PlateAppearance → CountTransition → GameState → CompileContext → Step
record_pitch pa next state context =
    let counted = record state { balls = next.balls; strikes = next.strikes } in
    if next.is_actual_pitch
    then (
      record counted {
        active_plate_appearance =
            some (record pa { actual_pitch_count = pa.actual_pitch_count + 1 });
      },
      pitcher_line pa.current_pitcher_id (count_pitch next) context,
    )
    else (counted, context)

pitch_to : PlateAppearance → GameState → PitchEvent → CompileContext → Step
unfolding record_pitch
pitch_to pa state event context =
    let p = event.payload in
    let next = apply_pitch_call state.balls state.strikes p.call in
    if differs p.batter_id pa.current_batter_id
    then (state, source_finding event.base FindingCode.pitch_batter_mismatch context)
    else if differs p.pitcher_id pa.current_pitcher_id
    then (state, source_finding event.base FindingCode.pitch_pitcher_mismatch context)
    else if leb 4 state.balls || leb 3 state.strikes
    then (state, source_finding event.base FindingCode.pitch_after_terminal_count context)
    else if ltb 4 next.balls || ltb 3 next.strikes
    then (state, domain_finding event.base FindingCode.invalid_terminal_count context)
    else record_pitch pa next state context

unfoldable pub apply_pitch : GameState → PitchEvent → CompileContext → Step
unfolding pitch_to
apply_pitch state event context = elim state.active_plate_appearance [
  | none ↦ (state, source_finding event.base FindingCode.pitch_without_plate_appearance context)
  | some pa ↦ pitch_to pa state event context
]

-- A pitcher comes in: the walk stays with the one who leaves at the counts of the rule.
abbrev change_pitcher : GameState → PlayerId → PlateAppearance → PlateAppearance
change_pitcher state p pa = record pa {
  walk_responsible_pitcher_id = some (
      if is_walk_transferred_to_previous_pitcher state.balls state.strikes
      then pa.current_pitcher_id
      else p);
  current_pitcher_id = p;
}

substitute_pitcher : GameState → Substitution → GameState
substitute_pitcher state p =
    let fielding = same_side p.side (opposite (batting_side state.half)) in
    record state {
      active_pitchers = set_pitcher p.side p.incoming_player_id state.active_pitchers;
      active_plate_appearance =
          if fielding
          then Option.map (change_pitcher state p.incoming_player_id) state.active_plate_appearance
          else state.active_plate_appearance;
    }

-- A batter comes in for the side at bat.
substitute_batter : GameState → Substitution → GameState
substitute_batter state p =
    if same_side p.side (batting_side state.half)
    then record state {
      active_plate_appearance =
          Option.map (change_batter state.strikes p.incoming_player_id)
            state.active_plate_appearance;
    }
    else state

abbrev replace_runner : PlayerId → BaseOccupant → BaseOccupant
replace_runner p o = record o { runner_id = p }

abbrev stands_here : PlayerId → Option BaseOccupant → Bool
stands_here p none = false
stands_here p (some o) = o.runner_id == p

-- `state.bases.findIndex(...)` and the write at that index: the first base of the runner.
abbrev replace_on_bases : PlayerId → PlayerId → Bases → Option Bases
replace_on_bases outgoing incoming b =
    if stands_here outgoing b.first_base
    then some (record b { first_base = Option.map (replace_runner incoming) b.first_base })
    else if stands_here outgoing b.second_base
    then some (record b { second_base = Option.map (replace_runner incoming) b.second_base })
    else if stands_here outgoing b.third_base
    then some (record b { third_base = Option.map (replace_runner incoming) b.third_base })
    else none

abbrev runner_replaced : Option Bases → GameState → SubstitutionEvent → CompileContext → Step
runner_replaced none state event context =
    (state, domain_finding event.base FindingCode.substitution_runner_not_on_base context)
runner_replaced (some b) state event context = (record state { bases = b }, context)

substitute_runner : Option PlayerId → GameState → SubstitutionEvent → CompileContext → Step
substitute_runner none state event context = (state, context)
substitute_runner (some outgoing) state event context =
    runner_replaced (replace_on_bases outgoing event.payload.incoming_player_id state.bases) state
      event context

substitute : SubstitutionRole → GameState → SubstitutionEvent → CompileContext → Step
unfolding substitute_pitcher substitute_batter substitute_runner
substitute SubstitutionRole.pitcher state event context =
    (substitute_pitcher state event.payload, context)
substitute SubstitutionRole.batter state event context =
    (substitute_batter state event.payload, context)
substitute SubstitutionRole.runner state event context =
    substitute_runner event.payload.outgoing_player_id state event context
substitute SubstitutionRole.fielder state event context = (state, context)

unfoldable pub apply_substitution : GameState → SubstitutionEvent → CompileContext → Step
unfolding substitute has_player missing_player
apply_substitution state event context =
    let p = event.payload in
    if has_player p.incoming_player_id p.side context
    then substitute p.role state event context
    else (
      state,
      missing_player p.incoming_player_id p.side event.base DetailField.incoming_player_id context,
    )

-- `simple()` with what the handler leaves behind.
abbrev simple : StagingRelayEvent → Step → Applied
simple event (state, context) = record {
  application = application_of (event ∷ []) [];
  state = state;
  context = context;
}

-- The rows that need an active half inning.
abbrev pub needs_half : StagingRelayEvent → Bool
needs_half (StagingRelayEvent.half_inning_start b) = false
needs_half (StagingRelayEvent.administrative e) = false
needs_half (StagingRelayEvent.review e) = false
needs_half (StagingRelayEvent.unresolved e) = false
needs_half _ = true

-- `[event]` where the group of the leader is empty.
abbrev pub group_or_self : List RunnerAdvanceEvent → RunnerAdvanceEvent → List RunnerAdvanceEvent
group_or_self [] event = event ∷ []
group_or_self (e ∷ es) event = e ∷ es

-- The rows that the play index attaches to an event: the arguments of `applyLedgerEvent`.
pub record Attached : Type 0 where
  pub linked_runners : List RunnerAdvanceEvent
  pub attached_non_state : List StagingRelayEvent
  pub independent_runners : List RunnerAdvanceEvent
  pub independent_non_state : List StagingRelayEvent

unfoldable pub runner_advance_of :
    RunnerAdvanceContext → GameState → RunnerAdvanceEvent → Attached → CompileContext → Applied
runner_advance_of (RunnerAdvanceContext.plate_result t) state event a context =
    simple (StagingRelayEvent.runner_advance event) (state, context)
runner_advance_of (RunnerAdvanceContext.independent r) state event a context =
    apply_independent_runner_play state event (group_or_self a.independent_runners event)
      a.independent_non_state context

-- The `switch` on the kind of the row.
unfoldable pub dispatch_event : GameState → StagingRelayEvent → Attached → CompileContext → Applied
unfolding runner_advance_of
dispatch_event state (StagingRelayEvent.half_inning_start b) a context =
    simple (StagingRelayEvent.half_inning_start b) (apply_half_start state b context)
dispatch_event state (StagingRelayEvent.batter_start e) a context =
    simple (StagingRelayEvent.batter_start e) (apply_batter_start state e context)
dispatch_event state (StagingRelayEvent.pitch e) a context =
    simple (StagingRelayEvent.pitch e) (apply_pitch state e context)
dispatch_event state (StagingRelayEvent.plate_result e) a context =
    apply_plate_result_play state e a.linked_runners a.attached_non_state context
dispatch_event state (StagingRelayEvent.runner_advance e) a context =
    runner_advance_of e.payload.context state e a context
dispatch_event state (StagingRelayEvent.substitution e) a context =
    simple (StagingRelayEvent.substitution e) (apply_substitution state e context)
dispatch_event state (StagingRelayEvent.review e) a context =
    simple (StagingRelayEvent.review e) (state, context)
dispatch_event state (StagingRelayEvent.administrative e) a context =
    simple (StagingRelayEvent.administrative e) (state, context)
dispatch_event state (StagingRelayEvent.unresolved e) a context =
    simple (StagingRelayEvent.unresolved e) (
      state,
      add_finding e.base FindingCode.unresolved_relay_row FindingCategory.source
          (record {
            field = DetailField.source_type;
            expected = none;
            actual = some (DetailValue.text e.payload.source_type);
          }
            ∷ [])
          context,
    )

unfoldable pub apply_ledger_event :
    GameState → StagingRelayEvent → Attached → CompileContext → Applied
unfolding dispatch_event
apply_ledger_event state event a context =
    let b = base_of event in
    if needs_half event && not state.half_active
    then simple event (state, domain_finding b FindingCode.event_without_half context)
    else if needs_half event && not (state.inning == b.inning && same_half state.half b.half)
    then simple event (
      state,
      add_finding b FindingCode.event_half_mismatch FindingCategory.domain
          (half_details state.inning state.half b) context,
    )
    else dispatch_event (append_plate_event b.identity.event_id state) event a context

-- ===== src/Compiler/RowChecks.antt =====
-- What the walk of packages/game-core/src/reducer.ts checks for a row: the findings of the play
-- index, whether the row is refused, and the comparison with the observed state behind it.
use kbo_workbench.Prelude.{
  Bool, List, Option, [], all, any, contains, false, filter, if◌then◌else◌, is_value, none, not,
  some, true, ℕ, ◌&&◌, ◌++◌, ◌==◌, ◌||◌, ◌∷◌,
}
use kbo_workbench.Compiler.Context.{
  CompileContext, detail, finding_for, push_finding, source_finding,
}
use kbo_workbench.Compiler.EventTransition.{Attached}
use kbo_workbench.Compiler.Observed.{
  CompareOptions, compare_independent_play_observed_state, compare_observed_state,
  compare_plate_play_observed_state,
}
use kbo_workbench.Compiler.PlayIndex.{PlayIndex, get_list, is_independent}
use kbo_workbench.Compiler.Replay.{has_result}
use kbo_workbench.Contracts.Event.{
  EventId, ObservedState, PitchCall, PitchEvent, StagingRelayEvent, base_of, event_id_of,
}
use kbo_workbench.Game.Findings.{
  DetailField, DetailValue, Finding, FindingCategory, FindingCode, FindingSeverity, ObservedField,
  is_blocking, is_source_half_incomplete,
}
use kbo_workbench.Game.State.{GameState}

-- What the walk reads besides the row: the play index and the two sets of pitches.
pub record Links : Type 0 where
  pub index : PlayIndex
  pub hit_by_pitch_pitches : List EventId
  pub bunt_strikeout_pitches : List EventId

-- `cloneContext(context)` with the findings of the play index, and with the finding of a play
-- that the index holds for invalid.
unfoldable pub local_context : Links → StagingRelayEvent → CompileContext → CompileContext
local_context links event context =
    let id = event_id_of event in
    let linked = record context {
      findings = context.findings ++ get_list id links.index.finding_by_event;
    } in
    if has_result (λ r. true) event && contains id links.index.invalid_play_leader_ids
    then source_finding (base_of event) FindingCode.invalid_plate_result_link linked
    else linked

abbrev pub attached_rows : Links → EventId → Attached
attached_rows links id = record {
  linked_runners = get_list id links.index.linked_by_result;
  attached_non_state = get_list id links.index.non_state_by_result;
  independent_runners = get_list id links.index.independent_by_leader;
  independent_non_state = get_list id links.index.non_state_by_independent_leader;
}

abbrev pub is_blocking_finding : Finding → Bool
is_blocking_finding f = is_blocking f.severity

abbrev is_half_start : StagingRelayEvent → Bool
is_half_start (StagingRelayEvent.half_inning_start b) = true
is_half_start _ = false

-- A blocking finding refuses the row, but for a half inning that starts behind an incomplete one.
unfoldable pub row_applied : StagingRelayEvent → List Finding → Bool
row_applied event fresh =
    not (any is_blocking_finding fresh)
    || (is_half_start event
        && all (λ f. is_source_half_incomplete f.code) (filter is_blocking_finding fresh))

abbrev observed_strikes : Option ObservedState → Option ℕ
observed_strikes none = none
observed_strikes (some e) = e.strikes

-- `terminalBuntDisplay`
pub terminal_bunt_display : Links → GameState → GameState → PitchEvent → Bool
terminal_bunt_display links before after e =
    before.strikes == 2
    && after.strikes == 3
    && is_value (observed_strikes e.base.observed_state_after) 2
    && contains e.base.identity.event_id links.bunt_strikeout_pitches

abbrev pub bunt_warning : PitchEvent → CompileContext → Finding
bunt_warning e context =
    record (finding_for context e.base FindingCode.source_terminal_bunt_count_display
      FindingCategory.source
      (detail (DetailField.observed ObservedField.strikes) (DetailValue.number 2)
          (DetailValue.number 3)
        ∷ [])) { severity = FindingSeverity.warning }

abbrev is_hit_call : PitchCall → Bool
is_hit_call PitchCall.hit_by_pitch = true
is_hit_call _ = false

abbrev pub pitch_options : Links → PitchEvent → Bool → CompareOptions
pitch_options links e bunt = record {
  include_count = true;
  include_balls =
      not (is_hit_call e.payload.call)
      && not (contains e.base.identity.event_id links.hit_by_pitch_pitches);
  include_strikes = not bunt;
  include_bases = false;
  include_outs = false;
  include_score = false;
}

compare_pitch : Links → GameState → GameState → PitchEvent → CompileContext → CompileContext
unfolding terminal_bunt_display
compare_pitch links before after e context =
    let bunt = terminal_bunt_display links before after e in
    compare_observed_state after e.base (pitch_options links e bunt)
      (if bunt then push_finding (bunt_warning e context) context else context)

-- The comparison with the observed state behind a row that was applied.
unfoldable pub compare_row :
    Links → GameState → GameState → StagingRelayEvent → CompileContext → CompileContext
unfolding compare_pitch
compare_row links before after (StagingRelayEvent.plate_result e) context =
    compare_plate_play_observed_state after e
      (get_list e.base.identity.event_id links.index.linked_by_result) context
compare_row links before after (StagingRelayEvent.runner_advance e) context =
    if is_independent e.payload.context
    then compare_independent_play_observed_state after e
        (get_list e.base.identity.event_id links.index.independent_by_leader) context
    else context
compare_row links before after (StagingRelayEvent.pitch e) context =
    compare_pitch links before after e context
compare_row links before after _ context = context

-- ===== src/Compiler/FinalScore.antt =====
-- `compareFinalObservedScore` of packages/game-core/src/compiler/observed-state-validation.ts.
use kbo_workbench.Prelude.{
  Bool, List, Option, [], any, false, if◌then◌else◌, is_some, none, not, or_option, some, true,
  ◌&&◌, ◌==◌, ◌∷◌,
}
use kbo_workbench.Compiler.Context.{CompileContext}
use kbo_workbench.Compiler.Observed.{CompareOptions, all_options, compare_observed_state, is_final}
use kbo_workbench.Compiler.Statistics.{is_home_run}
use kbo_workbench.Contracts.Event.{
  IdentityKind, ObservedState, StagingRelayEvent, StagingRelayEventKind, base_of,
}
use kbo_workbench.Game.State.{GameState}

abbrev suspects_score : Option StagingRelayEventKind → Bool
suspects_score (some StagingRelayEventKind.runner_advance) = true
suspects_score (some StagingRelayEventKind.plate_result) = true
suspects_score _ = false

event_can_change_score : StagingRelayEvent → Bool
event_can_change_score (StagingRelayEvent.runner_advance e) = e.payload.to_base == 4
event_can_change_score (StagingRelayEvent.plate_result e) = is_home_run e.payload.result
event_can_change_score (StagingRelayEvent.unresolved e) = suspects_score e.payload.suspected_kind
event_can_change_score _ = false

abbrev is_source : IdentityKind → Bool
is_source IdentityKind.source = true
is_source IdentityKind.manual = false

abbrev has_both_scores : Option ObservedState → Bool
has_both_scores none = false
has_both_scores (some e) = is_some e.away_score && is_some e.home_score

abbrev is_score_candidate : StagingRelayEvent → Bool
is_score_candidate e =
    is_source (base_of e).identity.kind && has_both_scores (base_of e).observed_state_after

abbrev source_can_score : StagingRelayEvent → Bool
source_can_score e = is_source (base_of e).identity.kind && event_can_change_score e

-- The last candidate with the rows behind it: the search from the end of the document.
pub last_candidate : List StagingRelayEvent → Option (StagingRelayEvent × List StagingRelayEvent)
last_candidate [] = none
last_candidate (e ∷ es) =
    or_option (last_candidate es) (if is_score_candidate e then some (e, es) else none)

abbrev pub score_options : CompareOptions
score_options = record all_options {
  include_count = false;
  include_bases = false;
  include_outs = false;
}

unfoldable pub compare_final_observed_score : GameState → CompileContext → CompileContext
unfolding last_candidate compare_observed_state event_can_change_score
compare_final_observed_score s context =
    if not (is_final context.document.metadata.status)
    then context
    else elim (last_candidate context.document.events) [
      | none ↦ context
      | some (e, later) ↦
          if any source_can_score later
          then context
          else compare_observed_state s (base_of e) score_options context
    ]

-- ===== src/Tests/Compiler.antt =====
-- The compiler on the sample ledger.
use kbo_workbench.Prelude.{[], false, length, map, none, refl, some, true, ℕ, ◌+◌, ◌≡◌, ◌⊎◌}
use kbo_workbench.Compiler.Balance.{IsBalanced}
use kbo_workbench.Compiler.BalancedPlays.{apply_ledger_event-IsBalanced}
use kbo_workbench.Compiler.Books.{BothSums, update_completed_lines-BothSums}
use kbo_workbench.Compiler.Context.{CompileContext}
use kbo_workbench.Compiler.EventTransition.{Attached, apply_ledger_event}
use kbo_workbench.Compiler.Finish.{compile_ledger}
use kbo_workbench.Compiler.HitBases.{count_for_batter-total_bases, total_bases}
use kbo_workbench.Compiler.Ledger.{apply_row, initial_context, links_of, walk_document}
use kbo_workbench.Compiler.Outcome.{compile_ledger-IsSound}
use kbo_workbench.Compiler.Reviews.{build_play_index}
use kbo_workbench.Compiler.State.{initial_state}
use kbo_workbench.Compiler.Statistics.{count_for_batter, new_batter_line, update_completed_lines}
use kbo_workbench.Compiler.Sums.{
  batter_sums, batter_totals, more_results, pitcher_sums, pitcher_totals,
}
use kbo_workbench.Compiler.Timeline.{Chain, walk_document-Chain, walk_document-frames}
use kbo_workbench.Compiler.ValidPlays.{apply_ledger_event-IsValid}
use kbo_workbench.Compiler.Validity.{IsValid, initial_state-IsValid}
use kbo_workbench.Compiler.Walk.{IsSound}
use kbo_workbench.Contracts.Event.{PlateResult, Side, StagingRelayEvent, event_id_of}
use kbo_workbench.Rules.Results.{is_hit, required_batter_destination}
use kbo_workbench.Tests.Samples.{batter_row, result_event, row, sample_document}

sample_scores : ℕ × ℕ × ℕ × ℕ
sample_scores =
    let r = compile_ledger sample_document in
    (r.state.away_score, r.state.home_score, length r.context.findings, length r.frames)

-- The walk of the sample is sound, chained and complete.
compile_ledger-IsSound_example : IsSound (compile_ledger sample_document)
compile_ledger-IsSound_example = compile_ledger-IsSound sample_document

walk_document-Chain_example :
    Chain initial_state (walk_document sample_document).plays (walk_document sample_document).state
walk_document-Chain_example = walk_document-Chain sample_document

walk_document-frames_example :
    map (λ f. f.event_id) (walk_document sample_document).frames
    ≡ map event_id_of sample_document.events
walk_document-frames_example = walk_document-frames sample_document

abbrev first_context : CompileContext
first_context = initial_context sample_document

abbrev nothing_attached : Attached
nothing_attached = record {
  linked_runners = [];
  attached_non_state = [];
  independent_runners = [];
  independent_non_state = [];
}

-- The first row starts the top of the first inning.
apply_ledger_event-IsValid_example :
    IsValid
      (apply_ledger_event initial_state
        (StagingRelayEvent.half_inning_start (row 100 0))
        nothing_attached
        first_context).state
apply_ledger_event-IsValid_example =
    apply_ledger_event-IsValid initial_state (StagingRelayEvent.half_inning_start (row 100 0))
      nothing_attached first_context initial_state-IsValid

first_context-IsBalanced : IsBalanced initial_state first_context
unfolding initial_state initial_context batter_totals pitcher_totals
first_context-IsBalanced = record { scored = refl; agree = refl; turns = refl }

apply_ledger_event-IsBalanced_example :
    IsBalanced
      (apply_ledger_event initial_state
        (StagingRelayEvent.half_inning_start (row 100 0))
        nothing_attached
        first_context).state
      (apply_ledger_event initial_state
        (StagingRelayEvent.half_inning_start (row 100 0))
        nothing_attached
        first_context).context
apply_ledger_event-IsBalanced_example =
    apply_ledger_event-IsBalanced initial_state (StagingRelayEvent.half_inning_start (row 100 0))
      nothing_attached first_context first_context-IsBalanced

update_completed_lines-BothSums_example :
    BothSums
      (update_completed_lines
        (result_event 103 3 1 PlateResult.single).payload
        1
        50
        0
        first_context)
      (more_results PlateResult.single (batter_sums first_context))
      (more_results PlateResult.single (pitcher_sums first_context))
update_completed_lines-BothSums_example =
    update_completed_lines-BothSums (result_event 103 3 1 PlateResult.single).payload 1 50 0
      first_context

-- A batter before the first half inning is refused.
batter_row-refused :
    (apply_row (links_of sample_document) initial_state first_context (batter_row 101 1 1)).applied
    ≡ false
unfolding apply_row initial_context apply_ledger_event initial_state links_of build_play_index
batter_row-refused = refl

count_for_batter-total_bases_example :
    let line = new_batter_line 1 Side.away in
    let next = count_for_batter PlateResult.triple none line in
    ((is_hit PlateResult.triple ≡ true)
      × (next.at_bats ≡ 0 + 1)
      × ((n : ℕ) × (required_batter_destination PlateResult.triple ≡ some n)
          × (total_bases next ≡ 0 + n)))
    ⊎ ((is_hit PlateResult.triple ≡ false)
        × (total_bases next ≡ 0)
        × ((required_batter_destination PlateResult.triple ≡ none)
            ⊎ (required_batter_destination PlateResult.triple ≡ some 1)))
count_for_batter-total_bases_example =
    count_for_batter-total_bases PlateResult.triple none (new_batter_line 1 Side.away)

-- ===== src/Tests/Reducer.antt =====
-- Witnesses for the compiler as a whole: a single with its tracking candidates and its records.
use kbo_workbench.Prelude.{[], any, false, none, refl, some, ◌↔◌, ◌∷◌, ◌≡◌}
use kbo_workbench.Compiler.EventHandlers.{apply_batter_start, apply_half_start}
use kbo_workbench.Compiler.EventTransition.{apply_ledger_event, apply_pitch}
use kbo_workbench.Compiler.FinalScore.{compare_final_observed_score}
use kbo_workbench.Compiler.Finish.{compile_ledger}
use kbo_workbench.Compiler.Observed.{compare_plate_play_observed_state}
use kbo_workbench.Compiler.Official.{compare_official_records}
use kbo_workbench.Compiler.PlatePlay.{apply_plate_result_play, complete_plate_play}
use kbo_workbench.Compiler.PlayMovements.{apply_movements_atomically}
use kbo_workbench.Compiler.Reviews.{build_play_index}
use kbo_workbench.Compiler.RowChecks.{is_blocking_finding}
use kbo_workbench.Compiler.State.{append_plate_event}
use kbo_workbench.Compiler.Statistics.{pitcher_line, update_completed_lines}
use kbo_workbench.Contracts.Canonical.{IsCanonical}
use kbo_workbench.Contracts.Document.{StagingGameDocumentV2}
use kbo_workbench.Contracts.Event.{PitchCall, PlateResult, Side, StagingRelayEvent}
use kbo_workbench.Contracts.Records.{OfficialBatterRecord, OfficialPitcherRecord}
use kbo_workbench.Contracts.Semantics.{validate_staging_game_document_v2_semantics}
use kbo_workbench.Contracts.Tracking.{TrackingResolution}
use kbo_workbench.Contracts.Validated.{validate_semantics-IsCanonical}
use kbo_workbench.Movement.Order.{next_movement, order_play_movements, predecessors}
use kbo_workbench.Movement.Transition.{transition_movements}
use kbo_workbench.Reducer.Accepted.{IsAccepted, compile_staging_game_document_v2-IsAccepted}
use kbo_workbench.Reducer.Compile.{compile_document, compile_staging_game_document_v2, compiled}
use kbo_workbench.Reducer.Output.{IsReport, compile_document-IsReport}
use kbo_workbench.Rules.Counts.{apply_pitch_call}
use kbo_workbench.Rules.Results.{is_at_bat, is_hit, required_batter_destination}
use kbo_workbench.Tests.Samples.{
  batter_row, candidate, pitch_event, result_event, row, sample_document,
}
use kbo_workbench.Validation.Adds.{is_blocked}
use kbo_workbench.Validation.Linked.{apply_if}
use kbo_workbench.Validation.OfficialAgreement.{RecordsAgree, compare_official_records-agree}
use kbo_workbench.Validation.Tracking.{same_fingerprint}

abbrev single_record : OfficialBatterRecord
single_record = record {
  player_id = 1;
  side = Side.away;
  plate_appearances = some 1;
  at_bats = 1;
  runs = 0;
  hits = 1;
  doubles = some 0;
  triples = none;
  home_runs = 0;
  runs_batted_in = 0;
  walks = 0;
  intentional_walks = none;
  hit_by_pitch = none;
  strikeouts = 0;
  sacrifice_bunts = none;
  sacrifice_flies = none;
}

-- A pitcher of no line, with nothing but earned runs.
abbrev idle_record : OfficialPitcherRecord
idle_record = record {
  player_id = 51;
  side = Side.home;
  batters_faced = 0;
  outs_recorded = 0;
  hits = 0;
  runs = 0;
  earned_runs = 1;
  walks = 0;
  intentional_walks = none;
  hit_by_pitch = 0;
  strikeouts = 0;
  pitches = none;
  strikes = none;
}

abbrev pub accepted_document : StagingGameDocumentV2
accepted_document = record sample_document {
  events =
      StagingRelayEvent.half_inning_start (row 100 0)
      ∷ batter_row 101 1 1
      ∷ StagingRelayEvent.pitch (pitch_event 102 2 PitchCall.in_play)
      ∷ StagingRelayEvent.plate_result (result_event 103 3 1 PlateResult.single)
      ∷ [];
  tracking_candidates =
      candidate 1 (TrackingResolution.linked 102)
      ∷ record (candidate 2 (TrackingResolution.duplicate 1)) { sequence = 1 }
      ∷ [];
  official_records = record { batters = single_record ∷ []; pitchers = idle_record ∷ [] };
}

pub accepted_document-clean : validate_staging_game_document_v2_semantics accepted_document ≡ []
unfolding validate_staging_game_document_v2_semantics
accepted_document-clean = refl

accepted_document-compiled :
    compile_staging_game_document_v2 accepted_document
    ≡ compiled (compile_document accepted_document)
unfolding compile_staging_game_document_v2 validate_staging_game_document_v2_semantics
accepted_document-compiled = refl

accepted_document-unblocked :
    any is_blocking_finding (compile_document accepted_document).findings ≡ false
unfolding compile_document apply_if same_fingerprint apply_ledger_event apply_half_start
    append_plate_event build_play_index apply_batter_start compare_final_observed_score apply_pitch
    apply_pitch_call pitcher_line apply_plate_result_play complete_plate_play
    apply_movements_atomically transition_movements order_play_movements next_movement predecessors
    required_batter_destination update_completed_lines compare_plate_play_observed_state is_hit
    is_at_bat
accepted_document-unblocked = refl

compile_staging_game_document_v2-IsAccepted_example :
    IsAccepted accepted_document (compile_document accepted_document)
compile_staging_game_document_v2-IsAccepted_example =
    compile_staging_game_document_v2-IsAccepted accepted_document
      (compile_document accepted_document) accepted_document-compiled accepted_document-unblocked

compile_document-IsReport_example : IsReport accepted_document (compile_document accepted_document)
compile_document-IsReport_example = compile_document-IsReport accepted_document

-- The comparison of the official records with the lines of the ledger.
records_compared :
    is_blocked (compare_official_records (compile_ledger accepted_document).context) ≡ false
unfolding compare_official_records compile_ledger apply_ledger_event apply_half_start
    append_plate_event build_play_index apply_batter_start compare_final_observed_score apply_pitch
    apply_pitch_call pitcher_line apply_plate_result_play complete_plate_play
    apply_movements_atomically transition_movements order_play_movements next_movement predecessors
    required_batter_destination update_completed_lines compare_plate_play_observed_state is_hit
    is_at_bat
records_compared = refl

compare_official_records-agree_example :
    RecordsAgree
      (compile_ledger accepted_document).context.document
      (compile_ledger accepted_document).context
compare_official_records-agree_example =
    compare_official_records-agree (compile_ledger accepted_document).context records_compared

validate_semantics-IsCanonical_example :
    (validate_staging_game_document_v2_semantics accepted_document ≡ [])
    ↔ IsCanonical accepted_document
validate_semantics-IsCanonical_example = validate_semantics-IsCanonical accepted_document

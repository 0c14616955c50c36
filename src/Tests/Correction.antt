-- ===== src/Tests/Correction.antt =====
-- Witnesses for the corrections: a short document with a linked pitch and a duplicate of it.
use kbo_workbench.Prelude.{
  List, [], all, arith, count, length, map, none, refl, some, true, ℕ, ◌+◌, ◌-◌, ◌∷◌, ◌≡◌,
}
use kbo_workbench.Compiler.State.{initial_state}
use kbo_workbench.Contracts.Canonical.{
  IsCanonical, IsCanonicalRow, IsCanonicalRow-iff, all-All, is_canonical_row,
}
use kbo_workbench.Contracts.Document.{StagingGameDocumentV2}
use kbo_workbench.Contracts.Event.{
  IdentityKind, PitchCall, PlateResult, StagingRelayEvent, event_id_of,
}
use kbo_workbench.Contracts.Semantics.{
  ContractIssueCode, EventField, IssuePath, allows_batted_ball,
  validate_staging_game_document_v2_semantics,
}
use kbo_workbench.Contracts.Text.{trim}
use kbo_workbench.Contracts.Tracking.{TrackingResolution}
use kbo_workbench.Contracts.Validated.{validate_semantics-IsCanonical}
use kbo_workbench.Correction.Batch.{add_event-delete_event}
use kbo_workbench.Correction.Commands.{
  AtomicCorrectionCommand, apply_atomic, apply_batch, apply_correction, is_pitch, resequence,
}
use kbo_workbench.Correction.Contexts.{follow_stable_tracking_plate_appearance_contexts}
use kbo_workbench.Correction.Decoded.{apply_correction-IsWellFormed, apply_correction_accepted}
use kbo_workbench.Correction.Links.{IsWellFormed}
use kbo_workbench.Correction.Preserve.{apply_atomic-IsWellFormed}
use kbo_workbench.Correction.Preview.{
  CorrectionPreview, PreviewText, build_correction_preview, build_correction_preview-balance,
  moved_by, times,
}
use kbo_workbench.Correction.RowLaws.{count-move_row}
use kbo_workbench.Correction.Rows.{
  Corrected, CorrectionError, draft, move_row, thrown, with_base, with_events,
}
use kbo_workbench.Correction.Tracking.{exclude_tracking_for_pitch}
use kbo_workbench.Game.Findings.{Finding, FindingCategory, FindingCode, FindingSeverity}
use kbo_workbench.Reducer.Compile.{ReplayResult}
use kbo_workbench.Tests.Samples.{
  batter_row, candidate, pitch_event, result_event, row, sample_document,
}

abbrev tracked_document : StagingGameDocumentV2
tracked_document = record sample_document {
  events =
      batter_row 101 0 1
      ∷ StagingRelayEvent.pitch (pitch_event 102 1 PitchCall.in_play)
      ∷ StagingRelayEvent.plate_result (result_event 103 2 1 PlateResult.single)
      ∷ [];
  tracking_candidates =
      candidate 1 (TrackingResolution.linked 102)
      ∷ record (candidate 2 (TrackingResolution.duplicate 1)) { sequence = 1 }
      ∷ [];
}

-- A row that is added by hand.
abbrev manual_row : StagingRelayEvent
manual_row = StagingRelayEvent.review (record {
  base = record (row 900 0) {
    identity = record { kind = IdentityKind.manual; event_id = 900 };
    relay_text = some "비디오 판독";
  };
  payload = record { reviewed_event_id = none };
})

tracked_document-IsWellFormed : IsWellFormed tracked_document
tracked_document-IsWellFormed = record {
  distinct = λ k. ground arith;
  links = (omega arith, (tt, tt));
}

abbrev draft_of : Corrected StagingGameDocumentV2 → StagingGameDocumentV2
draft_of (thrown e) = tracked_document
draft_of (draft d) = d

-- The manual row is added, the pitch is deleted, and the result goes to the front.
abbrev edits : List AtomicCorrectionCommand
edits =
    AtomicCorrectionCommand.add_event manual_row (some 103)
    ∷ AtomicCorrectionCommand.delete_event 102
    ∷ AtomicCorrectionCommand.move_event 103 (some 101)
    ∷ []

edits_draft :
    apply_correction tracked_document edits
    ≡ draft (draft_of (apply_correction tracked_document edits))
unfolding apply_correction exclude_tracking_for_pitch
    follow_stable_tracking_plate_appearance_contexts
edits_draft = refl

edits_events :
    map event_id_of (draft_of (apply_correction tracked_document edits)).events
    ≡ 103 ∷ 101 ∷ 900 ∷ []
unfolding apply_correction exclude_tracking_for_pitch
    follow_stable_tracking_plate_appearance_contexts
edits_events = refl

apply_correction-IsWellFormed_example :
    IsWellFormed (draft_of (apply_correction tracked_document edits))
    × IsCanonical (draft_of (apply_correction tracked_document edits))
apply_correction-IsWellFormed_example =
    apply_correction-IsWellFormed tracked_document edits tracked_document-IsWellFormed edits_draft

tracked_document-clean : validate_staging_game_document_v2_semantics tracked_document ≡ []
unfolding validate_staging_game_document_v2_semantics
tracked_document-clean = refl

tracked_document-IsCanonical : IsCanonical tracked_document
tracked_document-IsCanonical =
    (validate_semantics-IsCanonical tracked_document).0 tracked_document-clean

edits_batch :
    apply_batch tracked_document edits ≡ draft (draft_of (apply_batch tracked_document edits))
unfolding apply_batch exclude_tracking_for_pitch
edits_batch = refl

edits_rows : all is_canonical_row (draft_of (apply_batch tracked_document edits)).events ≡ true
unfolding apply_batch exclude_tracking_for_pitch trim allows_batted_ball
edits_rows = refl

apply_correction_accepted_example :
    apply_correction tracked_document edits
    ≡ draft (
        follow_stable_tracking_plate_appearance_contexts tracked_document
          (resequence (draft_of (apply_batch tracked_document edits))))
apply_correction_accepted_example =
    apply_correction_accepted tracked_document edits tracked_document-IsWellFormed
      tracked_document-IsCanonical edits_batch
      ((all-All is_canonical_row IsCanonicalRow
          (draft_of (apply_batch tracked_document edits)).events IsCanonicalRow-iff).0
        edits_rows)

-- A manual row without a text is refused when the draft is decoded.
textless_row :
    apply_correction tracked_document (
      AtomicCorrectionCommand.add_event
        (with_base (λ b. record b { relay_text = none }) manual_row)
        none
      ∷ [])
    ≡ thrown (
        CorrectionError.invalid_document (
          record {
            code = ContractIssueCode.manual_relay_text_missing;
            path = IssuePath.event 3 EventField.relay_text;
          }
          ∷ []))
unfolding apply_correction exclude_tracking_for_pitch
    follow_stable_tracking_plate_appearance_contexts
textless_row = refl

-- A batch that compiles such a draft on its way is refused there, though its last command would have
-- taken the row away.
reconciled_on_the_way :
    apply_correction tracked_document (
      AtomicCorrectionCommand.add_event
        (with_base (λ b. record b { relay_text = none }) manual_row)
        none
      ∷ AtomicCorrectionCommand.reconcile_tracking_plate_appearance_contexts
      ∷ AtomicCorrectionCommand.delete_event (event_id_of manual_row)
      ∷ [])
    ≡ thrown (
        CorrectionError.invalid_document (
          record {
            code = ContractIssueCode.manual_relay_text_missing;
            path = IssuePath.event 3 EventField.relay_text;
          }
          ∷ []))
unfolding apply_correction
reconciled_on_the_way = refl

deletion_draft :
    apply_atomic tracked_document (AtomicCorrectionCommand.delete_event 102)
    ≡ draft (draft_of (apply_atomic tracked_document (AtomicCorrectionCommand.delete_event 102)))
unfolding apply_atomic
deletion_draft = refl

apply_atomic-IsWellFormed_example :
    IsWellFormed
      (draft_of (apply_atomic tracked_document (AtomicCorrectionCommand.delete_event 102)))
apply_atomic-IsWellFormed_example =
    apply_atomic-IsWellFormed tracked_document (AtomicCorrectionCommand.delete_event 102)
      tracked_document-IsWellFormed deletion_draft

addition_draft :
    apply_atomic tracked_document (AtomicCorrectionCommand.add_event manual_row none)
    ≡ draft (
        draft_of
          (apply_atomic tracked_document (AtomicCorrectionCommand.add_event manual_row none)))
unfolding apply_atomic
addition_draft = refl

add_event-delete_event_example :
    (m : StagingGameDocumentV2) × (apply_atomic
        (draft_of
          (apply_atomic tracked_document (AtomicCorrectionCommand.add_event manual_row none)))
        (AtomicCorrectionCommand.delete_event 900)
      ≡ draft m)
    × (m.events ≡ (with_events tracked_document tracked_document.events).events)
add_event-delete_event_example =
    add_event-delete_event tracked_document manual_row none addition_draft

moved_rows :
    move_row tracked_document.events 103 (some 101)
    ≡ draft (
        StagingRelayEvent.plate_result (result_event 103 2 1 PlateResult.single)
        ∷ batter_row 101 0 1
        ∷ StagingRelayEvent.pitch (pitch_event 102 1 PitchCall.in_play)
        ∷ [])
unfolding move_row
moved_rows = refl

count-move_row_example :
    count is_pitch (
      StagingRelayEvent.plate_result (result_event 103 2 1 PlateResult.single)
      ∷ batter_row 101 0 1
      ∷ StagingRelayEvent.pitch (pitch_event 102 1 PitchCall.in_play)
      ∷ [])
    ≡ count is_pitch tracked_document.events
count-move_row_example = count-move_row is_pitch tracked_document.events 103 (some 101) moved_rows

-- A correction that resolves one finding and causes another of a different code.
abbrev sample_finding : FindingCode → Finding
sample_finding c = record {
  code = c;
  category = FindingCategory.source;
  severity = FindingSeverity.blocking;
  game_id = 9;
  event_id = some 101;
  event_sequence = some 0;
  record_identity = none;
  details = [];
}

abbrev code_number : FindingCode → ℕ
code_number FindingCode.event_without_half = 1
code_number _ = 2

abbrev before_findings : List Finding
before_findings = sample_finding FindingCode.event_without_half ∷ []

abbrev after_findings : List Finding
after_findings = sample_finding FindingCode.unexpected_half_start ∷ []

-- The results differ in their findings alone.
abbrev result_of : List Finding → ReplayResult
result_of fs = record {
  game_id = 9;
  final_state = initial_state;
  frames = [];
  plays = [];
  plate_appearances = [];
  pitch_facts = [];
  batter_lines = [];
  pitcher_lines = [];
  baserunner_lines = [];
  findings = fs;
}

abbrev sample_text : PreviewText
sample_text = record {
  document_hash = λ d. length d.events;
  finding_key = λ f. code_number f.code;
  code = code_number;
  resolution = λ r. 0;
}

abbrev sample_preview : CorrectionPreview
sample_preview =
    build_correction_preview sample_text tracked_document (result_of before_findings)
      sample_document (result_of after_findings)

build_correction_preview-balance_example :
    (sample_preview.before_blocking_count + sample_preview.new_blocking_count
      ≡ sample_preview.after_blocking_count + sample_preview.resolved_blocking_count)
    × ((k : ℕ) → times k sample_preview.added_finding_codes ≡ times k (2 ∷ []) - times k (1 ∷ []))
    × ((k : ℕ) → times k sample_preview.removed_finding_codes ≡ times k (1 ∷ []) - times k (2 ∷ []))
    × (moved_by sample_preview.event_count_delta 3 ≡ 9)
build_correction_preview-balance_example =
    build_correction_preview-balance sample_text tracked_document (result_of before_findings)
      sample_document (result_of after_findings)

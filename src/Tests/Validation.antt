-- ===== src/Tests/Validation.antt =====
-- Witnesses for the tracking checks: a linked candidate and a duplicate of it.
use kbo_workbench.Prelude.{All, List, [], count, false, none, refl, some, true, ◌∷◌, ◌≡◌, ◌≤◌}
use kbo_workbench.Compiler.Ledger.{initial_context}
use kbo_workbench.Compiler.Replay.{ReplayFrame}
use kbo_workbench.Compiler.State.{initial_state}
use kbo_workbench.Contracts.Document.{StagingGameDocumentV2}
use kbo_workbench.Contracts.Event.{
  EventId, PitchCall, PitchEvent, StagingRelayEvent, StagingRelayEventKind,
}
use kbo_workbench.Contracts.Tracking.{TrackingResolution}
use kbo_workbench.Facts.Pitch.{CompiledPitchFact, pitch_fact}
use kbo_workbench.Tests.Samples.{batter_row, candidate, pitch_event, sample_document}
use kbo_workbench.Validation.Adds.{has_no_conflict, is_blocked}
use kbo_workbench.Validation.Linked.{apply_if, tracking_index, validate_tracking}
use kbo_workbench.Validation.Settled.{IsSettled}
use kbo_workbench.Validation.Single.{links_to, validate_tracking-IsSettled}
use kbo_workbench.Validation.Tracking.{same_fingerprint}

abbrev checked_pitch : PitchEvent
checked_pitch = pitch_event 102 1 PitchCall.in_play

abbrev checked_document : StagingGameDocumentV2
checked_document = record sample_document {
  events = batter_row 101 0 1 ∷ StagingRelayEvent.pitch checked_pitch ∷ [];
  tracking_candidates =
      candidate 1 (TrackingResolution.linked 102)
      ∷ candidate 2 (TrackingResolution.duplicate 1)
      ∷ [];
}

abbrev checked_frame : ReplayFrame
checked_frame = record {
  event_id = 102;
  sequence = 1;
  kind = StagingRelayEventKind.pitch;
  play_id = some 102;
  before = initial_state;
  after = initial_state;
  applied = true;
}

abbrev checked_facts : List CompiledPitchFact
checked_facts = pitch_fact none checked_pitch checked_frame ∷ []

nothing_blocks :
    is_blocked (validate_tracking checked_document checked_facts (initial_context checked_document))
    ≡ false
unfolding validate_tracking initial_context apply_if same_fingerprint
nothing_blocks = refl

nothing_conflicts : has_no_conflict (initial_context checked_document) ≡ true
unfolding initial_context
nothing_conflicts = refl

validate_tracking-IsSettled_example :
    All
      (λ x. IsSettled (tracking_index checked_document checked_facts) x x.resolution)
      checked_document.tracking_candidates
    × ((k : EventId) → count (links_to k) checked_document.tracking_candidates ≤ 1)
validate_tracking-IsSettled_example =
    validate_tracking-IsSettled checked_document checked_facts (initial_context checked_document)
      nothing_conflicts nothing_blocks

-- ===== src/Correction/Contexts.antt =====
-- packages/correction/src/tracking-commands.ts: the plate appearance that a candidate names, repaired
-- when its row is gone, and followed when its pitch moves to another one.
use kbo_workbench.Prelude.{
  Bool, Option, any, false, if◌then◌else◌, is_some, is_value, map, none, not, some, true, ◌&&◌,
  ◌==◌, ◌||◌,
}
use kbo_workbench.Collections.Dict.{Dict, lookup}
use kbo_workbench.Contracts.Document.{StagingGameDocumentV2}
use kbo_workbench.Contracts.Event.{EventId}
use kbo_workbench.Contracts.Tracking.{TrackingCandidate, TrackingResolution}
use kbo_workbench.Correction.Rows.{
  Corrected, CorrectionError, draft, is_row, parse_document, thrown, ◌>>=◌,
}
use kbo_workbench.Facts.Document.{pitch_facts_of}
use kbo_workbench.Facts.Pitch.{CompiledPitchFact}
use kbo_workbench.Validation.Linked.{TrackingIndex, is_linked, tracking_index}
use kbo_workbench.Validation.Tracking.{same_option}

-- `resolvedPitchEventId`
linked_pitch : TrackingResolution → Option EventId
linked_pitch (TrackingResolution.linked k) = some k
linked_pitch _ = none

abbrev linked_pitch_of : Option TrackingCandidate → Option EventId
linked_pitch_of none = none
linked_pitch_of (some c) = linked_pitch c.resolution

resolved_pitch : Dict TrackingCandidate → TrackingResolution → Option EventId
unfolding linked_pitch
resolved_pitch candidates (TrackingResolution.duplicate i) = linked_pitch_of (lookup i candidates)
resolved_pitch candidates r = linked_pitch r

abbrev same_context_as : TrackingCandidate → Option TrackingCandidate → Bool
same_context_as c none = false
same_context_as c (some x) =
    is_linked x.resolution && same_option c.plate_appearance_event_id x.plate_appearance_event_id

-- `canReconcileCandidate`
can_reconcile : Dict TrackingCandidate → TrackingCandidate → TrackingResolution → Bool
can_reconcile candidates c (TrackingResolution.linked _) = true
can_reconcile candidates c (TrackingResolution.duplicate i) =
    same_context_as c (lookup i candidates)
can_reconcile candidates c _ = false

-- The plate appearance of an actual pitch.
abbrev actual_context : Option CompiledPitchFact → Option EventId
actual_context none = none
actual_context (some f) = if f.actual then f.plate_appearance_event_id else none

abbrev fact_context : Dict CompiledPitchFact → Option EventId → Option EventId
fact_context facts none = none
fact_context facts (some k) = actual_context (lookup k facts)

-- The plate appearance that takes the place of one whose row is gone.
pub repaired_context : StagingGameDocumentV2 → TrackingIndex → TrackingCandidate → Option EventId
unfolding can_reconcile resolved_pitch
repaired_context document index c = elim c.plate_appearance_event_id [
  | none ↦ none
  | some a ↦
      if any (is_row a) document.events || not (can_reconcile index.candidates c c.resolution)
      then none
      else fact_context index.facts (resolved_pitch index.candidates c.resolution)
]

abbrev pub set_context : Option EventId → TrackingCandidate → TrackingCandidate
set_context none c = c
set_context (some a) c = record c { plate_appearance_event_id = some a }

-- The body of `reconcileTrackingPlateAppearanceContexts` behind the compilation: the contexts that
-- can be repaired, or the error that there is none.
unfoldable pub repair_contexts :
    StagingGameDocumentV2 → TrackingIndex → Corrected StagingGameDocumentV2
unfolding repaired_context
repair_contexts document index =
    if any (λ c. is_some (repaired_context document index c)) document.tracking_candidates
    then draft (record document {
      tracking_candidates =
          map (λ c. set_context (repaired_context document index c) c) document.tracking_candidates;
    })
    else thrown CorrectionError.nothing_to_reconcile

-- `reconcileTrackingPlateAppearanceContexts`: `compileStagingGameDocumentV2` decodes the document of
-- the batch as it stands there, and throws its issues.
unfoldable pub reconcile_tracking_contexts : StagingGameDocumentV2 → Corrected StagingGameDocumentV2
unfolding parse_document pitch_facts_of repair_contexts
reconcile_tracking_contexts document = parse_document document >>= λ decoded.
    repair_contexts document (tracking_index document (pitch_facts_of decoded))

-- A candidate that named the plate appearance `a` of its pitch, which is now in `b`.
abbrev moved_context :
    TrackingCandidate → TrackingCandidate → Option EventId → Option EventId → Option EventId
moved_context previous c none b = none
moved_context previous c (some a) none = none
moved_context previous c (some a) (some b) =
    if is_value previous.plate_appearance_event_id a
      && same_option c.plate_appearance_event_id previous.plate_appearance_event_id
      && not (a == b)
    then some b
    else none

abbrev followed_from :
    TrackingIndex → TrackingIndex → TrackingCandidate → Option TrackingCandidate → Option EventId
followed_from before after c none = none
followed_from before after c (some previous) =
    let old = resolved_pitch before.candidates previous.resolution in
    let new = resolved_pitch after.candidates c.resolution in
    if is_some old && same_option old new
    then moved_context previous c (fact_context before.facts old) (fact_context after.facts new)
    else none

pub followed_context : TrackingIndex → TrackingIndex → TrackingCandidate → Option EventId
unfolding resolved_pitch
followed_context before after c =
    followed_from before after c (lookup c.tracking_id before.candidates)

-- `followStableTrackingPlateAppearanceContexts`
unfoldable pub follow_stable_tracking_plate_appearance_contexts :
    StagingGameDocumentV2 → StagingGameDocumentV2 → StagingGameDocumentV2
unfolding pitch_facts_of followed_context
follow_stable_tracking_plate_appearance_contexts before after =
    let old = tracking_index before (pitch_facts_of before) in
    let new = tracking_index after (pitch_facts_of after) in
    record after {
      tracking_candidates =
          map (λ c. set_context (followed_context old new c) c) after.tracking_candidates;
    }

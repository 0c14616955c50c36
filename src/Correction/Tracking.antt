-- ===== src/Correction/Tracking.antt =====
-- packages/correction/src/tracking-commands.ts: the resolutions of the tracking candidates.
use kbo_workbench.Prelude.{
  Bool, List, Option, String, [], contains, false, find, if◌then◌else◌, map, none, not, some, true,
  ℕ, ◌==◌, ◌||◌, ◌∷◌,
}
use kbo_workbench.Contracts.Document.{StagingGameDocumentV2}
use kbo_workbench.Contracts.Event.{EventId, StagingRelayEvent}
use kbo_workbench.Contracts.Tracking.{
  TrackingCandidate, TrackingExclusionReason, TrackingResolution, is_linked_to,
}
use kbo_workbench.Correction.Rows.{Corrected, CorrectionError, draft, is_row, thrown, ◌>>=◌}

abbrev pub is_candidate : ℕ → TrackingCandidate → Bool
is_candidate id c = c.tracking_id == id

abbrev pub is_pitch_row : Option StagingRelayEvent → Bool
is_pitch_row (some (StagingRelayEvent.pitch _)) = true
is_pitch_row _ = false

unfoldable pub required_tracking_candidate : StagingGameDocumentV2 → ℕ → Corrected TrackingCandidate
required_tracking_candidate document id =
    elim (find (is_candidate id) document.tracking_candidates) [
      | none ↦ thrown (CorrectionError.tracking_not_found id)
      | some c ↦ draft c
    ]

-- The target of a link must be a pitch row.
abbrev pub bad_link : List StagingRelayEvent → TrackingResolution → Bool
bad_link events (TrackingResolution.linked e) = not (is_pitch_row (find (is_row e) events))
bad_link events _ = false

abbrev pub resolve : ℕ → TrackingResolution → TrackingCandidate → TrackingCandidate
resolve id resolution c = if is_candidate id c then record c { resolution = resolution } else c

unfoldable pub update_tracking_resolution :
    StagingGameDocumentV2 → ℕ → TrackingResolution → Corrected StagingGameDocumentV2
unfolding required_tracking_candidate
update_tracking_resolution document id resolution =
    if bad_link document.events resolution
    then thrown CorrectionError.link_not_pitch
    else (required_tracking_candidate document id >>= λ c. draft (record document {
      tracking_candidates = map (resolve id resolution) document.tracking_candidates;
    }))

-- `directlyLinked`
pub directly_linked : EventId → List TrackingCandidate → List ℕ
directly_linked e [] = []
directly_linked e (c ∷ cs) =
    if is_linked_to e c.resolution
    then c.tracking_id ∷ directly_linked e cs
    else directly_linked e cs

abbrev pub is_duplicate_of : List ℕ → TrackingResolution → Bool
is_duplicate_of ids (TrackingResolution.duplicate i) = contains i ids
is_duplicate_of ids _ = false

abbrev pub exclude : EventId → List ℕ → String → TrackingCandidate → TrackingCandidate
exclude e ids note c =
    if is_linked_to e c.resolution || is_duplicate_of ids c.resolution
    then record c {
      resolution = TrackingResolution.excluded TrackingExclusionReason.manual_other (some note);
    }
    else c

unfoldable pub exclude_tracking_for_pitch :
    StagingGameDocumentV2 → EventId → String → StagingGameDocumentV2
unfolding directly_linked
exclude_tracking_for_pitch document e note = record document {
  tracking_candidates =
      map (exclude e (directly_linked e document.tracking_candidates) note)
        document.tracking_candidates;
}

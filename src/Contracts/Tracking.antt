-- ===== src/Contracts/Tracking.antt =====
-- The tracking candidates of packages/contracts/src/game-document/records.ts. What was observed, from
-- observedAt to crossPlateY, is only copied and compared as a whole: it is numbered as
-- `observation`, so that equal numbers are equal observations.
use kbo_workbench.Prelude.{Bool, Option, String, false, ℕ, ◌==◌}
use kbo_workbench.Contracts.Event.{EventId, Half, PlayerId}

pub data TrackingExclusionReason : Type 0 where
  not_a_pitch provider_conflict invalid_measurement manual_other : TrackingExclusionReason

pub data TrackingResolution : Type 0 where
  pending : TrackingResolution
  linked : EventId → TrackingResolution
  duplicate : ℕ → TrackingResolution
  excluded : TrackingExclusionReason → Option String → TrackingResolution

pub record TrackingSource : Type 0 where
  pub endpoint : ℕ
  pub block_index : ℕ
  pub row_index : ℕ

pub record TrackingCandidate : Type 0 where
  pub tracking_id : ℕ
  pub source : TrackingSource
  pub source_pitch_id : Option ℕ
  pub source_pitch_ordinal : Option ℕ
  pub sequence : ℕ
  pub inning : ℕ
  pub half : Half
  pub plate_appearance_event_id : Option EventId
  pub pitcher_id : Option PlayerId
  pub batter_id : Option PlayerId
  pub observation : ℕ
  pub resolution : TrackingResolution

abbrev pub is_linked_to : EventId → TrackingResolution → Bool
is_linked_to id (TrackingResolution.linked e) = e == id
is_linked_to id _ = false

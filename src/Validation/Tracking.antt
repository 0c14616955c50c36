-- ===== src/Validation/Tracking.antt =====
-- packages/game-core/src/compiler/validation.ts: `validateTracking` and its helpers.
use mathlib.Core.Option
use kbo_workbench.Prelude.{
  Bool, List, Option, [], any, false, filter, if◌then◌else◌, is_some, length, ltb, none, not, some,
  suc, true, ℕ, ◌&&◌, ◌++◌, ◌==◌, ◌||◌, ◌∷◌,
}
use kbo_workbench.Collections.Dict.{Dict}
use kbo_workbench.Compiler.Context.{CompileContext, push_finding}
use kbo_workbench.Compiler.PlayIndex.{push_to}
use kbo_workbench.Contracts.Document.{StagingGameDocumentV2}
use kbo_workbench.Contracts.Event.{
  EventId, LedgerEventBase, PitchEvent, StagingRelayEvent, same_half,
}
use kbo_workbench.Contracts.Tracking.{TrackingCandidate, TrackingResolution}
use kbo_workbench.Game.Findings.{
  DetailField, DetailValue, Finding, FindingCategory, FindingCode, FindingDetail, FindingSeverity,
  RecordIdentity, is_conflict_code,
}

-- `code.startsWith("domain.")`
abbrev tracking_category : FindingCode → FindingCategory
tracking_category FindingCode.tracking_non_actual_pitch_link = FindingCategory.domain
tracking_category FindingCode.tracking_plate_appearance_mismatch = FindingCategory.domain
tracking_category FindingCode.tracking_multiple_canonical = FindingCategory.domain
tracking_category _ = FindingCategory.source

-- `trackingFinding`
abbrev pub tracking_finding :
    TrackingCandidate
    → FindingCode
    → List FindingDetail
    → Option EventId
    → CompileContext
    → CompileContext
tracking_finding c code details event context =
    push_finding
      (record {
        code = code;
        category = tracking_category code;
        severity = FindingSeverity.blocking;
        game_id = context.document.metadata.game_id;
        event_id = event;
        event_sequence = none;
        record_identity = some (RecordIdentity.identifier c.tracking_id);
        details = details;
      })
      context

abbrev pub warning_finding :
    FindingCode → LedgerEventBase → Option ℕ → List FindingDetail → CompileContext → CompileContext
warning_finding code e identity details context =
    push_finding
      (record {
        code = code;
        category = FindingCategory.source;
        severity = FindingSeverity.warning;
        game_id = context.document.metadata.game_id;
        event_id = some e.identity.event_id;
        event_sequence = some e.sequence;
        record_identity = Option.map RecordIdentity.identifier identity;
        details = details;
      })
      context

abbrev pub same_option : Option ℕ → Option ℕ → Bool
same_option none none = true
same_option (some a) (some b) = a == b
same_option _ _ = false

-- `trackingFingerprint`: all but the identifier, the source, the number and the resolution.
unfoldable pub same_fingerprint : TrackingCandidate → TrackingCandidate → Bool
same_fingerprint a b =
    same_option a.source_pitch_id b.source_pitch_id
    && same_option a.source_pitch_ordinal b.source_pitch_ordinal
    && a.inning == b.inning
    && same_half a.half b.half
    && same_option a.plate_appearance_event_id b.plate_appearance_event_id
    && same_option a.pitcher_id b.pitcher_id
    && same_option a.batter_id b.batter_id
    && a.observation == b.observation

-- The key of `conflictingTrackingGroups`.
pub same_group : TrackingCandidate → TrackingCandidate → Bool
same_group a b =
    a.source.endpoint == b.source.endpoint
    && a.source.block_index == b.source.block_index
    && a.inning == b.inning
    && same_half a.half b.half
    && same_option a.plate_appearance_event_id b.plate_appearance_event_id
    && same_option a.source_pitch_id b.source_pitch_id
    && same_option a.source_pitch_ordinal b.source_pitch_ordinal
    && same_option a.pitcher_id b.pitcher_id
    && same_option a.batter_id b.batter_id

abbrev pub is_pending : TrackingResolution → Bool
is_pending TrackingResolution.pending = true
is_pending _ = false

abbrev is_groupable : TrackingCandidate → Bool
is_groupable c =
    is_pending c.resolution && (is_some c.source_pitch_id || is_some c.source_pitch_ordinal)

-- The groups in the order of their first candidates.
add_to_group : TrackingCandidate → List (List TrackingCandidate) → List (List TrackingCandidate)
add_to_group c [] = (c ∷ []) ∷ []
add_to_group c (g ∷ gs) = if any (same_group c) g then (g ++ c ∷ []) ∷ gs else g ∷ add_to_group c gs

tracking_groups :
    List TrackingCandidate → List (List TrackingCandidate) → List (List TrackingCandidate)
unfolding add_to_group
tracking_groups [] gs = gs
tracking_groups (c ∷ cs) gs = tracking_groups cs (if is_groupable c then add_to_group c gs else gs)

-- `new Set(group.map(trackingFingerprint)).size > 1`
abbrev is_conflicting : List TrackingCandidate → Bool
is_conflicting [] = false
is_conflicting (c ∷ cs) = any (λ x. not (same_fingerprint c x)) cs

unfoldable pub conflicting_tracking_groups : List TrackingCandidate → List (List TrackingCandidate)
unfolding tracking_groups
conflicting_tracking_groups cs = filter is_conflicting (tracking_groups cs [])

abbrev pub group_details : List TrackingCandidate → List FindingDetail
group_details [] = []
group_details (c ∷ cs) =
    record {
      field = DetailField.source_candidate c.tracking_id;
      expected = none;
      actual = some (DetailValue.location c.tracking_id);
    }
    ∷ group_details cs

abbrev pub report_members :
    List FindingDetail → List TrackingCandidate → CompileContext → CompileContext
report_members details [] context = context
report_members details (c ∷ cs) context =
    report_members details cs
      (tracking_finding c FindingCode.tracking_conflicting_candidates details none context)

unfoldable pub report_conflicts : List (List TrackingCandidate) → CompileContext → CompileContext
report_conflicts [] context = context
report_conflicts (g ∷ gs) context =
    report_conflicts gs
      (report_members (group_details g) (filter (λ c. is_pending c.resolution) g) context)

abbrev is_identifier : Option RecordIdentity → ℕ → Bool
is_identifier (some (RecordIdentity.identifier i)) t = i == t
is_identifier _ t = false

abbrev pub is_conflict_of : ℕ → Finding → Bool
is_conflict_of t f = is_conflict_code f.code && is_identifier f.record_identity t

-- `hasFinding(context, "source.tracking.conflicting_candidates", trackingId)`
unfoldable pub has_conflict : ℕ → CompileContext → Bool
has_conflict t context = any (is_conflict_of t) context.findings

abbrev pub report_location : ℕ → List PitchEvent → List FindingDetail
report_location i [] = []
report_location i (p ∷ ps) =
    record {
      field = DetailField.source_location i;
      expected = none;
      actual = some (DetailValue.location p.base.identity.event_id);
    }
    ∷ report_location (suc i) ps

abbrev pub report_reused : List FindingDetail → List PitchEvent → CompileContext → CompileContext
report_reused details [] context = context
report_reused details (p ∷ ps) context =
    report_reused details ps
      (warning_finding FindingCode.pitch_id_reused_within_game p.base none details context)

abbrev note_source_pitch : Option ℕ → PitchEvent → Dict (List PitchEvent) → Dict (List PitchEvent)
note_source_pitch none p d = d
note_source_pitch (some i) p d = push_to i p d

pub by_source_pitch_id : List StagingRelayEvent → Dict (List PitchEvent) → Dict (List PitchEvent)
by_source_pitch_id [] d = d
by_source_pitch_id (StagingRelayEvent.pitch p ∷ es) d =
    by_source_pitch_id es (note_source_pitch p.payload.source_pitch_id p d)
by_source_pitch_id (_ ∷ es) d = by_source_pitch_id es d

unfoldable pub report_all_reused : Dict (List PitchEvent) → CompileContext → CompileContext
report_all_reused [] context = context
report_all_reused ((i, ps) ∷ d) context =
    report_all_reused d
      (if ltb (length ps) 2 then context else report_reused (report_location 1 ps) ps context)

-- `addReusedSourcePitchIdWarnings`
unfoldable pub add_reused_source_pitch_id_warnings :
    StagingGameDocumentV2 → CompileContext → CompileContext
unfolding by_source_pitch_id report_all_reused
add_reused_source_pitch_id_warnings document context =
    report_all_reused (by_source_pitch_id document.events []) context

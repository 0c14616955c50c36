-- ===== src/Validation/Linked.antt =====
-- packages/game-core/src/compiler/validation.ts: the candidates one by one, the pitches with more
-- than one candidate, and the pitches without any.
use kbo_workbench.Prelude.{
  Bool, List, Option, [], false, if◌then◌else◌, is_some, is_value, length, ltb, none, not, some,
  true, ℕ, ◌&&◌, ◌++◌, ◌==◌, ◌||◌, ◌∷◌,
}
use kbo_workbench.Collections.Dict.{Dict, insert, lookup}
use kbo_workbench.Compiler.Context.{CompileContext, detail}
use kbo_workbench.Compiler.PlayIndex.{index_events, push_to}
use kbo_workbench.Contracts.Document.{StagingGameDocumentV2}
use kbo_workbench.Contracts.Event.{EventId, PitchEvent, StagingRelayEvent, same_half}
use kbo_workbench.Contracts.Tracking.{TrackingCandidate, TrackingResolution}
use kbo_workbench.Facts.Pitch.{CompiledPitchFact, is_actual_pitch, pitch_of}
use kbo_workbench.Game.Findings.{DetailField, DetailValue, FindingCode, FindingDetail}
use kbo_workbench.Validation.Tracking.{
  add_reused_source_pitch_id_warnings, conflicting_tracking_groups, has_conflict, report_conflicts,
  same_fingerprint, tracking_finding, warning_finding,
}

abbrev pub differs_both : Option ℕ → Option ℕ → Bool
differs_both (some a) (some b) = not (a == b)
differs_both _ _ = false

-- `x !== undefined && x !== y`, where `y` may be null.
abbrev pub differs_from : Option ℕ → Option ℕ → Bool
differs_from none y = false
differs_from (some x) y = not (is_value y x)

abbrev value_or_null : Option ℕ → DetailValue
value_or_null none = DetailValue.null
value_or_null (some n) = DetailValue.number n

abbrev id_or_null : Option ℕ → DetailValue
id_or_null none = DetailValue.null
id_or_null (some n) = DetailValue.identifier n

unfoldable pub apply_if : Bool → (CompileContext → CompileContext) → CompileContext → CompileContext
apply_if b f context = if b then f context else context

abbrev detail_if : Bool → DetailField → Option ℕ → Option ℕ → List FindingDetail
detail_if b f e a = if b then detail f (id_or_null e) (id_or_null a) ∷ [] else []

abbrev pub player_details : TrackingCandidate → CompiledPitchFact → List FindingDetail
player_details c f =
    detail_if (differs_both c.pitcher_id f.pitcher_id) DetailField.pitcher_id f.pitcher_id
      c.pitcher_id
    ++ detail_if (differs_both c.batter_id f.batter_id) DetailField.batter_id f.batter_id
        c.batter_id

abbrev pub is_actual_fact : Option CompiledPitchFact → Bool
is_actual_fact none = false
is_actual_fact (some f) = f.actual

abbrev fact_number : Option CompiledPitchFact → Option ℕ
fact_number none = none
fact_number (some f) = f.actual_pitch_number

-- The checks that need the fact of the pitch.
unfoldable pub check_fact :
    TrackingCandidate → PitchEvent → Option CompiledPitchFact → CompileContext → CompileContext
check_fact c p none context = context
check_fact c p (some f) context =
    let k = p.base.identity.event_id in
    let players = player_details c f in
    apply_if (differs_both c.source_pitch_ordinal f.actual_pitch_number)
      (warning_finding FindingCode.tracking_ordinal_differs_from_actual_pitch p.base
        (some c.tracking_id)
        (detail DetailField.source_pitch_ordinal (value_or_null f.actual_pitch_number)
            (value_or_null c.source_pitch_ordinal)
          ∷ []))
      (apply_if (ltb 0 (length players))
        (tracking_finding c FindingCode.tracking_player_context_mismatch players (some k))
        (apply_if (differs_from c.plate_appearance_event_id f.plate_appearance_event_id)
          (tracking_finding c FindingCode.tracking_plate_appearance_mismatch
            (detail DetailField.plate_appearance_event_id (id_or_null f.plate_appearance_event_id)
                (id_or_null c.plate_appearance_event_id)
              ∷ [])
            (some k))
          context))

abbrev game_details : TrackingCandidate → PitchEvent → List FindingDetail
game_details c p =
    detail DetailField.inning (DetailValue.number p.base.inning) (DetailValue.number c.inning)
    ∷ detail DetailField.half (DetailValue.half p.base.half) (DetailValue.half c.half)
    ∷ []

-- A candidate that is linked to the pitch `p`.
unfoldable pub check_linked :
    TrackingCandidate → PitchEvent → Option CompiledPitchFact → CompileContext → CompileContext
unfolding check_fact
check_linked c p f context =
    let k = some p.base.identity.event_id in
    apply_if (not (c.inning == p.base.inning) || not (same_half c.half p.base.half))
      (tracking_finding c FindingCode.tracking_game_context_mismatch (game_details c p) k)
      (check_fact c p f (
        apply_if (not (is_actual_fact f))
          (tracking_finding c FindingCode.tracking_non_actual_pitch_link
            (detail DetailField.actual_pitch_number (DetailValue.text "actual pitch")
                (value_or_null (fact_number f))
              ∷ [])
            k)
          (apply_if (differs_both c.source_pitch_id p.payload.source_pitch_id)
            (tracking_finding c FindingCode.tracking_pitch_id_mismatch
              (detail DetailField.source_pitch_id (id_or_null p.payload.source_pitch_id)
                  (id_or_null c.source_pitch_id)
                ∷ [])
              k)
            context)))

-- What the checks look up: the rows, the facts and the candidates, each by its identifier.
pub record TrackingIndex : Type 0 where
  pub rows : Dict StagingRelayEvent
  pub facts : Dict CompiledPitchFact
  pub candidates : Dict TrackingCandidate

abbrev pub is_linked : TrackingResolution → Bool
is_linked (TrackingResolution.linked _) = true
is_linked _ = false

abbrev pub is_valid_canonical : TrackingCandidate → Option TrackingCandidate → Bool
is_valid_canonical c none = false
is_valid_canonical c (some x) = is_linked x.resolution && same_fingerprint x c

abbrev check_target :
    TrackingIndex
    → TrackingCandidate
    → EventId
    → Option PitchEvent
    → CompileContext
    → CompileContext
check_target index c k none context =
    tracking_finding c FindingCode.tracking_link_not_pitch [] (some k) context
check_target index c k (some p) context = check_linked c p (lookup k index.facts) context

unfoldable pub check_resolution :
    TrackingIndex → TrackingCandidate → TrackingResolution → CompileContext → CompileContext
unfolding has_conflict check_linked
check_resolution index c TrackingResolution.pending context =
    apply_if (not (has_conflict c.tracking_id context))
      (tracking_finding c FindingCode.tracking_pending [] none) context
check_resolution index c (TrackingResolution.excluded r reason) context = context
check_resolution index c (TrackingResolution.duplicate i) context =
    apply_if (not (is_valid_canonical c (lookup i index.candidates)))
      (tracking_finding c FindingCode.tracking_invalid_duplicate_resolution [] none) context
check_resolution index c (TrackingResolution.linked k) context =
    check_target index c k (pitch_of (lookup k index.rows)) context

unfoldable pub check_candidates :
    TrackingIndex → List TrackingCandidate → CompileContext → CompileContext
unfolding check_resolution
check_candidates index [] context = context
check_candidates index (c ∷ cs) context =
    check_candidates index cs (check_resolution index c c.resolution context)

abbrev pub note_link :
    Dict StagingRelayEvent
    → TrackingCandidate
    → TrackingResolution
    → Dict (List TrackingCandidate)
    → Dict (List TrackingCandidate)
note_link rows c (TrackingResolution.linked k) d =
    if is_some (pitch_of (lookup k rows)) then push_to k c d else d
note_link rows c _ d = d

-- `linkedByPitch`, which the loop over the candidates fills.
unfoldable pub linked_by_pitch :
    Dict StagingRelayEvent
    → List TrackingCandidate
    → Dict (List TrackingCandidate)
    → Dict (List TrackingCandidate)
linked_by_pitch rows [] d = d
linked_by_pitch rows (c ∷ cs) d = linked_by_pitch rows cs (note_link rows c c.resolution d)

abbrev pub report_multiple : EventId → ℕ → List TrackingCandidate → CompileContext → CompileContext
report_multiple k n [] context = context
report_multiple k n (c ∷ cs) context = report_multiple k n cs (
    tracking_finding c FindingCode.tracking_multiple_canonical
      (detail DetailField.linked_count (DetailValue.number 1) (DetailValue.number n) ∷ []) (some k)
      context)

unfoldable pub check_multiple : Dict (List TrackingCandidate) → CompileContext → CompileContext
check_multiple [] context = context
check_multiple ((k, linked) ∷ d) context =
    check_multiple d
      (apply_if (ltb 1 (length linked)) (report_multiple k (length linked) linked) context)

abbrev pub is_missing : Dict (List TrackingCandidate) → PitchEvent → Bool
is_missing linked p =
    is_actual_pitch p.payload.call && not (is_some (lookup p.base.identity.event_id linked))

unfoldable pub report_missing :
    Dict (List TrackingCandidate) → List StagingRelayEvent → CompileContext → CompileContext
unfolding is_actual_pitch
report_missing linked [] context = context
report_missing linked (StagingRelayEvent.pitch p ∷ es) context = report_missing linked es (
    apply_if (is_missing linked p)
      (warning_finding FindingCode.tracking_missing_for_pitch p.base none []) context)
report_missing linked (_ ∷ es) context = report_missing linked es context

abbrev index_facts : List CompiledPitchFact → Dict CompiledPitchFact → Dict CompiledPitchFact
index_facts [] d = d
index_facts (f ∷ fs) d = index_facts fs (insert f.pitch_id f d)

abbrev index_candidates : List TrackingCandidate → Dict TrackingCandidate → Dict TrackingCandidate
index_candidates [] d = d
index_candidates (c ∷ cs) d = index_candidates cs (insert c.tracking_id c d)

abbrev pub tracking_index : StagingGameDocumentV2 → List CompiledPitchFact → TrackingIndex
tracking_index document facts = record {
  rows = index_events document.events [];
  facts = index_facts facts [];
  candidates = index_candidates document.tracking_candidates [];
}

unfoldable pub validate_tracking :
    StagingGameDocumentV2 → List CompiledPitchFact → CompileContext → CompileContext
unfolding add_reused_source_pitch_id_warnings conflicting_tracking_groups report_conflicts
    check_candidates linked_by_pitch check_multiple report_missing
validate_tracking document facts context =
    let index = tracking_index document facts in
    let linked = linked_by_pitch index.rows document.tracking_candidates [] in
    let groups = conflicting_tracking_groups document.tracking_candidates in
    let reused = add_reused_source_pitch_id_warnings document context in
    let checked =
      check_candidates index document.tracking_candidates (report_conflicts groups reused) in
    let single = check_multiple linked checked in
    apply_if (ltb 0 (length document.tracking_candidates)) (report_missing linked document.events)
      single

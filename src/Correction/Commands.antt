-- ===== src/Correction/Commands.antt =====
-- `applyAtomic` of packages/correction/src/commands.ts, the batch and the final numbering,
-- and a correction as a whole.
use kbo_workbench.Correction.Rosters
use kbo_workbench.Prelude.{
  Bool, List, Option, String, [], false, if◌then◌else◌, is_some, none, not, or_option, some, suc,
  true, ℕ, ◌&&◌, ◌==◌, ◌||◌, ◌∷◌,
}
use kbo_workbench.Contracts.Document.{StagingGameDocumentV2}
use kbo_workbench.Contracts.Event.{
  EventId, IdentityKind, LedgerEventBase, ObservedState, PlayerId, Side, StagingRelayEvent, base_of,
}
use kbo_workbench.Contracts.Records.{OfficialBatterRecord, OfficialPitcherRecord, RosterPlayer}
use kbo_workbench.Contracts.Tracking.{
  TrackingCandidate, TrackingExclusionReason, TrackingResolution,
}
use kbo_workbench.Correction.Contexts.{
  follow_stable_tracking_plate_appearance_contexts, reconcile_tracking_contexts,
}
use kbo_workbench.Correction.Rows.{
  Corrected, CorrectionError, draft, insert_row, move_row, parse_document, remove_at, replace_at,
  required_row, thrown, with_base, with_events, ◌>>=◌,
}
use kbo_workbench.Correction.Tracking.{
  exclude_tracking_for_pitch, required_tracking_candidate, update_tracking_resolution,
}

-- `AtomicCorrectionCommand`
pub data AtomicCorrectionCommand : Type 0 where
  add_event : StagingRelayEvent → Option EventId → AtomicCorrectionCommand
  delete_event : EventId → AtomicCorrectionCommand
  replace_event : EventId → StagingRelayEvent → AtomicCorrectionCommand
  update_observed_state : EventId → ObservedState → AtomicCorrectionCommand
  move_event : EventId → Option EventId → AtomicCorrectionCommand
  update_roster_player : Side → PlayerId → RosterPlayer → AtomicCorrectionCommand
  update_roster_position : Side → PlayerId → List String → AtomicCorrectionCommand
  update_batter_record : PlayerId → OfficialBatterRecord → AtomicCorrectionCommand
  update_pitcher_record : PlayerId → OfficialPitcherRecord → AtomicCorrectionCommand
  link_tracking_candidate : ℕ → EventId → AtomicCorrectionCommand
  mark_tracking_duplicate : ℕ → ℕ → AtomicCorrectionCommand
  exclude_tracking_candidate : ℕ → TrackingExclusionReason → Option String → AtomicCorrectionCommand
  unlink_tracking_candidate : ℕ → AtomicCorrectionCommand
  reconcile_tracking_plate_appearance_contexts : AtomicCorrectionCommand

abbrev pub is_pitch : StagingRelayEvent → Bool
is_pitch (StagingRelayEvent.pitch _) = true
is_pitch _ = false

abbrev pub is_source_row : StagingRelayEvent → Bool
is_source_row e = elim (base_of e).identity.kind [ IdentityKind.source ↦ true | _ ↦ false ]

abbrev pub deletion_note : String
deletion_note = "연결된 원장 투구 행이 삭제되었습니다."

abbrev pub replacement_note : String
replacement_note = "연결된 원장 투구 행이 비투구 행으로 교체되었습니다."

-- The candidates of a pitch that goes away are excluded.
abbrev pub exclude_if : Bool → EventId → String → StagingGameDocumentV2 → StagingGameDocumentV2
exclude_if gone id note document =
    if gone then exclude_tracking_for_pitch document id note else document

unfoldable pub delete_row : StagingGameDocumentV2 → EventId → Corrected StagingGameDocumentV2
unfolding required_row with_events
delete_row document id = required_row document.events id >>= λ r. draft (
    exclude_if (is_pitch r.1) id deletion_note
      (with_events document (remove_at r.0 document.events)))

-- The replacement under the identity and the number of the row. A row of the source keeps what
-- the source observed, and its text unless the replacement has one.
abbrev replacement_base : LedgerEventBase → LedgerEventBase → LedgerEventBase
replacement_base current b = record b { identity = current.identity; sequence = current.sequence }

abbrev pub replacement_row : StagingRelayEvent → StagingRelayEvent → StagingRelayEvent
replacement_row current replacement =
    if is_source_row current
    then with_base
        (λ b. record (replacement_base (base_of current) b) {
          relay_text = or_option b.relay_text (base_of current).relay_text;
          observed_state_after = (base_of current).observed_state_after;
        })
        replacement
    else with_base (replacement_base (base_of current)) replacement

unfoldable pub replace_row :
    StagingGameDocumentV2 → EventId → StagingRelayEvent → Corrected StagingGameDocumentV2
unfolding required_row with_events
replace_row document id replacement = required_row document.events id >>= λ r. draft (
    exclude_if (is_pitch r.1 && not (is_pitch replacement)) id replacement_note
      (with_events document (replace_at r.0 (replacement_row r.1 replacement) document.events)))

-- `Object.keys(observedStateAfter).length === 0`
abbrev is_empty_observation : ObservedState → Bool
is_empty_observation o = not (
    is_some o.balls
    || is_some o.strikes
    || is_some o.outs
    || is_some o.bases
    || is_some o.away_score
    || is_some o.home_score)

abbrev pub observe : ObservedState → StagingRelayEvent → StagingRelayEvent
observe o e =
    with_base
      (λ b. record b { observed_state_after = if is_empty_observation o then none else some o }) e

unfoldable pub update_row_observation :
    StagingGameDocumentV2 → EventId → ObservedState → Corrected StagingGameDocumentV2
unfolding required_row with_events
update_row_observation document id o = required_row document.events id >>= λ r.
    if is_source_row r.1
    then draft (with_events document (replace_at r.0 (observe o r.1) document.events))
    else thrown CorrectionError.observed_state_of_manual_row

unfoldable pub apply_atomic :
    StagingGameDocumentV2 → AtomicCorrectionCommand → Corrected StagingGameDocumentV2
unfolding insert_row move_row with_events delete_row replace_row update_row_observation
    Rosters.update_roster_player Rosters.update_roster_position Rosters.update_batter_record
    Rosters.update_pitcher_record update_tracking_resolution required_tracking_candidate
    reconcile_tracking_contexts
apply_atomic d (AtomicCorrectionCommand.add_event e before) =
    insert_row d.events e before >>= λ es. draft (with_events d es)
apply_atomic d (AtomicCorrectionCommand.delete_event id) = delete_row d id
apply_atomic d (AtomicCorrectionCommand.replace_event id e) = replace_row d id e
apply_atomic d (AtomicCorrectionCommand.update_observed_state id o) = update_row_observation d id o
apply_atomic d (AtomicCorrectionCommand.move_event id before) =
    move_row d.events id before >>= λ es. draft (with_events d es)
apply_atomic d (AtomicCorrectionCommand.update_roster_player side id player) =
    Rosters.update_roster_player d side id player
apply_atomic d (AtomicCorrectionCommand.update_roster_position side id positions) =
    Rosters.update_roster_position d side id positions
apply_atomic d (AtomicCorrectionCommand.update_batter_record id r) =
    Rosters.update_batter_record d id r
apply_atomic d (AtomicCorrectionCommand.update_pitcher_record id r) =
    Rosters.update_pitcher_record d id r
apply_atomic d (AtomicCorrectionCommand.link_tracking_candidate t e) =
    update_tracking_resolution d t (TrackingResolution.linked e)
apply_atomic d (AtomicCorrectionCommand.mark_tracking_duplicate t canonical) =
    if t == canonical
    then thrown CorrectionError.own_duplicate
    else (required_tracking_candidate d canonical >>= λ c.
        update_tracking_resolution d t (TrackingResolution.duplicate canonical))
apply_atomic d (AtomicCorrectionCommand.exclude_tracking_candidate t reason note) =
    update_tracking_resolution d t (TrackingResolution.excluded reason note)
apply_atomic d (AtomicCorrectionCommand.unlink_tracking_candidate t) =
    update_tracking_resolution d t TrackingResolution.pending
apply_atomic d AtomicCorrectionCommand.reconcile_tracking_plate_appearance_contexts =
    reconcile_tracking_contexts d

-- `decoded.commands.reduce(...)`: the first error ends the batch.
unfoldable pub apply_batch :
    StagingGameDocumentV2 → List AtomicCorrectionCommand → Corrected StagingGameDocumentV2
unfolding apply_atomic
apply_batch d [] = draft d
apply_batch d (c ∷ cs) = apply_atomic d c >>= λ next. apply_batch next cs

abbrev pub number_candidates : ℕ → List TrackingCandidate → List TrackingCandidate
number_candidates i [] = []
number_candidates i (c ∷ cs) = record c { sequence = i } ∷ number_candidates (suc i) cs

unfoldable pub resequence : StagingGameDocumentV2 → StagingGameDocumentV2
unfolding with_events
resequence d = record (with_events d d.events) {
  tracking_candidates = number_candidates 0 d.tracking_candidates;
}

-- A correction: the batch, the numbering and the decoding, and the contexts that follow their
-- pitches from the document before to the one behind. Where no context moves, the document behind is
-- the decoded one, and decoding it again gives it back.
unfoldable pub apply_correction :
    StagingGameDocumentV2 → List AtomicCorrectionCommand → Corrected StagingGameDocumentV2
unfolding apply_batch resequence parse_document follow_stable_tracking_plate_appearance_contexts
apply_correction d cs = apply_batch d cs >>= λ r. parse_document (resequence r) >>= λ provisional.
    parse_document (follow_stable_tracking_plate_appearance_contexts d provisional)

-- ===== src/Correction/Preserve.antt =====
-- Every correction command keeps a document well formed, and a correction numbers its rows.
use mathlib.Core.Path.{subst}
use kbo_workbench.Prelude.{List, Option, any, arith, false, not, refl, ◌&&◌, ◌≡◌}
use kbo_workbench.Contracts.Document.{StagingGameDocumentV2}
use kbo_workbench.Contracts.Event.{EventId, ObservedState, StagingRelayEvent, event_id_of}
use kbo_workbench.Contracts.Tracking.{TrackingResolution}
use kbo_workbench.Correction.Commands.{
  AtomicCorrectionCommand, apply_atomic, deletion_note, exclude_if, is_pitch, observe, replace_row,
  replacement_note, replacement_row, update_row_observation,
}
use kbo_workbench.Correction.Links.{
  IsWellFormed, count-none, delete_row-IsWellFormed, names_pitch, replace_at-IsWellFormed,
  with_events-IsWellFormed,
}
use kbo_workbench.Correction.Resolutions.{
  reconcile_tracking_contexts-IsWellFormed, update_tracking_resolution-IsWellFormed,
}
use kbo_workbench.Correction.RosterLaws.{
  update_batter_record_cases, update_pitcher_record_cases, update_roster_player_cases,
  update_roster_position_cases,
}
use kbo_workbench.Correction.RowLaws.{count-move_row, count-place_row, required_row-found}
use kbo_workbench.Correction.Rows.{
  corrected_chain, draft, draft-injective, insert_row, is_row, move_row, place_row, replace_at,
  required_row, with_events,
}
use kbo_workbench.Correction.Tracking.{required_tracking_candidate, update_tracking_resolution}

replacement_row-id :
    (current replacement : StagingRelayEvent)
    → event_id_of (replacement_row current replacement) ≡ event_id_of current
replacement_row-id current replacement = ground arith

replacement_row-is_pitch :
    (current replacement : StagingRelayEvent)
    → is_pitch (replacement_row current replacement) ≡ is_pitch replacement
replacement_row-is_pitch current replacement = ground arith

replace_row-IsWellFormed :
    (d : StagingGameDocumentV2) (id : EventId) (e : StagingRelayEvent) {n : StagingGameDocumentV2}
    → IsWellFormed d
    → replace_row d id e ≡ draft n
    → IsWellFormed n
unfolding replace_row
replace_row-IsWellFormed d id e {n} w h =
    let (r, found, made) =
      corrected_chain (required_row d.events id)
        (λ r. draft (
          exclude_if (is_pitch r.1 && not (is_pitch e)) id replacement_note
            (with_events d (replace_at r.0 (replacement_row r.1 e) d.events))))
        h in
    let (got, named) = required_row-found d.events id {r = r} found in
    let equal : exclude_if (is_pitch r.1 && not (is_pitch e)) id replacement_note
          (with_events d (replace_at r.0 (replacement_row r.1 e) d.events))
        ≡ n =
      cc in
    subst IsWellFormed equal (
      replace_at-IsWellFormed d r.0 r.1 (replacement_row r.1 e) (is_pitch r.1 && not (is_pitch e))
        id replacement_note got named (replacement_row-id r.1 e)
        (rw (replacement_row-is_pitch r.1 e) refl) w)

observe-id : (o : ObservedState) (e : StagingRelayEvent) → event_id_of (observe o e) ≡ event_id_of e
observe-id o e = ground arith

observe-is_pitch :
    (o : ObservedState) (e : StagingRelayEvent)
    → (is_pitch e && not (is_pitch (observe o e))) ≡ false
observe-is_pitch o e = ground arith

update_row_observation-IsWellFormed :
    (d : StagingGameDocumentV2) (id : EventId) (o : ObservedState) {n : StagingGameDocumentV2}
    → IsWellFormed d
    → update_row_observation d id o ≡ draft n
    → IsWellFormed n
unfolding update_row_observation
update_row_observation-IsWellFormed d id o {n} w h =
    let (r, found, made) = corrected_chain (required_row d.events id) _ h in
    let (got, named) = required_row-found d.events id {r = r} found in
    let equal : with_events d (replace_at r.0 (observe o r.1) d.events) ≡ n = ground arith in
    subst IsWellFormed equal (
      replace_at-IsWellFormed d r.0 r.1 (observe o r.1) false id replacement_note got named
        (observe-id o r.1) (observe-is_pitch o r.1) w)

insert_row-IsWellFormed :
    (d : StagingGameDocumentV2) (e : StagingRelayEvent) (before : Option EventId)
    {es : List StagingRelayEvent}
    → IsWellFormed d
    → insert_row d.events e before ≡ draft es
    → IsWellFormed (with_events d es)
unfolding insert_row
insert_row-IsWellFormed d e before {es} w h =
    let placed : place_row d.events e before ≡ draft es = ground arith in
    let fresh : any (is_row (event_id_of e)) d.events ≡ false = ground arith in
    with_events-IsWellFormed d es false 0 deletion_note
      (λ k. ground (
        arith,
        w.distinct k,
        count-place_row (is_row k) d.events e before {fs = es} placed,
        count-none (is_row (event_id_of e)) d.events fresh,
      ))
      (λ k other. omega (arith, count-place_row (names_pitch k) d.events e before {fs = es} placed))
      w

move_row-IsWellFormed :
    (d : StagingGameDocumentV2) (id : EventId) (before : Option EventId)
    {es : List StagingRelayEvent}
    → IsWellFormed d
    → move_row d.events id before ≡ draft es
    → IsWellFormed (with_events d es)
move_row-IsWellFormed d id before {es} w h =
    with_events-IsWellFormed d es false 0 deletion_note
      (λ k. omega (arith, w.distinct k, count-move_row (is_row k) d.events id before {fs = es} h))
      (λ k other. omega (arith, count-move_row (names_pitch k) d.events id before {fs = es} h)) w

-- A command that succeeds keeps the identifiers of the rows distinct and every linked candidate
-- linked to a pitch row: a pitch that is deleted, or replaced by another kind of row, takes its
-- links along.
pub apply_atomic-IsWellFormed :
    (d : StagingGameDocumentV2) (c : AtomicCorrectionCommand) {n : StagingGameDocumentV2}
    → IsWellFormed d
    → apply_atomic d c ≡ draft n
    → IsWellFormed n
unfolding apply_atomic
apply_atomic-IsWellFormed d (AtomicCorrectionCommand.add_event e before) w h =
    let (es, placed, made) =
      corrected_chain (insert_row d.events e before) (λ es. draft (with_events d es)) h in
    subst IsWellFormed (draft-injective made)
      (insert_row-IsWellFormed d e before {es = es} w placed)
apply_atomic-IsWellFormed d (AtomicCorrectionCommand.delete_event id) {n} w h =
    delete_row-IsWellFormed d id {n = n} w h
apply_atomic-IsWellFormed d (AtomicCorrectionCommand.replace_event id e) {n} w h =
    replace_row-IsWellFormed d id e {n = n} w h
apply_atomic-IsWellFormed d (AtomicCorrectionCommand.update_observed_state id o) {n} w h =
    update_row_observation-IsWellFormed d id o {n = n} w h
apply_atomic-IsWellFormed d (AtomicCorrectionCommand.move_event id before) w h =
    let (es, placed, made) =
      corrected_chain (move_row d.events id before) (λ es. draft (with_events d es)) h in
    subst IsWellFormed (draft-injective made) (move_row-IsWellFormed d id before {es = es} w placed)
apply_atomic-IsWellFormed d (AtomicCorrectionCommand.update_roster_player side id p) w h =
    update_roster_player_cases IsWellFormed d side id p
      (λ i found same. record { distinct = w.distinct; links = w.links }) h
apply_atomic-IsWellFormed d (AtomicCorrectionCommand.update_roster_position side id ps) w h =
    update_roster_position_cases IsWellFormed d side id ps
      (λ p i found same. record { distinct = w.distinct; links = w.links }) h
apply_atomic-IsWellFormed d (AtomicCorrectionCommand.update_batter_record id r) w h =
    update_batter_record_cases IsWellFormed d id r
      (λ same. record { distinct = w.distinct; links = w.links }) h
apply_atomic-IsWellFormed d (AtomicCorrectionCommand.update_pitcher_record id r) w h =
    update_pitcher_record_cases IsWellFormed d id r
      (λ same. record { distinct = w.distinct; links = w.links }) h
apply_atomic-IsWellFormed d (AtomicCorrectionCommand.link_tracking_candidate t e) {n} w h =
    update_tracking_resolution-IsWellFormed d t (TrackingResolution.linked e) {n = n} w h
apply_atomic-IsWellFormed d (AtomicCorrectionCommand.mark_tracking_duplicate t canonical) {n} w h =
    let (c, present, made) =
      corrected_chain (required_tracking_candidate d canonical)
        (λ c. update_tracking_resolution d t (TrackingResolution.duplicate canonical))
        (ground arith) in
    update_tracking_resolution-IsWellFormed d t (TrackingResolution.duplicate canonical) {n = n} w
      made
apply_atomic-IsWellFormed d (AtomicCorrectionCommand.exclude_tracking_candidate t r why) {n} w h =
    update_tracking_resolution-IsWellFormed d t (TrackingResolution.excluded r why) {n = n} w h
apply_atomic-IsWellFormed d (AtomicCorrectionCommand.unlink_tracking_candidate t) {n} w h =
    update_tracking_resolution-IsWellFormed d t TrackingResolution.pending {n = n} w h
apply_atomic-IsWellFormed d AtomicCorrectionCommand.reconcile_tracking_plate_appearance_contexts {n}
      w h =
    reconcile_tracking_contexts-IsWellFormed d {n = n} w h

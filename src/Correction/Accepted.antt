-- ===== src/Correction/Accepted.antt =====
-- When the draft of a correction is decoded: whatever the commands, only the content of a row can
-- make `parseStagingGameDocumentV2` refuse it in packages/correction/src/commands.ts.
use mathlib.Core.Path.{subst}
use kbo_workbench.Prelude.{
  Bool-cases, List, arith, if◌then◌else◌, inl, inr, map, not, refl, some, ℕ, ◌&&◌, ◌∙◌, ◌≡◌, ◌≢◌,
}
use kbo_workbench.Contracts.Document.{
  Metadata, OfficialRecords, Rosters, StagingGameDocumentV2, Teams, roster_of,
}
use kbo_workbench.Contracts.Event.{EventId, ObservedState, PlayerId, Side, StagingRelayEvent}
use kbo_workbench.Contracts.Records.{RosterPlayer}
use kbo_workbench.Contracts.Semantics.{player_ids}
use kbo_workbench.Contracts.Tracking.{TrackingResolution}
use kbo_workbench.Correction.Commands.{
  AtomicCorrectionCommand, apply_atomic, delete_row, deletion_note, exclude_if, is_pitch,
  is_source_row, observe, replace_row, replacement_note, replacement_row, update_row_observation,
}
use kbo_workbench.Correction.RosterLaws.{
  update_batter_record_cases, update_pitcher_record_cases, update_roster_player_cases,
  update_roster_position_cases,
}
use kbo_workbench.Correction.Rosters.{has_id, index_where, with_players}
use kbo_workbench.Correction.Rows.{
  Corrected, CorrectionError, corrected_chain, draft, draft-injective, insert_row, move_row,
  remove_at, replace_at, required_row, thrown, with_events, ◌>>=◌,
}
use kbo_workbench.Correction.Structure.{
  HeadHolds, IsStructured, map-replace_at, occurrences-put_record,
}
use kbo_workbench.Correction.StructuredCommands.{
  exclude_if-IsStructured, reconcile-IsStructured, required_tracking_candidate-occurs,
  update_tracking_resolution-IsStructured, with_events-IsStructured,
}
use kbo_workbench.Correction.Tracking.{required_tracking_candidate, update_tracking_resolution}

rows-IsStructured :
    (d : StagingGameDocumentV2) (step : Corrected (List StagingRelayEvent))
    {n : StagingGameDocumentV2}
    → IsStructured d
    → (step >>= λ es. draft (with_events d es)) ≡ draft n
    → IsStructured n
rows-IsStructured d step s h =
    let (es, placed, made) = corrected_chain step (λ es. draft (with_events d es)) h in
    subst IsStructured (draft-injective made) (with_events-IsStructured d es s)

delete_row-IsStructured :
    (d : StagingGameDocumentV2) (id : EventId) {n : StagingGameDocumentV2}
    → IsStructured d
    → delete_row d id ≡ draft n
    → IsStructured n
unfolding delete_row
delete_row-IsStructured d id s h =
    let (r, found, made) =
      corrected_chain (required_row d.events id)
        (λ r.
          draft
            (exclude_if (is_pitch r.1) id deletion_note (with_events d (remove_at r.0 d.events))))
        h in
    subst IsStructured (draft-injective made)
      (exclude_if-IsStructured (is_pitch r.1) id deletion_note _ (with_events-IsStructured d _ s))

replace_row-IsStructured :
    (d : StagingGameDocumentV2) (id : EventId) (e : StagingRelayEvent) {n : StagingGameDocumentV2}
    → IsStructured d
    → replace_row d id e ≡ draft n
    → IsStructured n
unfolding replace_row
replace_row-IsStructured d id e s h =
    let (r, found, made) =
      corrected_chain (required_row d.events id)
        (λ r. draft (
          exclude_if (is_pitch r.1 && not (is_pitch e)) id replacement_note
            (with_events d (replace_at r.0 (replacement_row r.1 e) d.events))))
        h in
    subst IsStructured (draft-injective made) (
      exclude_if-IsStructured (is_pitch r.1 && not (is_pitch e)) id replacement_note _
        (with_events-IsStructured d _ s))

update_row_observation-IsStructured :
    (d : StagingGameDocumentV2) (id : EventId) (o : ObservedState) {n : StagingGameDocumentV2}
    → IsStructured d
    → update_row_observation d id o ≡ draft n
    → IsStructured n
unfolding update_row_observation
update_row_observation-IsStructured d id o {n} s h =
    let (r, found, made) =
      corrected_chain (required_row d.events id)
        (λ r.
          if is_source_row r.1
          then draft (with_events d (replace_at r.0 (observe o r.1) d.events))
          else thrown CorrectionError.observed_state_of_manual_row)
        h in
    elim (Bool-cases (is_source_row r.1)) [
      | inl source ↦
          subst IsStructured (draft-injective (rw source at made)) (with_events-IsStructured d _ s)
      | inr manual ↦
          let failed : thrown CorrectionError.observed_state_of_manual_row ≡ draft n =
            rw manual at made in
          cc
    ]

HeadHolds-rosters :
    {m : Metadata} {t : Teams} {o : OfficialRecords} (r s : Rosters)
    → s.away.team_id ≡ r.away.team_id
    → s.home.team_id ≡ r.home.team_id
    → player_ids s.away ≡ player_ids r.away
    → player_ids s.home ≡ player_ids r.home
    → HeadHolds m t r o
    → HeadHolds m t s o
HeadHolds-rosters r s away home aways homes h = record {
  date = h.date;
  two_teams = h.two_teams;
  away_team = away ∙ h.away_team;
  home_team = home ∙ h.home_team;
  players = λ k. rw (aways, homes) (h.players k);
  batters = h.batters;
  pitchers = h.pitchers;
}

with_players-IsStructured :
    (d : StagingGameDocumentV2) (side : Side) (ps : List RosterPlayer)
    → map (λ p. p.player_id) ps ≡ player_ids (roster_of side d.rosters)
    → IsStructured d
    → IsStructured (with_players d side ps)
with_players-IsStructured d Side.away ps same s = record {
  head =
      HeadHolds-rosters d.rosters (with_players d Side.away ps).rosters refl refl same refl s.head;
  tracking = s.tracking;
}
with_players-IsStructured d Side.home ps same s = record {
  head =
      HeadHolds-rosters d.rosters (with_players d Side.home ps).rosters refl refl refl same s.head;
  tracking = s.tracking;
}

placed_player-IsStructured :
    (d : StagingGameDocumentV2) (side : Side) (id : PlayerId) (p : RosterPlayer) (i : ℕ)
    → index_where (has_id (λ q. q.player_id) id) (roster_of side d.rosters).players ≡ some i
    → p.player_id ≡ id
    → IsStructured d
    → IsStructured (with_players d side (replace_at i p (roster_of side d.rosters).players))
placed_player-IsStructured d side id p i found same s =
    with_players-IsStructured d side _
      (map-replace_at (λ q. q.player_id) id p (roster_of side d.rosters).players i found same) s

-- A command that succeeds keeps the structure.
pub apply_atomic-IsStructured :
    (d : StagingGameDocumentV2) (c : AtomicCorrectionCommand) {n : StagingGameDocumentV2}
    → IsStructured d
    → apply_atomic d c ≡ draft n
    → IsStructured n
unfolding apply_atomic
apply_atomic-IsStructured d (AtomicCorrectionCommand.add_event e before) {n} s h =
    rows-IsStructured d (insert_row d.events e before) {n = n} s h
apply_atomic-IsStructured d (AtomicCorrectionCommand.delete_event id) {n} s h =
    delete_row-IsStructured d id {n = n} s h
apply_atomic-IsStructured d (AtomicCorrectionCommand.replace_event id e) {n} s h =
    replace_row-IsStructured d id e {n = n} s h
apply_atomic-IsStructured d (AtomicCorrectionCommand.update_observed_state id o) {n} s h =
    update_row_observation-IsStructured d id o {n = n} s h
apply_atomic-IsStructured d (AtomicCorrectionCommand.move_event id before) {n} s h =
    rows-IsStructured d (move_row d.events id before) {n = n} s h
apply_atomic-IsStructured d (AtomicCorrectionCommand.update_roster_player side id p) {n} s h =
    update_roster_player_cases IsStructured d side id p {n = n}
      (λ i found same. placed_player-IsStructured d side id p i found same s) h
apply_atomic-IsStructured d (AtomicCorrectionCommand.update_roster_position side id ps) {n} s h =
    update_roster_position_cases IsStructured d side id ps {n = n}
      (λ p i found same. placed_player-IsStructured d side id p i found same s) h
apply_atomic-IsStructured d (AtomicCorrectionCommand.update_batter_record id r) {n} s h =
    update_batter_record_cases IsStructured d id r {n = n}
      (λ same. record {
        head = record {
          date = s.head.date;
          two_teams = s.head.two_teams;
          away_team = s.head.away_team;
          home_team = s.head.home_team;
          players = s.head.players;
          batters =
              occurrences-put_record (λ b. b.player_id) id r d.official_records.batters same
                s.head.batters;
          pitchers = s.head.pitchers;
        };
        tracking = s.tracking;
      })
      h
apply_atomic-IsStructured d (AtomicCorrectionCommand.update_pitcher_record id r) {n} s h =
    update_pitcher_record_cases IsStructured d id r {n = n}
      (λ same. record {
        head = record {
          date = s.head.date;
          two_teams = s.head.two_teams;
          away_team = s.head.away_team;
          home_team = s.head.home_team;
          players = s.head.players;
          batters = s.head.batters;
          pitchers =
              occurrences-put_record (λ p. p.player_id) id r d.official_records.pitchers same
                s.head.pitchers;
        };
        tracking = s.tracking;
      })
      h
apply_atomic-IsStructured d (AtomicCorrectionCommand.link_tracking_candidate t e) {n} s h =
    update_tracking_resolution-IsStructured d t (TrackingResolution.linked e) {n = n} tt s h
apply_atomic-IsStructured d (AtomicCorrectionCommand.mark_tracking_duplicate t canonical) {n} s h =
    let (c, present, made) =
      corrected_chain (required_tracking_candidate d canonical)
        (λ c. update_tracking_resolution d t (TrackingResolution.duplicate canonical))
        (ground arith) in
    let other : canonical ≢ t = ground arith in
    update_tracking_resolution-IsStructured d t (TrackingResolution.duplicate canonical) {n = n}
      (other, required_tracking_candidate-occurs d canonical {c = c} present) s made
apply_atomic-IsStructured d (AtomicCorrectionCommand.exclude_tracking_candidate t r why) {n} s h =
    update_tracking_resolution-IsStructured d t (TrackingResolution.excluded r why) {n = n} tt s h
apply_atomic-IsStructured d (AtomicCorrectionCommand.unlink_tracking_candidate t) {n} s h =
    update_tracking_resolution-IsStructured d t TrackingResolution.pending {n = n} tt s h
apply_atomic-IsStructured d AtomicCorrectionCommand.reconcile_tracking_plate_appearance_contexts {n}
      s h =
    reconcile-IsStructured d {n = n} s h

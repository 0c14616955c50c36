-- ===== src/Contracts/Semantics.antt =====
-- `validateStagingGameDocumentV2Semantics` of packages/contracts/src/game-document.ts, and what it
-- calls. The message of an issue is fixed by its code and is left out.
use Prim.Native.Nat.{◌%◌}
use kbo_workbench.Prelude.{
  Bool, List, Option, String, [], add_new, contains, false, if◌then◌else◌, is_some, leb, map, none,
  not, some, suc, true, ℕ, ◌&&◌, ◌++◌, ◌==◌, ◌||◌, ◌∷◌,
}
use kbo_workbench.Collections.Distinct.{set_of}
use kbo_workbench.Contracts.Document.{IsoDate, StagingGameDocumentV2}
use kbo_workbench.Contracts.Event.{
  EventId, IdentityKind, PlateResult, PlayerId, Side, StagingRelayEvent, base_of, event_id_of,
}
use kbo_workbench.Contracts.Records.{TeamRoster}
use kbo_workbench.Contracts.Text.{codes, same_codes, trim}
use kbo_workbench.Contracts.Tracking.{TrackingCandidate, TrackingResolution}

pub data ContractIssueCode : Type 0 where
  invalid_game_date teams_not_distinct : ContractIssueCode
  away_roster_team_mismatch home_roster_team_mismatch : ContractIssueCode
  duplicate_roster_player_id duplicate_official_record_player_id : ContractIssueCode
  event_sequence_not_canonical duplicate_event_id relay_text_not_trimmed : ContractIssueCode
  manual_relay_text_missing manual_observed_state_forbidden : ContractIssueCode
  batted_ball_not_allowed : ContractIssueCode
  tracking_sequence_not_canonical duplicate_tracking_id : ContractIssueCode
  tracking_duplicate_self_reference tracking_duplicate_target_missing : ContractIssueCode

pub data RecordType : Type 0 where
  batters pitchers : RecordType

pub data EventField : Type 0 where
  sequence event_id relay_text observed_state_after payload : EventField

pub data TrackingField : Type 0 where
  sequence tracking_id canonical_tracking_id : TrackingField

pub data IssuePath : Type 0 where
  game_date teams : IssuePath
  roster_team : Side → IssuePath
  roster_player : Side → ℕ → IssuePath
  official_record : RecordType → ℕ → IssuePath
  event : ℕ → EventField → IssuePath
  tracking : ℕ → TrackingField → IssuePath

pub record ContractIssue : Type 0 where
  pub code : ContractIssueCode
  pub path : IssuePath

-- `if (test) issues.push(issue(code, path, message))`
abbrev pub issue_if : Bool → ContractIssueCode → IssuePath → List ContractIssue
issue_if test c p = if test then record { code = c; path = p } ∷ [] else []

abbrev is_leap_year : ℕ → Bool
is_leap_year y = y % 4 == 0 && not (y % 100 == 0) || y % 400 == 0

abbrev is_short_month : ℕ → Bool
is_short_month m = m == 4 || m == 6 || m == 9 || m == 11

abbrev days_in_month : ℕ → ℕ → ℕ
days_in_month y m =
    if m == 2 then (if is_leap_year y then 29 else 28) else if is_short_month m then 30 else 31

-- The date that `new Date` reads is finite and prints as it was written.
abbrev pub is_calendar_date : IsoDate → Bool
is_calendar_date d =
    leb 1 d.month && leb d.month 12 && leb 1 d.day && leb d.day (days_in_month d.year d.month)

unfoldable pub allows_batted_ball : PlateResult → Bool
allows_batted_ball PlateResult.walk = false
allows_batted_ball PlateResult.intentional_walk = false
allows_batted_ball PlateResult.hit_by_pitch = false
allows_batted_ball PlateResult.strikeout = false
allows_batted_ball PlateResult.interference = false
allows_batted_ball _ = true

abbrev pub is_trimmed : Option String → Bool
is_trimmed none = true
is_trimmed (some text) = same_codes (codes text) (trim (codes text))

abbrev pub is_manual : StagingRelayEvent → Bool
is_manual e = elim (base_of e).identity.kind [ IdentityKind.manual ↦ true | _ ↦ false ]

abbrev pub has_forbidden_batted_ball : StagingRelayEvent → Bool
has_forbidden_batted_ball (StagingRelayEvent.plate_result e) =
    not (allows_batted_ball e.payload.result)
    && (is_some e.payload.batted_ball_type || is_some e.payload.is_bunt)
has_forbidden_batted_ball _ = false

-- The issues of the row at index `i`, behind rows with the identifiers `seen`.
abbrev pub row_issues : ℕ → List EventId → StagingRelayEvent → List ContractIssue
row_issues i seen e =
    let b = base_of e in
    issue_if (not (b.sequence == i)) ContractIssueCode.event_sequence_not_canonical
      (IssuePath.event i EventField.sequence)
    ++ (issue_if (contains (event_id_of e) seen) ContractIssueCode.duplicate_event_id
          (IssuePath.event i EventField.event_id)
        ++ (issue_if (not (is_trimmed b.relay_text)) ContractIssueCode.relay_text_not_trimmed
              (IssuePath.event i EventField.relay_text)
            ++ (issue_if (is_manual e && not (is_some b.relay_text))
                  ContractIssueCode.manual_relay_text_missing
                  (IssuePath.event i EventField.relay_text)
                ++ (issue_if (is_manual e && is_some b.observed_state_after)
                      ContractIssueCode.manual_observed_state_forbidden
                      (IssuePath.event i EventField.observed_state_after)
                    ++ issue_if (has_forbidden_batted_ball e)
                        ContractIssueCode.batted_ball_not_allowed
                        (IssuePath.event i EventField.payload)))))

unfoldable pub event_issues : ℕ → List EventId → List StagingRelayEvent → List ContractIssue
event_issues i seen [] = []
event_issues i seen (e ∷ es) =
    row_issues i seen e ++ event_issues (suc i) (add_new (event_id_of e) seen) es

-- The first loop over the tracking candidates.
unfoldable pub candidate_issues : ℕ → List ℕ → List TrackingCandidate → List ContractIssue
candidate_issues i seen [] = []
candidate_issues i seen (c ∷ cs) =
    (issue_if (not (c.sequence == i)) ContractIssueCode.tracking_sequence_not_canonical
        (IssuePath.tracking i TrackingField.sequence)
      ++ issue_if (contains c.tracking_id seen) ContractIssueCode.duplicate_tracking_id
          (IssuePath.tracking i TrackingField.tracking_id))
    ++ candidate_issues (suc i) (add_new c.tracking_id seen) cs

abbrev pub is_own_duplicate : ℕ → TrackingResolution → Bool
is_own_duplicate own (TrackingResolution.duplicate k) = k == own
is_own_duplicate own _ = false

abbrev pub is_missing_duplicate : List ℕ → TrackingResolution → Bool
is_missing_duplicate ids (TrackingResolution.duplicate k) = not (contains k ids)
is_missing_duplicate ids _ = false

-- The second loop, with the set of all tracking identifiers.
unfoldable pub duplicate_issues : List ℕ → ℕ → List TrackingCandidate → List ContractIssue
duplicate_issues ids i [] = []
duplicate_issues ids i (c ∷ cs) =
    (issue_if (is_own_duplicate c.tracking_id c.resolution)
        ContractIssueCode.tracking_duplicate_self_reference
        (IssuePath.tracking i TrackingField.canonical_tracking_id)
      ++ issue_if (is_missing_duplicate ids c.resolution)
          ContractIssueCode.tracking_duplicate_target_missing
          (IssuePath.tracking i TrackingField.canonical_tracking_id))
    ++ duplicate_issues ids (suc i) cs

-- One inner loop of `validateUniquePlayers` and of `validateUniqueOfficialRecords`: an issue for
-- each player who has come before.
unfoldable pub repeated_issues :
    ContractIssueCode → (ℕ → IssuePath) → ℕ → List PlayerId → List PlayerId → List ContractIssue
repeated_issues c path i seen [] = []
repeated_issues c path i seen (p ∷ ps) =
    issue_if (contains p seen) c (path i) ++ repeated_issues c path (suc i) (add_new p seen) ps

abbrev pub player_ids : TeamRoster → List PlayerId
player_ids t = map (λ p. p.player_id) t.players

unfoldable validate_unique_players : StagingGameDocumentV2 → List ContractIssue
unfolding repeated_issues
validate_unique_players d =
    let away = player_ids d.rosters.away in
    repeated_issues ContractIssueCode.duplicate_roster_player_id (IssuePath.roster_player Side.away)
      0 [] away
    ++ repeated_issues ContractIssueCode.duplicate_roster_player_id
        (IssuePath.roster_player Side.home) 0 (set_of [] away) (player_ids d.rosters.home)

unfoldable validate_unique_official_records : StagingGameDocumentV2 → List ContractIssue
unfolding repeated_issues
validate_unique_official_records d =
    repeated_issues ContractIssueCode.duplicate_official_record_player_id
      (IssuePath.official_record RecordType.batters) 0 []
      (map (λ r. r.player_id) d.official_records.batters)
    ++ repeated_issues ContractIssueCode.duplicate_official_record_player_id
        (IssuePath.official_record RecordType.pitchers) 0 []
        (map (λ r. r.player_id) d.official_records.pitchers)

abbrev pub header_issues : StagingGameDocumentV2 → List ContractIssue
header_issues d =
    issue_if (not (is_calendar_date d.metadata.game_date)) ContractIssueCode.invalid_game_date
      IssuePath.game_date
    ++ (issue_if (d.teams.away.team_id == d.teams.home.team_id) ContractIssueCode.teams_not_distinct
          IssuePath.teams
        ++ (issue_if (not (d.rosters.away.team_id == d.teams.away.team_id))
              ContractIssueCode.away_roster_team_mismatch (IssuePath.roster_team Side.away)
            ++ issue_if (not (d.rosters.home.team_id == d.teams.home.team_id))
                ContractIssueCode.home_roster_team_mismatch (IssuePath.roster_team Side.home)))

unfoldable pub validate_staging_game_document_v2_semantics :
    StagingGameDocumentV2 → List ContractIssue
unfolding validate_unique_players validate_unique_official_records event_issues candidate_issues
    duplicate_issues trim allows_batted_ball
validate_staging_game_document_v2_semantics d =
    let ids = set_of [] (map (λ c. c.tracking_id) d.tracking_candidates) in
    header_issues d
    ++ (validate_unique_players d
        ++ (validate_unique_official_records d
            ++ (event_issues 0 [] d.events
                ++ (candidate_issues 0 [] d.tracking_candidates
                    ++ duplicate_issues ids 0 d.tracking_candidates))))

-- ===== src/Game/Findings.antt =====
-- `Finding` and `FindingDetail` of packages/game-core/src/types.ts. The display text of a finding
-- is fixed by the place that reports it and is left out; its code is a constructor.
use kbo_workbench.Prelude.{Bool, List, Option, String, false, true, ℕ}
use kbo_workbench.Contracts.Event.{EventId, Half, Side}

pub data FindingCategory : Type 0 where
  source domain persistence : FindingCategory

pub data FindingSeverity : Type 0 where
  warning blocking : FindingSeverity

pub data FindingCode : Type 0 where
  movement_origin_duplicated runner_not_at_origin runner_destination_occupied : FindingCode
  direct_outs_less_than_batter_out multiple_apparent_fourth_outs fourth_out_not_out : FindingCode
  fourth_out_not_after_third_out outs_exceed_three : FindingCode
  event_without_half event_half_mismatch unresolved_relay_row : FindingCode
  source_half_incomplete unexpected_half_start batter_start_after_three_outs : FindingCode
  plate_appearance_overlap pitch_without_plate_appearance pitch_batter_mismatch : FindingCode
  pitch_pitcher_mismatch pitch_after_terminal_count invalid_terminal_count : FindingCode
  substitution_runner_not_on_base player_roster_mismatch : FindingCode
  result_without_plate_appearance unresolved_plate_result result_batter_mismatch : FindingCode
  result_pitcher_mismatch walk_without_four_balls strikeout_without_three_strikes : FindingCode
  duplicate_batter_advance runner_advance_without_pitcher : FindingCode
  source_observation_mismatch source_terminal_bunt_count_display : FindingCode
  invalid_plate_result_link dangling_plate_result_link runner_advance_before_result : FindingCode
  linked_play_half_mismatch state_event_inside_linked_play : FindingCode
  dangling_review_reference self_review_reference future_review_reference : FindingCode
  review_half_mismatch review_target_outside_play : FindingCode
  invalid_called_game_declaration final_game_has_incomplete_half : FindingCode
  pitch_id_reused_within_game : FindingCode
  tracking_conflicting_candidates tracking_pending : FindingCode
  tracking_invalid_duplicate_resolution tracking_link_not_pitch : FindingCode
  tracking_pitch_id_mismatch tracking_non_actual_pitch_link : FindingCode
  tracking_plate_appearance_mismatch tracking_player_context_mismatch : FindingCode
  tracking_ordinal_differs_from_actual_pitch tracking_game_context_mismatch : FindingCode
  tracking_multiple_canonical tracking_missing_for_pitch : FindingCode
  official_rbi_not_verifiable official_batter_record_mismatch : FindingCode
  official_pitcher_record_mismatch official_batter_record_missing : FindingCode
  official_pitcher_record_missing : FindingCode

-- `code === "source_half_incomplete"`
abbrev pub is_source_half_incomplete : FindingCode → Bool
is_source_half_incomplete FindingCode.source_half_incomplete = true
is_source_half_incomplete _ = false

-- `code === "source.tracking.conflicting_candidates"`
abbrev pub is_conflict_code : FindingCode → Bool
is_conflict_code FindingCode.tracking_conflicting_candidates = true
is_conflict_code _ = false

abbrev pub is_blocking : FindingSeverity → Bool
is_blocking FindingSeverity.blocking = true
is_blocking FindingSeverity.warning = false

-- The fields of the observed state, which are also names in the details of a finding.
pub data ObservedField : Type 0 where
  balls strikes outs away_score home_score base_1 base_2 base_3 : ObservedField

-- The fields of the official records that hold a number.
pub data OfficialField : Type 0 where
  plate_appearances at_bats runs hits doubles triples home_runs runs_batted_in : OfficialField
  walks intentional_walks hit_by_pitch strikeouts sacrifice_bunts sacrifice_flies : OfficialField
  batters_faced outs_recorded earned_runs pitches strikes : OfficialField

pub data DetailField : Type 0 where
  runner_id from_base to_base outs inning half source_type : DetailField
  batter_id pitcher_id incoming_player_id : DetailField
  source_pitch_id actual_pitch_number plate_appearance_event_id : DetailField
  source_pitch_ordinal linked_count endpoint : DetailField
  source_candidate source_location : ℕ → DetailField
  observed : ObservedField → DetailField
  official : OfficialField → DetailField

pub data DetailValue : Type 0 where
  null : DetailValue
  flag : Bool → DetailValue
  number : ℕ → DetailValue
  identifier : ℕ → DetailValue
  half : Half → DetailValue
  side : Side → DetailValue
  text : String → DetailValue
  location : ℕ → DetailValue

pub record FindingDetail : Type 0 where
  pub field : DetailField
  pub expected : Option DetailValue
  pub actual : Option DetailValue

-- `recordIdentity`: an identifier as it is, or one with a role in front.
pub data RecordIdentity : Type 0 where
  identifier batter pitcher : ℕ → RecordIdentity

pub record Finding : Type 0 where
  pub code : FindingCode
  pub category : FindingCategory
  pub severity : FindingSeverity
  pub game_id : ℕ
  pub event_id : Option EventId
  pub event_sequence : Option ℕ
  pub record_identity : Option RecordIdentity
  pub details : List FindingDetail

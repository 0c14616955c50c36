-- ===== src/Reducer/Order.antt =====
-- `compareFindings` of packages/game-core/src/compiler/findings.ts, `comparePlayerLine` of
-- compiler/statistics.ts and `compareCanonicalStrings` of packages/contracts/src/canonical-json.ts.
use kbo_workbench.Prelude.{
  Bool, List, Option, String, [], arith, false, if◌then◌else◌, leb, ltb, none, refl, some, true, ℕ,
  ◌==◌, ◌∷◌, ◌≡◌,
}
use kbo_workbench.Contracts.Text.{codes}
use kbo_workbench.Game.Findings.{Finding, FindingCode}
use kbo_workbench.Game.Lines.{BatterLine, PitcherLine}

-- The codes as they are written in the source.
abbrev pub code_text : FindingCode → String
code_text FindingCode.movement_origin_duplicated = "movement_origin_duplicated"
code_text FindingCode.runner_not_at_origin = "runner_not_at_origin"
code_text FindingCode.runner_destination_occupied = "runner_destination_occupied"
code_text FindingCode.direct_outs_less_than_batter_out = "direct_outs_less_than_batter_out"
code_text FindingCode.multiple_apparent_fourth_outs = "multiple_apparent_fourth_outs"
code_text FindingCode.fourth_out_not_out = "fourth_out_not_out"
code_text FindingCode.fourth_out_not_after_third_out = "fourth_out_not_after_third_out"
code_text FindingCode.outs_exceed_three = "outs_exceed_three"
code_text FindingCode.event_without_half = "event_without_half"
code_text FindingCode.event_half_mismatch = "event_half_mismatch"
code_text FindingCode.unresolved_relay_row = "unresolved_relay_row"
code_text FindingCode.source_half_incomplete = "source_half_incomplete"
code_text FindingCode.unexpected_half_start = "unexpected_half_start"
code_text FindingCode.batter_start_after_three_outs = "batter_start_after_three_outs"
code_text FindingCode.plate_appearance_overlap = "plate_appearance_overlap"
code_text FindingCode.pitch_without_plate_appearance = "pitch_without_plate_appearance"
code_text FindingCode.pitch_batter_mismatch = "pitch_batter_mismatch"
code_text FindingCode.pitch_pitcher_mismatch = "pitch_pitcher_mismatch"
code_text FindingCode.pitch_after_terminal_count = "pitch_after_terminal_count"
code_text FindingCode.invalid_terminal_count = "invalid_terminal_count"
code_text FindingCode.substitution_runner_not_on_base = "substitution_runner_not_on_base"
code_text FindingCode.player_roster_mismatch = "player_roster_mismatch"
code_text FindingCode.result_without_plate_appearance = "result_without_plate_appearance"
code_text FindingCode.unresolved_plate_result = "unresolved_plate_result"
code_text FindingCode.result_batter_mismatch = "result_batter_mismatch"
code_text FindingCode.result_pitcher_mismatch = "result_pitcher_mismatch"
code_text FindingCode.walk_without_four_balls = "walk_without_four_balls"
code_text FindingCode.strikeout_without_three_strikes = "strikeout_without_three_strikes"
code_text FindingCode.duplicate_batter_advance = "duplicate_batter_advance"
code_text FindingCode.runner_advance_without_pitcher = "runner_advance_without_pitcher"
code_text FindingCode.source_observation_mismatch = "source_observation_mismatch"
code_text FindingCode.source_terminal_bunt_count_display = "source_terminal_bunt_count_display"
code_text FindingCode.invalid_plate_result_link = "invalid_plate_result_link"
code_text FindingCode.dangling_plate_result_link = "dangling_plate_result_link"
code_text FindingCode.runner_advance_before_result = "runner_advance_before_result"
code_text FindingCode.linked_play_half_mismatch = "linked_play_half_mismatch"
code_text FindingCode.state_event_inside_linked_play = "state_event_inside_linked_play"
code_text FindingCode.dangling_review_reference = "dangling_review_reference"
code_text FindingCode.self_review_reference = "self_review_reference"
code_text FindingCode.future_review_reference = "future_review_reference"
code_text FindingCode.review_half_mismatch = "review_half_mismatch"
code_text FindingCode.review_target_outside_play = "review_target_outside_play"
code_text FindingCode.invalid_called_game_declaration = "invalid_called_game_declaration"
code_text FindingCode.final_game_has_incomplete_half = "final_game_has_incomplete_half"
code_text FindingCode.pitch_id_reused_within_game = "source.pitch_id.reused_within_game"
code_text FindingCode.tracking_conflicting_candidates = "source.tracking.conflicting_candidates"
code_text FindingCode.tracking_pending = "source.tracking.pending"
code_text FindingCode.tracking_invalid_duplicate_resolution =
    "source.tracking.invalid_duplicate_resolution"
code_text FindingCode.tracking_link_not_pitch = "source.tracking.link_not_pitch"
code_text FindingCode.tracking_pitch_id_mismatch = "source.tracking.pitch_id_mismatch"
code_text FindingCode.tracking_non_actual_pitch_link = "domain.tracking.non_actual_pitch_link"
code_text FindingCode.tracking_plate_appearance_mismatch =
    "domain.tracking.plate_appearance_mismatch"
code_text FindingCode.tracking_player_context_mismatch = "source.tracking.player_context_mismatch"
code_text FindingCode.tracking_ordinal_differs_from_actual_pitch =
    "source.tracking.ordinal_differs_from_actual_pitch"
code_text FindingCode.tracking_game_context_mismatch = "source.tracking.game_context_mismatch"
code_text FindingCode.tracking_multiple_canonical = "domain.tracking.multiple_canonical"
code_text FindingCode.tracking_missing_for_pitch = "source.tracking.missing_for_pitch"
code_text FindingCode.official_rbi_not_verifiable = "official_rbi_not_verifiable"
code_text FindingCode.official_batter_record_mismatch = "official_batter_record_mismatch"
code_text FindingCode.official_pitcher_record_mismatch = "official_pitcher_record_mismatch"
code_text FindingCode.official_batter_record_missing = "official_batter_record_missing"
code_text FindingCode.official_pitcher_record_missing = "official_pitcher_record_missing"

-- `a <= b` on two texts, by their code points.
abbrev codes_le : List ℕ → List ℕ → Bool
codes_le [] ds = true
codes_le (c ∷ cs) [] = false
codes_le (c ∷ cs) (d ∷ ds) = if c == d then codes_le cs ds else ltb c d

-- `compareCanonicalStrings(a, b) <= 0`, for texts of ASCII characters, which are in normal form.
unfoldable canonical_le : String → String → Bool
canonical_le a b = codes_le (codes a) (codes b)

-- `eventSequence ?? Number.MAX_SAFE_INTEGER`
abbrev sequence_key : Option ℕ → ℕ
sequence_key none = 9007199254740991
sequence_key (some n) = n

-- `compareFindings(left, right) <= 0`
unfoldable pub finding_le : Finding → Finding → Bool
unfolding canonical_le
finding_le l r =
    if sequence_key l.event_sequence == sequence_key r.event_sequence
    then canonical_le (code_text l.code) (code_text r.code)
    else ltb (sequence_key l.event_sequence) (sequence_key r.event_sequence)

codes_le-total : (cs ds : List ℕ) → codes_le cs ds ≡ false → codes_le ds cs ≡ true
codes_le-total [] ds h = ground arith
codes_le-total (c ∷ cs) [] h = refl
codes_le-total (c ∷ cs) (d ∷ ds) h = ground (arith, codes_le-total cs ds)

canonical_le-total : (a b : String) → canonical_le a b ≡ false → canonical_le b a ≡ true
unfolding canonical_le
canonical_le-total a b h = codes_le-total (codes a) (codes b) h

later_key :
    (m n : ℕ) (p q : Bool)
    → (p ≡ false → q ≡ true)
    → (if m == n then p else ltb m n) ≡ false
    → (if n == m then q else ltb n m) ≡ true
later_key m n p q f h = ground arith

pub finding_le-total : (l r : Finding) → finding_le l r ≡ false → finding_le r l ≡ true
unfolding finding_le
finding_le-total l r h =
    later_key (sequence_key l.event_sequence) (sequence_key r.event_sequence)
      (canonical_le (code_text l.code) (code_text r.code))
      (canonical_le (code_text r.code) (code_text l.code))
      (canonical_le-total (code_text l.code) (code_text r.code)) h

-- Players in the order of their identifiers, which are numbered in the order of
-- `compareCanonicalStrings`.
abbrev pub batter_le : BatterLine → BatterLine → Bool
batter_le l r = leb l.player_id r.player_id

abbrev pub pitcher_le : PitcherLine → PitcherLine → Bool
pitcher_le l r = leb l.player_id r.player_id

-- ===== src/Tests/Rules.antt =====
-- Witnesses for the rules of counts, results and terminal pitches.
use kbo_workbench.Prelude.{
  List, [], all, arith, min, none, refl, reverse, take, true, ◌++◌, ◌+◌, ◌<◌, ◌↔◌, ◌∷◌, ◌≡◌, ◌≤◌,
}
use kbo_workbench.Contracts.Event.{PitchCall, PlateResult, StagingRelayEvent, is_non_state}
use kbo_workbench.Rules.Counts.{
  count_after, count_of_calls, is_walk_transferred_to_previous_pitcher, walk_transferred_iff,
}
use kbo_workbench.Rules.Terminal.{
  EndsResult, find_terminal_pitch_adjacent, find_terminal_pitch_for_plate_result, pitch_for_result,
  skip_non_state,
}
use kbo_workbench.Tests.Samples.{batter_row, pitch_event, result_event, row}

-- Three fouls and a ball, and then a called strike.
abbrev calls : List PitchCall
calls =
    PitchCall.foul ∷ PitchCall.foul ∷ PitchCall.foul ∷ PitchCall.ball ∷ PitchCall.called_strike ∷ []

count_of_calls_example :
    ((count_after 1 0 calls).0 ≡ 1 + 1)
    × (0 + 1 ≤ (count_after 1 0 calls).1)
    × ((count_after 1 0 calls).1 ≤ 2 + 1)
    × ((count_after 1 0 calls).1 ≤ 0 + 1 + 3)
    × (min 2 (count_after 1 0 calls).1 ≡ min 2 (0 + 1 + 3))
count_of_calls_example = count_of_calls 1 0 calls (omega arith)

walk_transferred_iff_example :
    (is_walk_transferred_to_previous_pitcher 3 2 ≡ true) ↔ ((2 ≤ 3) × (2 < 3))
walk_transferred_iff_example = walk_transferred_iff 3 2 (omega arith) (omega arith)

-- A single, with a review between it and the pitch that it ends.
abbrev reviewed_events : List StagingRelayEvent
reviewed_events =
    batter_row 101 1 1
    ∷ StagingRelayEvent.pitch (pitch_event 102 2 PitchCall.in_play)
    ∷ StagingRelayEvent.review
        (record { base = row 103 3; payload = record { reviewed_event_id = none } })
    ∷ StagingRelayEvent.plate_result (result_event 104 4 1 PlateResult.single)
    ∷ []

find_terminal_pitch_adjacent_example :
    (gap older : List StagingRelayEvent) × (reverse (take 3 reviewed_events)
      ≡ gap ++ StagingRelayEvent.pitch (pitch_event 102 2 PitchCall.in_play) ∷ older)
    × (all is_non_state gap ≡ true)
    × EndsResult (result_event 104 4 1 PlateResult.single) (pitch_event 102 2 PitchCall.in_play)
unfolding find_terminal_pitch_for_plate_result skip_non_state pitch_for_result
find_terminal_pitch_adjacent_example =
    find_terminal_pitch_adjacent reviewed_events 3 (result_event 104 4 1 PlateResult.single) refl
      refl

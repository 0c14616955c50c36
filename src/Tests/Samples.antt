-- ===== src/Tests/Samples.antt =====
-- A short ledger: a single, then a home run that brings the runner in.
use kbo_workbench.Prelude.{List, Option, [], false, none, some, true, ℕ, ◌∷◌}
use kbo_workbench.Contracts.Document.{GameStatus, RevisionBase, StagingGameDocumentV2}
use kbo_workbench.Contracts.Event.{
  EventId, Half, IdentityKind, LedgerEventBase, PitchCall, PitchEvent, PlateResult,
  PlateResultEvent, PlayerId, RunnerAdvanceContext, RunnerAdvanceEvent, RunnerOutKind,
  RunnerOutcome, StagingRelayEvent,
}
use kbo_workbench.Contracts.Records.{RosterPlayer}
use kbo_workbench.Contracts.Tracking.{TrackingCandidate, TrackingResolution}
use kbo_workbench.Game.State.{BaseOccupant, CompiledRunnerMovement, MovementId, MovementReason}

abbrev pub row : EventId → ℕ → LedgerEventBase
row e n = record {
  identity = record { kind = IdentityKind.source; event_id = e };
  sequence = n;
  inning = 1;
  half = Half.top;
  relay_text = none;
  observed_state_after = none;
}

abbrev pub batter_row : EventId → ℕ → PlayerId → StagingRelayEvent
batter_row e n b =
    StagingRelayEvent.batter_start
      (record { base = row e n; payload = record { batter_id = b; pitcher_id = 50 } })

abbrev pub pitch_event : EventId → ℕ → PitchCall → PitchEvent
pitch_event e n c = record {
  base = row e n;
  payload = record { source_pitch_id = none; call = c; batter_id = none; pitcher_id = none };
}

abbrev pub result_event : EventId → ℕ → PlayerId → PlateResult → PlateResultEvent
result_event e n b r = record {
  base = row e n;
  payload = record {
    result = r;
    batter_id = b;
    pitcher_id = 50;
    credited_rbi = none;
    outs_recorded = none;
    batter_destination = none;
    batted_ball_type = none;
    is_bunt = none;
  };
}

abbrev runner_event :
    EventId → ℕ → PlayerId → ℕ → ℕ → RunnerOutcome → RunnerAdvanceContext → RunnerAdvanceEvent
runner_event e n p f t o c = record {
  base = row e n;
  payload = record {
    runner_id = p;
    from_base = f;
    to_base = t;
    outcome = o;
    out_kind = none;
    supersedes_third_out = none;
    responsible_pitcher_id = none;
    context = c;
  };
}

abbrev sample_events : List StagingRelayEvent
sample_events =
    StagingRelayEvent.half_inning_start (row 100 0)
    ∷ batter_row 101 1 1
    ∷ StagingRelayEvent.pitch (pitch_event 102 2 PitchCall.in_play)
    ∷ StagingRelayEvent.plate_result (result_event 103 3 1 PlateResult.single)
    ∷ batter_row 104 4 2
    ∷ StagingRelayEvent.pitch (pitch_event 105 5 PitchCall.ball)
    ∷ StagingRelayEvent.pitch (pitch_event 106 6 PitchCall.in_play)
    ∷ StagingRelayEvent.plate_result (result_event 107 7 2 PlateResult.home_run)
    ∷ StagingRelayEvent.runner_advance
        (runner_event 108 8 1 1 4 RunnerOutcome.scored (RunnerAdvanceContext.plate_result 107))
    ∷ []

abbrev pub roster_player : PlayerId → ℕ → RosterPlayer
roster_player p n = record {
  player_id = p;
  name = "name";
  batting_order = some n;
  starter = true;
  positions = "중견수" ∷ [];
}

abbrev pub sample_document : StagingGameDocumentV2
sample_document = record {
  revision_base = RevisionBase.new_game;
  metadata = record {
    game_id = 9;
    season = 2024;
    game_date = record { year = 2024; month = 2; day = 29 };
    status = GameStatus.in_progress;
    scheduled_innings = 9;
  };
  teams = record {
    away = record { team_id = 1; name = "LG" };
    home = record { team_id = 2; name = "KT" };
  };
  rosters = record {
    away = record {
      team_id = 1;
      players = roster_player 1 1 ∷ roster_player 2 2 ∷ roster_player 3 3 ∷ [];
    };
    home = record { team_id = 2; players = roster_player 50 1 ∷ roster_player 51 2 ∷ [] };
  };
  events = sample_events;
  tracking_candidates = [];
  official_records = record { batters = []; pitchers = [] };
}

-- A movement of a runner for whom pitcher 50 answers.
abbrev pub movement :
    PlayerId → ℕ → ℕ → RunnerOutcome → Option RunnerOutKind → CompiledRunnerMovement
movement p f t o k = record {
  movement_id = MovementId.relay p;
  source_event_id = none;
  runner_id = p;
  from_base = f;
  to_base = t;
  outcome = o;
  out_kind = k;
  supersedes_third_out = none;
  responsible_pitcher_id = 50;
  reason = MovementReason.plate_result;
  derived = false;
  sequence = 0;
}

abbrev pub on_base : PlayerId → Option BaseOccupant
on_base p = some (record { runner_id = p; responsible_pitcher_id = 50 })

-- A tracking candidate of the top of the first inning.
abbrev pub candidate : ℕ → TrackingResolution → TrackingCandidate
candidate t r = record {
  tracking_id = t;
  source = record { endpoint = 1; block_index = 0; row_index = t };
  source_pitch_id = none;
  source_pitch_ordinal = some 1;
  sequence = 0;
  inning = 1;
  half = Half.top;
  plate_appearance_event_id = none;
  pitcher_id = none;
  batter_id = none;
  observation = 7;
  resolution = r;
}

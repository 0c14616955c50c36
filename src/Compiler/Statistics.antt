-- ===== src/Compiler/Statistics.antt =====
-- packages/game-core/src/compiler/statistics.ts: the record lines of batters and pitchers. The
-- source fetches a line, or stores a new one, and counts on it in place; `upsert` is that.
use kbo_workbench.Prelude.{
  Bool, Option, add_new, false, if◌then◌else◌, is_some, ltb, not, or_else, true, ℕ, ◌&&◌, ◌+◌, ◌||◌,
}
use kbo_workbench.Collections.Dict.{lookup, upsert}
use kbo_workbench.Compiler.Context.{CompileContext}
use kbo_workbench.Contracts.Event.{PlateResult, PlateResultPayload, PlayerId, Side}
use kbo_workbench.Game.Lines.{BatterLine, PitcherLine}
use kbo_workbench.Rules.Results.{is_at_bat, is_hit}

abbrev pub new_batter_line : PlayerId → Side → BatterLine
new_batter_line p s = record {
  player_id = p;
  side = s;
  plate_appearances = 0;
  at_bats = 0;
  runs = 0;
  hits = 0;
  doubles = 0;
  triples = 0;
  home_runs = 0;
  runs_batted_in = 0;
  walks = 0;
  intentional_walks = 0;
  hit_by_pitch = 0;
  strikeouts = 0;
  sacrifice_bunts = 0;
  sacrifice_flies = 0;
}

abbrev pub new_pitcher_line : PlayerId → Side → PitcherLine
new_pitcher_line p s = record {
  player_id = p;
  side = s;
  batters_faced = 0;
  outs_recorded = 0;
  hits = 0;
  runs = 0;
  walks = 0;
  intentional_walks = 0;
  hit_by_pitch = 0;
  strikeouts = 0;
  pitches = 0;
  strikes = 0;
}

abbrev pub side_of : PlayerId → CompileContext → Side
side_of p context = or_else (lookup p context.player_sides) Side.away

-- `batterLine(context, playerId)`, changed by `f`.
unfoldable pub batter_line : PlayerId → (BatterLine → BatterLine) → CompileContext → CompileContext
batter_line p f context = record context {
  batter_lines = upsert p (new_batter_line p (side_of p context)) f context.batter_lines;
}

unfoldable pub pitcher_line :
    PlayerId → (PitcherLine → PitcherLine) → CompileContext → CompileContext
pitcher_line p f context = record context {
  pitcher_lines = upsert p (new_pitcher_line p (side_of p context)) f context.pitcher_lines;
}

abbrev pub one_if : Bool → ℕ
one_if true = 1
one_if false = 0

abbrev is_double : PlateResult → Bool
is_double PlateResult.double = true
is_double _ = false

abbrev is_triple : PlateResult → Bool
is_triple PlateResult.triple = true
is_triple _ = false

abbrev pub is_home_run : PlateResult → Bool
is_home_run PlateResult.home_run = true
is_home_run _ = false

abbrev pub is_walk : PlateResult → Bool
is_walk PlateResult.walk = true
is_walk _ = false

abbrev pub is_intentional_walk : PlateResult → Bool
is_intentional_walk PlateResult.intentional_walk = true
is_intentional_walk _ = false

abbrev pub is_hit_by_pitch : PlateResult → Bool
is_hit_by_pitch PlateResult.hit_by_pitch = true
is_hit_by_pitch _ = false

abbrev pub is_strikeout : PlateResult → Bool
is_strikeout PlateResult.strikeout = true
is_strikeout _ = false

abbrev is_sacrifice_bunt : PlateResult → Bool
is_sacrifice_bunt PlateResult.sacrifice_bunt = true
is_sacrifice_bunt _ = false

abbrev is_sacrifice_fly : PlateResult → Bool
is_sacrifice_fly PlateResult.sacrifice_fly = true
is_sacrifice_fly _ = false

-- What a completed result adds to the batter's line.
unfoldable pub count_for_batter : PlateResult → Option ℕ → BatterLine → BatterLine
count_for_batter r rbi line = record line {
  plate_appearances = line.plate_appearances + 1;
  at_bats = line.at_bats + one_if (is_at_bat r);
  hits = line.hits + one_if (is_hit r);
  doubles = line.doubles + one_if (is_double r);
  triples = line.triples + one_if (is_triple r);
  home_runs = line.home_runs + one_if (is_home_run r);
  walks = line.walks + one_if (is_walk r || is_intentional_walk r);
  intentional_walks = line.intentional_walks + one_if (is_intentional_walk r);
  hit_by_pitch = line.hit_by_pitch + one_if (is_hit_by_pitch r);
  strikeouts = line.strikeouts + one_if (is_strikeout r);
  sacrifice_bunts = line.sacrifice_bunts + one_if (is_sacrifice_bunt r);
  sacrifice_flies = line.sacrifice_flies + one_if (is_sacrifice_fly r);
  runs_batted_in = line.runs_batted_in + or_else rbi 0;
}

-- What it adds to the pitcher's line.
unfoldable pub count_for_pitcher : PlateResult → PitcherLine → PitcherLine
count_for_pitcher r line = record line {
  batters_faced = line.batters_faced + 1;
  hits = line.hits + one_if (is_hit r);
  walks = line.walks + one_if (is_walk r || is_intentional_walk r);
  intentional_walks = line.intentional_walks + one_if (is_intentional_walk r);
  hit_by_pitch = line.hit_by_pitch + one_if (is_hit_by_pitch r);
  strikeouts = line.strikeouts + one_if (is_strikeout r);
}

-- A play that scored without a credited number of runs leaves the batter's count uncertain.
unfoldable pub note_uncertain_rbi : PlayerId → Option ℕ → ℕ → CompileContext → CompileContext
note_uncertain_rbi p rbi runs context =
    if not (is_some rbi) && ltb 0 runs
    then record context { uncertain_rbi_batter_ids = add_new p context.uncertain_rbi_batter_ids }
    else context

unfoldable pub update_completed_lines :
    PlateResultPayload → PlayerId → PlayerId → ℕ → CompileContext → CompileContext
unfolding batter_line pitcher_line count_for_batter count_for_pitcher note_uncertain_rbi
update_completed_lines payload batter pitcher runs_scored context =
    note_uncertain_rbi batter payload.credited_rbi runs_scored (
      pitcher_line pitcher (count_for_pitcher payload.result)
        (batter_line batter (count_for_batter payload.result payload.credited_rbi) context))

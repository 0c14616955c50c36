-- ===== src/Compiler/Sums.antt =====
-- The sums over the lines of all batters and of all pitchers, and what one change adds to them.
use kbo_workbench.Prelude.{Option, arith, refl, ℕ, ◌+◌, ◌||◌, ◌≡◌}
use kbo_workbench.Collections.Dict.{Dict, sum_of, sum_of-upsert}
use kbo_workbench.Compiler.Context.{CompileContext}
use kbo_workbench.Compiler.Statistics.{
  batter_line, count_for_batter, count_for_pitcher, is_hit_by_pitch, is_intentional_walk,
  is_strikeout, is_walk, new_batter_line, new_pitcher_line, one_if, pitcher_line, side_of,
}
use kbo_workbench.Contracts.Event.{PlateResult, PlayerId}
use kbo_workbench.Game.Lines.{BatterLine, PitcherLine}
use kbo_workbench.Rules.Results.{is_hit}

pub record Sums : Type 0 where
  pub runs : ℕ
  pub turns : ℕ
  pub hits : ℕ
  pub walks : ℕ
  pub intentional_walks : ℕ
  pub hit_by_pitch : ℕ
  pub strikeouts : ℕ

unfoldable pub batter_totals : Dict BatterLine → Sums
batter_totals d = record {
  runs = sum_of (λ l. l.runs) d;
  turns = sum_of (λ l. l.plate_appearances) d;
  hits = sum_of (λ l. l.hits) d;
  walks = sum_of (λ l. l.walks) d;
  intentional_walks = sum_of (λ l. l.intentional_walks) d;
  hit_by_pitch = sum_of (λ l. l.hit_by_pitch) d;
  strikeouts = sum_of (λ l. l.strikeouts) d;
}

abbrev pub batter_sums : CompileContext → Sums
batter_sums c = batter_totals c.batter_lines

unfoldable pub pitcher_totals : Dict PitcherLine → Sums
pitcher_totals d = record {
  runs = sum_of (λ l. l.runs) d;
  turns = sum_of (λ l. l.batters_faced) d;
  hits = sum_of (λ l. l.hits) d;
  walks = sum_of (λ l. l.walks) d;
  intentional_walks = sum_of (λ l. l.intentional_walks) d;
  hit_by_pitch = sum_of (λ l. l.hit_by_pitch) d;
  strikeouts = sum_of (λ l. l.strikeouts) d;
}

abbrev pub pitcher_sums : CompileContext → Sums
pitcher_sums c = pitcher_totals c.pitcher_lines

abbrev pub more_runs : ℕ → Sums → Sums
more_runs n s = record s { runs = s.runs + n }

-- What one completed result adds to either side.
abbrev pub more_results : PlateResult → Sums → Sums
more_results r s = record s {
  turns = s.turns + 1;
  hits = s.hits + one_if (is_hit r);
  walks = s.walks + one_if (is_walk r || is_intentional_walk r);
  intentional_walks = s.intentional_walks + one_if (is_intentional_walk r);
  hit_by_pitch = s.hit_by_pitch + one_if (is_hit_by_pitch r);
  strikeouts = s.strikeouts + one_if (is_strikeout r);
}

-- How a change of one line changes a sum over the lines.
module _ (p : PlayerId) (c : CompileContext) where
  batter_field :
      (g : BatterLine → ℕ) (n : ℕ) (f : BatterLine → BatterLine)
      → g (new_batter_line p (side_of p c)) ≡ 0
      → ((l : BatterLine) → g (f l) ≡ g l + n)
      → sum_of g (batter_line p f c).batter_lines ≡ sum_of g c.batter_lines + n
  unfolding batter_line
  batter_field g n f z h =
      sum_of-upsert g n p (new_batter_line p (side_of p c)) f c.batter_lines z h

  pitcher_field :
      (g : PitcherLine → ℕ) (n : ℕ) (f : PitcherLine → PitcherLine)
      → g (new_pitcher_line p (side_of p c)) ≡ 0
      → ((l : PitcherLine) → g (f l) ≡ g l + n)
      → sum_of g (pitcher_line p f c).pitcher_lines ≡ sum_of g c.pitcher_lines + n
  unfolding pitcher_line
  pitcher_field g n f z h =
      sum_of-upsert g n p (new_pitcher_line p (side_of p c)) f c.pitcher_lines z h

pub batter_sums-count :
    (p : PlayerId) (r : PlateResult) (rbi : Option ℕ) (c : CompileContext)
    → batter_sums (batter_line p (count_for_batter r rbi) c) ≡ more_results r (batter_sums c)
unfolding batter_totals count_for_batter
batter_sums-count p r rbi c = ground (
  arith,
  batter_field p c (λ l. l.runs) 0 (count_for_batter r rbi) refl (λ l. omega arith),
  batter_field p c (λ l. l.plate_appearances) 1 (count_for_batter r rbi) refl (λ l. refl),
  batter_field p c (λ l. l.hits) (one_if (is_hit r)) (count_for_batter r rbi) refl (λ l. refl),
  batter_field p c (λ l. l.walks) (one_if (is_walk r || is_intentional_walk r))
      (count_for_batter r rbi) refl (λ l. refl),
  batter_field p c (λ l. l.intentional_walks) (one_if (is_intentional_walk r))
      (count_for_batter r rbi) refl (λ l. refl),
  batter_field p c (λ l. l.hit_by_pitch) (one_if (is_hit_by_pitch r)) (count_for_batter r rbi) refl
      (λ l. refl),
  batter_field p c (λ l. l.strikeouts) (one_if (is_strikeout r)) (count_for_batter r rbi) refl
      (λ l. refl),
)

pub pitcher_sums-count :
    (p : PlayerId) (r : PlateResult) (c : CompileContext)
    → pitcher_sums (pitcher_line p (count_for_pitcher r) c) ≡ more_results r (pitcher_sums c)
unfolding pitcher_totals count_for_pitcher
pitcher_sums-count p r c = ground (
  arith,
  pitcher_field p c (λ l. l.runs) 0 (count_for_pitcher r) refl (λ l. omega arith),
  pitcher_field p c (λ l. l.batters_faced) 1 (count_for_pitcher r) refl (λ l. refl),
  pitcher_field p c (λ l. l.hits) (one_if (is_hit r)) (count_for_pitcher r) refl (λ l. refl),
  pitcher_field p c (λ l. l.walks) (one_if (is_walk r || is_intentional_walk r))
      (count_for_pitcher r) refl (λ l. refl),
  pitcher_field p c (λ l. l.intentional_walks) (one_if (is_intentional_walk r))
      (count_for_pitcher r) refl (λ l. refl),
  pitcher_field p c (λ l. l.hit_by_pitch) (one_if (is_hit_by_pitch r)) (count_for_pitcher r) refl
      (λ l. refl),
  pitcher_field p c (λ l. l.strikeouts) (one_if (is_strikeout r)) (count_for_pitcher r) refl
      (λ l. refl),
)

pub batter_sums-pitcher_line :
    (p : PlayerId) (f : PitcherLine → PitcherLine) (c : CompileContext)
    → batter_sums (pitcher_line p f c) ≡ batter_sums c
unfolding batter_totals pitcher_line
batter_sums-pitcher_line p f c = refl

pub pitcher_sums-batter_line :
    (p : PlayerId) (f : BatterLine → BatterLine) (c : CompileContext)
    → pitcher_sums (batter_line p f c) ≡ pitcher_sums c
unfolding pitcher_totals batter_line
pitcher_sums-batter_line p f c = refl

-- A change of a pitcher's line that leaves the shared fields alone but for `n` runs.
pub pitcher_sums-runs :
    (p : PlayerId) (n : ℕ) (f : PitcherLine → PitcherLine) (c : CompileContext)
    → ((l : PitcherLine) → (f l).runs ≡ l.runs + n)
    → ((l : PitcherLine)
        → ((f l).batters_faced ≡ l.batters_faced + 0)
          × ((f l).hits ≡ l.hits + 0)
          × ((f l).walks ≡ l.walks + 0)
          × ((f l).intentional_walks ≡ l.intentional_walks + 0)
          × ((f l).hit_by_pitch ≡ l.hit_by_pitch + 0)
          × ((f l).strikeouts ≡ l.strikeouts + 0))
    → pitcher_sums (pitcher_line p f c) ≡ more_runs n (pitcher_sums c)
unfolding pitcher_totals
pitcher_sums-runs p n f c h k = ground (
  arith,
  pitcher_field p c (λ l. l.runs) n f refl h,
  pitcher_field p c (λ l. l.batters_faced) 0 f refl (λ l. (k l).0),
  pitcher_field p c (λ l. l.hits) 0 f refl (λ l. (k l).1),
  pitcher_field p c (λ l. l.walks) 0 f refl (λ l. (k l).2),
  pitcher_field p c (λ l. l.intentional_walks) 0 f refl (λ l. (k l).3),
  pitcher_field p c (λ l. l.hit_by_pitch) 0 f refl (λ l. (k l).4),
  pitcher_field p c (λ l. l.strikeouts) 0 f refl (λ l. (k l).5),
)

abbrev pub add_run_to_batter : BatterLine → BatterLine
add_run_to_batter line = record line { runs = line.runs + 1 }

abbrev pub add_run_to_pitcher : PitcherLine → PitcherLine
add_run_to_pitcher line = record line { runs = line.runs + 1 }

pub batter_sums-run :
    (p : PlayerId) (c : CompileContext)
    → batter_sums (batter_line p add_run_to_batter c) ≡ more_runs 1 (batter_sums c)
unfolding batter_totals
batter_sums-run p c = ground (
  arith,
  batter_field p c (λ l. l.runs) 1 add_run_to_batter refl (λ l. refl),
  batter_field p c (λ l. l.plate_appearances) 0 add_run_to_batter refl (λ l. omega arith),
  batter_field p c (λ l. l.hits) 0 add_run_to_batter refl (λ l. omega arith),
  batter_field p c (λ l. l.walks) 0 add_run_to_batter refl (λ l. omega arith),
  batter_field p c (λ l. l.intentional_walks) 0 add_run_to_batter refl (λ l. omega arith),
  batter_field p c (λ l. l.hit_by_pitch) 0 add_run_to_batter refl (λ l. omega arith),
  batter_field p c (λ l. l.strikeouts) 0 add_run_to_batter refl (λ l. omega arith),
)

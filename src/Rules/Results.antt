-- ===== src/Rules/Results.antt =====
-- `isAtBat`, `isHit`, `requiredBatterDestination` and `thirdOutCancelsEveryRun` of
-- packages/game-core/src/rules.ts.
use kbo_workbench.Prelude.{Bool, Option, false, none, some, true, ℕ}
use kbo_workbench.Contracts.Event.{PlateResult, RunnerOutKind}

unfoldable pub is_at_bat : PlateResult → Bool
is_at_bat PlateResult.walk = false
is_at_bat PlateResult.intentional_walk = false
is_at_bat PlateResult.hit_by_pitch = false
is_at_bat PlateResult.sacrifice_bunt = false
is_at_bat PlateResult.sacrifice_fly = false
is_at_bat PlateResult.interference = false
is_at_bat _ = true

unfoldable pub is_hit : PlateResult → Bool
is_hit PlateResult.single = true
is_hit PlateResult.double = true
is_hit PlateResult.triple = true
is_hit PlateResult.home_run = true
is_hit _ = false

unfoldable pub required_batter_destination : PlateResult → Option ℕ
required_batter_destination PlateResult.single = some 1
required_batter_destination PlateResult.walk = some 1
required_batter_destination PlateResult.intentional_walk = some 1
required_batter_destination PlateResult.hit_by_pitch = some 1
required_batter_destination PlateResult.fielder_choice = some 1
required_batter_destination PlateResult.reached_on_error = some 1
required_batter_destination PlateResult.interference = some 1
required_batter_destination PlateResult.double = some 2
required_batter_destination PlateResult.triple = some 3
required_batter_destination PlateResult.home_run = some 4
required_batter_destination _ = none

unfoldable pub third_out_cancels_every_run : RunnerOutKind → Bool
third_out_cancels_every_run RunnerOutKind.force = true
third_out_cancels_every_run RunnerOutKind.appeal_force = true
third_out_cancels_every_run RunnerOutKind.batter_runner_before_first = true
third_out_cancels_every_run RunnerOutKind.strikeout = true
third_out_cancels_every_run _ = false

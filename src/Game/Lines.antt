-- ===== src/Game/Lines.antt =====
-- `MutableBatterLine` and `MutablePitcherLine` of packages/game-core/src/compiler/model.ts.
use kbo_workbench.Prelude.{ℕ}
use kbo_workbench.Contracts.Event.{PlayerId, Side}

pub record BatterLine : Type 0 where
  pub player_id : PlayerId
  pub side : Side
  pub plate_appearances : ℕ
  pub at_bats : ℕ
  pub runs : ℕ
  pub hits : ℕ
  pub doubles : ℕ
  pub triples : ℕ
  pub home_runs : ℕ
  pub runs_batted_in : ℕ
  pub walks : ℕ
  pub intentional_walks : ℕ
  pub hit_by_pitch : ℕ
  pub strikeouts : ℕ
  pub sacrifice_bunts : ℕ
  pub sacrifice_flies : ℕ

pub record PitcherLine : Type 0 where
  pub player_id : PlayerId
  pub side : Side
  pub batters_faced : ℕ
  pub outs_recorded : ℕ
  pub hits : ℕ
  pub runs : ℕ
  pub walks : ℕ
  pub intentional_walks : ℕ
  pub hit_by_pitch : ℕ
  pub strikeouts : ℕ
  pub pitches : ℕ
  pub strikes : ℕ

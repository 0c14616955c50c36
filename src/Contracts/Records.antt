-- ===== src/Contracts/Records.antt =====
-- The teams, the rosters and the official records of
-- packages/contracts/src/game-document/records.ts. A field that may be missing is an option.
use kbo_workbench.Prelude.{Bool, List, Option, String, ℕ}
use kbo_workbench.Contracts.Event.{PlayerId, Side}

pub record Team : Type 0 where
  pub team_id : ℕ
  pub name : String

pub record RosterPlayer : Type 0 where
  pub player_id : PlayerId
  pub name : String
  pub batting_order : Option ℕ
  pub starter : Bool
  pub positions : List String

pub record TeamRoster : Type 0 where
  pub team_id : ℕ
  pub players : List RosterPlayer

pub record OfficialBatterRecord : Type 0 where
  pub player_id : PlayerId
  pub side : Side
  pub plate_appearances : Option ℕ
  pub at_bats : ℕ
  pub runs : ℕ
  pub hits : ℕ
  pub doubles : Option ℕ
  pub triples : Option ℕ
  pub home_runs : ℕ
  pub runs_batted_in : ℕ
  pub walks : ℕ
  pub intentional_walks : Option ℕ
  pub hit_by_pitch : Option ℕ
  pub strikeouts : ℕ
  pub sacrifice_bunts : Option ℕ
  pub sacrifice_flies : Option ℕ

pub record OfficialPitcherRecord : Type 0 where
  pub player_id : PlayerId
  pub side : Side
  pub batters_faced : ℕ
  pub outs_recorded : ℕ
  pub hits : ℕ
  pub runs : ℕ
  pub earned_runs : ℕ
  pub walks : ℕ
  pub intentional_walks : Option ℕ
  pub hit_by_pitch : ℕ
  pub strikeouts : ℕ
  pub pitches : Option ℕ
  pub strikes : Option ℕ

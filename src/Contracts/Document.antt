-- ===== src/Contracts/Document.antt =====
-- packages/contracts/src/game-document/document.ts: the document, without what only identifies its
-- source (provider, source game, time of collection, bundle hash), the scheduled time and the
-- stadium.
use kbo_workbench.Prelude.{List, ℕ}
use kbo_workbench.Contracts.Event.{Side, StagingRelayEvent}
use kbo_workbench.Contracts.Records.{OfficialBatterRecord, OfficialPitcherRecord, Team, TeamRoster}
use kbo_workbench.Contracts.Tracking.{TrackingCandidate}

pub data GameStatus : Type 0 where
  scheduled in_progress final suspended cancelled : GameStatus

-- `YYYY-MM-DD`, as the schema has it: four digits, two and two.
pub record IsoDate : Type 0 where
  pub year : ℕ
  pub month : ℕ
  pub day : ℕ

pub data RevisionBase : Type 0 where
  new_game : RevisionBase
  sealed_revision : ℕ → ℕ → RevisionBase

pub record Metadata : Type 0 where
  pub game_id : ℕ
  pub season : ℕ
  pub game_date : IsoDate
  pub status : GameStatus
  pub scheduled_innings : ℕ

pub record Teams : Type 0 where
  pub away : Team
  pub home : Team

pub record Rosters : Type 0 where
  pub away : TeamRoster
  pub home : TeamRoster

pub record OfficialRecords : Type 0 where
  pub batters : List OfficialBatterRecord
  pub pitchers : List OfficialPitcherRecord

pub record StagingGameDocumentV2 : Type 0 where
  pub revision_base : RevisionBase
  pub metadata : Metadata
  pub teams : Teams
  pub rosters : Rosters
  pub events : List StagingRelayEvent
  pub tracking_candidates : List TrackingCandidate
  pub official_records : OfficialRecords

-- `document.rosters[side]`, read and written.
abbrev pub roster_of : Side → Rosters → TeamRoster
roster_of Side.away r = r.away
roster_of Side.home r = r.home

abbrev pub set_roster : Side → TeamRoster → Rosters → Rosters
set_roster Side.away t r = record r { away = t }
set_roster Side.home t r = record r { home = t }

-- ===== src/Contracts/Event.antt =====
-- packages/contracts/src/game-document/events.ts, identity.ts and primitives.ts. Identifiers are
-- strings that the program only compares, so they are numbered; each string union is a data type
-- with the same words, and a ledger event is one constructor for each `kind`.
use kbo_workbench.Prelude.{Bool, Option, String, arith, false, true, ℕ, ◌↔◌, ◌≡◌}

abbrev pub PlayerId : Type 0
PlayerId = ℕ

abbrev pub EventId : Type 0
EventId = ℕ

pub data Half : Type 0 where
  top bottom : Half

pub data Side : Type 0 where
  away home : Side

pub data PitchCall : Type 0 where
  ball called_strike swinging_strike foul foul_bunt foul_tip : PitchCall
  in_play hit_by_pitch automatic_ball automatic_strike no_pitch : PitchCall

pub data PlateResult : Type 0 where
  single double triple home_run walk intentional_walk hit_by_pitch strikeout field_out : PlateResult
  sacrifice_bunt sacrifice_fly fielder_choice reached_on_error interference : PlateResult
  double_play triple_play other : PlateResult

pub data BattedBallType : Type 0 where
  ground_ball fly_ball line_drive popup : BattedBallType

pub data RunnerOutcome : Type 0 where
  safe out scored : RunnerOutcome

pub data RunnerOutKind : Type 0 where
  force tag batter_runner_before_first strikeout fly_catch appeal_force appeal_time : RunnerOutKind
  interference abandonment : RunnerOutKind

pub data RunnerAdvanceReason : Type 0 where
  stolen_base caught_stealing pickoff wild_pitch passed_ball balk : RunnerAdvanceReason
  defensive_indifference error appeal other : RunnerAdvanceReason

pub data RunnerAdvanceContext : Type 0 where
  plate_result : EventId → RunnerAdvanceContext
  independent : RunnerAdvanceReason → RunnerAdvanceContext

pub data SubstitutionRole : Type 0 where
  batter runner pitcher fielder : SubstitutionRole

pub data AdministrativeCode : Type 0 where
  announcement mound_visit break footer called_game other : AdministrativeCode

pub data StagingRelayEventKind : Type 0 where
  half_inning_start batter_start pitch plate_result runner_advance : StagingRelayEventKind
  substitution review administrative unresolved : StagingRelayEventKind

pub data IdentityKind : Type 0 where
  source manual : IdentityKind

pub record EventIdentity : Type 0 where
  pub kind : IdentityKind
  pub event_id : EventId

-- One entry of the observed bases: occupied or not, or the runner who stands there, or null.
pub data ObservedBase : Type 0 where
  occupied : Bool → ObservedBase
  runner : PlayerId → ObservedBase
  vacant : ObservedBase

pub record ObservedBases : Type 0 where
  pub first : ObservedBase
  pub second : ObservedBase
  pub third : ObservedBase

pub record ObservedState : Type 0 where
  pub balls : Option ℕ
  pub strikes : Option ℕ
  pub outs : Option ℕ
  pub bases : Option ObservedBases
  pub away_score : Option ℕ
  pub home_score : Option ℕ

-- `LedgerEventBase`: the fields that every kind of event has.
pub record LedgerEventBase : Type 0 where
  pub identity : EventIdentity
  pub sequence : ℕ
  pub inning : ℕ
  pub half : Half
  pub relay_text : Option String
  pub observed_state_after : Option ObservedState

-- An event of one kind: the common fields, and the payload of that kind.
pub record LedgerEvent (P : Type 0) : Type 0 where
  pub base : LedgerEventBase
  pub payload : P

pub record BatterStart : Type 0 where
  pub batter_id : PlayerId
  pub pitcher_id : PlayerId

pub record Pitch : Type 0 where
  pub source_pitch_id : Option ℕ
  pub call : PitchCall
  pub batter_id : Option PlayerId
  pub pitcher_id : Option PlayerId

pub record PlateResultPayload : Type 0 where
  pub result : PlateResult
  pub batter_id : PlayerId
  pub pitcher_id : PlayerId
  pub credited_rbi : Option ℕ
  pub outs_recorded : Option ℕ
  pub batter_destination : Option ℕ
  pub batted_ball_type : Option BattedBallType
  pub is_bunt : Option Bool

pub record RunnerAdvance : Type 0 where
  pub runner_id : PlayerId
  pub from_base : ℕ
  pub to_base : ℕ
  pub outcome : RunnerOutcome
  pub out_kind : Option RunnerOutKind
  pub supersedes_third_out : Option Bool
  pub responsible_pitcher_id : Option PlayerId
  pub context : RunnerAdvanceContext

pub record Substitution : Type 0 where
  pub side : Side
  pub role : SubstitutionRole
  pub incoming_player_id : PlayerId
  pub outgoing_player_id : Option PlayerId

pub record Review : Type 0 where
  pub reviewed_event_id : Option EventId

pub record Administrative : Type 0 where
  pub code : AdministrativeCode

pub record Unresolved : Type 0 where
  pub source_type : String
  pub suspected_kind : Option StagingRelayEventKind

abbrev pub BatterStartEvent : Type 0
BatterStartEvent = LedgerEvent BatterStart

abbrev pub PitchEvent : Type 0
PitchEvent = LedgerEvent Pitch

abbrev pub PlateResultEvent : Type 0
PlateResultEvent = LedgerEvent PlateResultPayload

abbrev pub RunnerAdvanceEvent : Type 0
RunnerAdvanceEvent = LedgerEvent RunnerAdvance

abbrev pub SubstitutionEvent : Type 0
SubstitutionEvent = LedgerEvent Substitution

pub data StagingRelayEvent : Type 0 where
  half_inning_start : LedgerEventBase → StagingRelayEvent
  batter_start : BatterStartEvent → StagingRelayEvent
  pitch : PitchEvent → StagingRelayEvent
  plate_result : PlateResultEvent → StagingRelayEvent
  runner_advance : RunnerAdvanceEvent → StagingRelayEvent
  substitution : SubstitutionEvent → StagingRelayEvent
  review : LedgerEvent Review → StagingRelayEvent
  administrative : LedgerEvent Administrative → StagingRelayEvent
  unresolved : LedgerEvent Unresolved → StagingRelayEvent

abbrev pub base_of : StagingRelayEvent → LedgerEventBase
base_of (StagingRelayEvent.half_inning_start b) = b
base_of (StagingRelayEvent.batter_start e) = e.base
base_of (StagingRelayEvent.pitch e) = e.base
base_of (StagingRelayEvent.plate_result e) = e.base
base_of (StagingRelayEvent.runner_advance e) = e.base
base_of (StagingRelayEvent.substitution e) = e.base
base_of (StagingRelayEvent.review e) = e.base
base_of (StagingRelayEvent.administrative e) = e.base
base_of (StagingRelayEvent.unresolved e) = e.base

abbrev pub kind_of : StagingRelayEvent → StagingRelayEventKind
kind_of (StagingRelayEvent.half_inning_start b) = StagingRelayEventKind.half_inning_start
kind_of (StagingRelayEvent.batter_start e) = StagingRelayEventKind.batter_start
kind_of (StagingRelayEvent.pitch e) = StagingRelayEventKind.pitch
kind_of (StagingRelayEvent.plate_result e) = StagingRelayEventKind.plate_result
kind_of (StagingRelayEvent.runner_advance e) = StagingRelayEventKind.runner_advance
kind_of (StagingRelayEvent.substitution e) = StagingRelayEventKind.substitution
kind_of (StagingRelayEvent.review e) = StagingRelayEventKind.review
kind_of (StagingRelayEvent.administrative e) = StagingRelayEventKind.administrative
kind_of (StagingRelayEvent.unresolved e) = StagingRelayEventKind.unresolved

-- `event.identity.eventId`
abbrev pub event_id_of : StagingRelayEvent → EventId
event_id_of e = (base_of e).identity.event_id

-- `a === b` on a half, a side, a kind of out and a result.
abbrev pub same_half : Half → Half → Bool
same_half Half.top Half.top = true
same_half Half.bottom Half.bottom = true
same_half _ _ = false

abbrev pub same_side : Side → Side → Bool
same_side Side.away Side.away = true
same_side Side.home Side.home = true
same_side _ _ = false

abbrev pub is_out : RunnerOutcome → Bool
is_out RunnerOutcome.out = true
is_out _ = false

abbrev pub is_safe : RunnerOutcome → Bool
is_safe RunnerOutcome.safe = true
is_safe _ = false

abbrev pub is_scored : RunnerOutcome → Bool
is_scored RunnerOutcome.scored = true
is_scored _ = false

pub same_half_iff : (a b : Half) → (same_half a b ≡ true) ↔ (a ≡ b)
same_half_iff a b = ground arith

-- A review or an administrative row, which changes no state.
abbrev pub is_non_state : StagingRelayEvent → Bool
is_non_state (StagingRelayEvent.review e) = true
is_non_state (StagingRelayEvent.administrative e) = true
is_non_state _ = false

-- ===== src/Game/State.antt =====
-- `GameState` of packages/game-core/src/types.ts, which `MutableState` of compiler/model.ts
-- repeats, and the movements of runners.
use kbo_workbench.Prelude.{Bool, List, Option, none, some, suc, zero, ℕ}
use kbo_workbench.Contracts.Event.{
  EventId, Half, PlateResult, PlayerId, RunnerAdvanceReason, RunnerOutKind, RunnerOutcome, Side,
}

pub record BaseOccupant : Type 0 where
  pub runner_id : PlayerId
  pub responsible_pitcher_id : PlayerId

-- The tuple of the three bases.
pub record Bases : Type 0 where
  pub first_base : Option BaseOccupant
  pub second_base : Option BaseOccupant
  pub third_base : Option BaseOccupant

-- `[null, null, null]`
abbrev pub no_bases : Bases
no_bases = record { first_base = none; second_base = none; third_base = none }

-- `bases[n - 1]`, where the outer `none` is `undefined`.
abbrev pub get_base : Bases → ℕ → Option (Option BaseOccupant)
get_base b (suc zero) = some b.first_base
get_base b (suc (suc zero)) = some b.second_base
get_base b (suc (suc (suc zero))) = some b.third_base
get_base b _ = none

-- `bases[n - 1] ?? null`
abbrev pub occupant_at : Bases → ℕ → Option BaseOccupant
occupant_at b (suc zero) = b.first_base
occupant_at b (suc (suc zero)) = b.second_base
occupant_at b (suc (suc (suc zero))) = b.third_base
occupant_at b _ = none

-- `bases[n - 1] = o` at one of the three bases. Elsewhere the three bases stay as they are.
abbrev pub set_base : ℕ → Option BaseOccupant → Bases → Bases
set_base (suc zero) o b = record b { first_base = o }
set_base (suc (suc zero)) o b = record b { second_base = o }
set_base (suc (suc (suc zero))) o b = record b { third_base = o }
set_base _ o b = b

-- `bases.map(f)`
abbrev pub map_bases : (Option BaseOccupant → Option BaseOccupant) → Bases → Bases
map_bases f b = record {
  first_base = f b.first_base;
  second_base = f b.second_base;
  third_base = f b.third_base;
}

pub record PlateAppearance : Type 0 where
  pub start_event_id : EventId
  pub start_batter_id : PlayerId
  pub current_batter_id : PlayerId
  pub start_pitcher_id : PlayerId
  pub current_pitcher_id : PlayerId
  pub walk_responsible_pitcher_id : Option PlayerId
  pub strikeout_responsible_batter_id : Option PlayerId
  pub actual_pitch_count : ℕ
  pub event_ids : List EventId

pub record ActivePitchers : Type 0 where
  pub away : Option PlayerId
  pub home : Option PlayerId

pub record GameState : Type 0 where
  pub inning : ℕ
  pub half : Half
  pub half_active : Bool
  pub balls : ℕ
  pub strikes : ℕ
  pub outs : ℕ
  pub bases : Bases
  pub away_score : ℕ
  pub home_score : ℕ
  pub active_plate_appearance : Option PlateAppearance
  pub active_pitchers : ActivePitchers

-- `activePitchers[side]`, read and written.
abbrev pub pitcher_of : ActivePitchers → Side → Option PlayerId
pitcher_of p Side.away = p.away
pitcher_of p Side.home = p.home

abbrev pub set_pitcher : Side → PlayerId → ActivePitchers → ActivePitchers
set_pitcher Side.away x p = record p { away = some x }
set_pitcher Side.home x p = record p { home = some x }

pub data PlateAppearanceTerminationReason : Type 0 where
  plate_result third_out walk_off called_game forfeit : PlateAppearanceTerminationReason
  source_boundary end_of_document : PlateAppearanceTerminationReason

pub record PlateAppearanceSummary : Type 0 where
  pub start_event_id : EventId
  pub end_event_id : Option EventId
  pub inning : ℕ
  pub half : Half
  pub start_batter_id : PlayerId
  pub batter_id : PlayerId
  pub start_pitcher_id : PlayerId
  pub pitcher_id : PlayerId
  pub result : Option PlateResult
  pub completed : Bool
  pub termination_reason : PlateAppearanceTerminationReason
  pub actual_pitch_count : ℕ
  pub event_ids : List EventId

-- `relay:${id}` and `derived:${id}:batter`.
pub data MovementId : Type 0 where
  relay : EventId → MovementId
  derived_batter : EventId → MovementId

pub data MovementReason : Type 0 where
  advance : RunnerAdvanceReason → MovementReason
  plate_result : MovementReason

pub record CompiledRunnerMovement : Type 0 where
  pub movement_id : MovementId
  pub source_event_id : Option EventId
  pub runner_id : PlayerId
  pub from_base : ℕ
  pub to_base : ℕ
  pub outcome : RunnerOutcome
  pub out_kind : Option RunnerOutKind
  pub supersedes_third_out : Option Bool
  pub responsible_pitcher_id : PlayerId
  pub reason : MovementReason
  pub derived : Bool
  pub sequence : ℕ

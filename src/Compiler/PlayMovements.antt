-- ===== src/Compiler/PlayMovements.antt =====
-- `deriveBatterMovement`, `explicitMovement`, `defaultOutKind` and `applyMovementsAtomically` of
-- packages/game-core/src/compiler/plate-play.ts.
use mathlib.Core.Option
use kbo_workbench.Prelude.{
  Bool, List, Option, [], false, find, if◌then◌else◌, length, none, or_else, or_option, reverse,
  some, true, ℕ, ◌++◌, ◌+◌, ◌==◌, ◌∷◌,
}
use kbo_workbench.Compiler.Context.{CompileContext, add_finding}
use kbo_workbench.Compiler.State.{batting_side, opposite}
use kbo_workbench.Compiler.Statistics.{batter_line, is_strikeout, pitcher_line}
use kbo_workbench.Contracts.Event.{
  BattedBallType, Half, LedgerEventBase, PlateResultEvent, PlateResultPayload, PlayerId,
  RunnerAdvanceContext, RunnerAdvanceEvent, RunnerOutKind, RunnerOutcome, same_half,
}
use kbo_workbench.Game.Findings.{FindingCategory}
use kbo_workbench.Game.State.{
  Bases, CompiledRunnerMovement, GameState, MovementId, MovementReason, occupant_at, pitcher_of,
}
use kbo_workbench.Movement.Placement.{MovementSuccess, Result, err, ok}
use kbo_workbench.Movement.Transition.{transition_movements}
use kbo_workbench.Rules.Results.{required_batter_destination}

abbrev is_fly : Option BattedBallType → Bool
is_fly (some BattedBallType.fly_ball) = true
is_fly (some BattedBallType.line_drive) = true
is_fly (some BattedBallType.popup) = true
is_fly _ = false

default_out_kind : PlateResultPayload → RunnerOutKind
default_out_kind p =
    if is_strikeout p.result
    then RunnerOutKind.strikeout
    else if is_fly p.batted_ball_type
    then RunnerOutKind.fly_catch
    else RunnerOutKind.batter_runner_before_first

abbrev batter_outcome : Option ℕ → RunnerOutcome
batter_outcome none = RunnerOutcome.out
batter_outcome (some n) = if n == 4 then RunnerOutcome.scored else RunnerOutcome.safe

abbrev batter_out_kind : Option ℕ → PlateResultPayload → Option RunnerOutKind
batter_out_kind none p = some (default_out_kind p)
batter_out_kind (some n) p = none

unfoldable pub derive_batter_movement : PlateResultEvent → PlayerId → CompiledRunnerMovement
unfolding default_out_kind
derive_batter_movement event pitcher =
    let p = event.payload in
    let destination = or_option p.batter_destination (required_batter_destination p.result) in
    record {
      movement_id = MovementId.derived_batter event.base.identity.event_id;
      source_event_id = none;
      runner_id = p.batter_id;
      from_base = 0;
      to_base = or_else destination 1;
      outcome = batter_outcome destination;
      out_kind = batter_out_kind destination p;
      supersedes_third_out = none;
      responsible_pitcher_id = pitcher;
      reason = MovementReason.plate_result;
      derived = true;
      sequence = 0;
    }

abbrev movement_reason : RunnerAdvanceContext → MovementReason
movement_reason (RunnerAdvanceContext.plate_result e) = MovementReason.plate_result
movement_reason (RunnerAdvanceContext.independent r) = MovementReason.advance r

-- `explicitMovement`; the newest of the preceding movements of the runner counts.
explicit_movement :
    RunnerAdvanceEvent → Bases → PlayerId → List CompiledRunnerMovement → CompiledRunnerMovement
explicit_movement event bases fallback preceding =
    let p = event.payload in
    let prior = find (λ m. m.runner_id == p.runner_id) (reverse preceding) in
    record {
      movement_id = MovementId.relay event.base.identity.event_id;
      source_event_id = some event.base.identity.event_id;
      runner_id = p.runner_id;
      from_base = p.from_base;
      to_base = p.to_base;
      outcome = p.outcome;
      out_kind = p.out_kind;
      supersedes_third_out = p.supersedes_third_out;
      responsible_pitcher_id = or_else p.responsible_pitcher_id (
          or_else (Option.map (λ m. m.responsible_pitcher_id) prior) (
            or_else (Option.map (λ o. o.responsible_pitcher_id) (occupant_at bases p.from_base))
              fallback));
      reason = movement_reason p.context;
      derived = false;
      sequence = event.base.sequence;
    }

-- The loop that appends one movement for each linked row.
unfoldable pub explicit_movements :
    Bases
    → PlayerId
    → List RunnerAdvanceEvent
    → List CompiledRunnerMovement
    → List CompiledRunnerMovement
unfolding explicit_movement
explicit_movements bases fallback [] raw = raw
explicit_movements bases fallback (e ∷ es) raw =
    explicit_movements bases fallback es (raw ++ explicit_movement e bases fallback raw ∷ [])

-- `state.activePlateAppearance?.currentPitcherId ?? state.activePitchers[...]`
abbrev pub pitcher_in_charge : GameState → Option PlayerId
pitcher_in_charge state = elim state.active_plate_appearance [
  | none ↦ pitcher_of state.active_pitchers (opposite (batting_side state.half))
  | some pa ↦ some pa.current_pitcher_id
]

abbrev add_runs : ℕ → GameState → GameState
add_runs n state =
    if same_half state.half Half.top
    then record state { away_score = state.away_score + n }
    else record state { home_score = state.home_score + n }

abbrev pub count_outs : Option PlayerId → ℕ → CompileContext → CompileContext
count_outs none n context = context
count_outs (some p) n context =
    pitcher_line p (λ line. record line { outs_recorded = line.outs_recorded + n }) context

abbrev pub count_run : CompiledRunnerMovement → CompileContext → CompileContext
count_run m context =
    pitcher_line m.responsible_pitcher_id (λ line. record line { runs = line.runs + 1 })
      (batter_line m.runner_id (λ line. record line { runs = line.runs + 1 }) context)

unfoldable pub count_runs : List CompiledRunnerMovement → CompileContext → CompileContext
count_runs [] context = context
count_runs (m ∷ ms) context = count_runs ms (count_run m context)

-- What a transition does to the state and the lines: all of it, or a finding alone.
unfoldable pub commit_transition :
    GameState
    → LedgerEventBase
    → CompileContext
    → Result MovementSuccess
    → Bool × GameState × CompileContext
unfolding count_runs
commit_transition state event context (err e) =
    (false, state, add_finding event e.code FindingCategory.domain e.details context)
commit_transition state event context (ok t) = (
  true,
  add_runs (length t.scored) (record state { outs = t.outs; bases = t.bases }),
  count_runs t.scored (count_outs (pitcher_in_charge state) t.outs_added context),
)

unfoldable pub apply_movements_atomically :
    GameState
    → LedgerEventBase
    → List CompiledRunnerMovement
    → Option ℕ
    → CompileContext
    → List CompiledRunnerMovement
    → Bool × GameState × CompileContext
unfolding commit_transition
apply_movements_atomically state event placement direct context chronological =
    commit_transition state event context (
      transition_movements (record { outs = state.outs; bases = state.bases }) placement direct
        chronological)

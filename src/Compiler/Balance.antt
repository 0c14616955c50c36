-- ===== src/Compiler/Balance.antt =====
-- The box score balances: over every row of the ledger the batters' lines, the pitchers' lines,
-- the score and the completed plate appearances agree.
use kbo_workbench.Prelude.{
  Bool, Option, Option-cases, [], arith, count, count-append, false, if◌then◌else◌, inl, inr, none,
  refl, some, ◌+◌, ◌==◌, ◌∷◌, ◌≡◌,
}
use kbo_workbench.Compiler.Appearances.{
  count_outs-plate_appearances, count_runs-plate_appearances, pitcher_line-plate_appearances,
}
use kbo_workbench.Compiler.Books.{count_outs-BothSums, count_pitch-BothSums, count_runs-BothSums}
use kbo_workbench.Compiler.Context.{CompileContext, push_plate_appearance}
use kbo_workbench.Compiler.EventHandlers.{
  apply_batter_start, apply_half_start, close_half, push_some,
}
use kbo_workbench.Compiler.EventTransition.{
  apply_pitch, apply_substitution, count_pitch, record_pitch,
}
use kbo_workbench.Compiler.PlayMovements.{commit_transition, count_outs, pitcher_in_charge}
use kbo_workbench.Compiler.State.{partial_plate_appearance}
use kbo_workbench.Compiler.Sums.{batter_sums, pitcher_sums}
use kbo_workbench.Contracts.Event.{
  BatterStartEvent, EventId, LedgerEventBase, PitchEvent, SubstitutionEvent,
}
use kbo_workbench.Game.State.{
  GameState, PlateAppearance, PlateAppearanceSummary, PlateAppearanceTerminationReason,
}
use kbo_workbench.Movement.Placement.{MovementSuccess, Result, err, ok}
use kbo_workbench.Rules.Counts.{CountTransition, apply_pitch_call}

abbrev pub is_completed : PlateAppearanceSummary → Bool
is_completed pa = pa.completed

pub record IsBalanced (s : GameState) (c : CompileContext) : Type 0 where
  pub scored : (batter_sums c).runs ≡ s.away_score + s.home_score
  pub agree : batter_sums c ≡ pitcher_sums c
  pub turns : (batter_sums c).turns ≡ count is_completed c.plate_appearances

push_plate_appearance-IsBalanced :
    (s : GameState) (pa : PlateAppearanceSummary) (c : CompileContext)
    → pa.completed ≡ false
    → IsBalanced s c
    → IsBalanced s (push_plate_appearance pa c)
push_plate_appearance-IsBalanced s pa c h v =
    ground (arith, count-append is_completed c.plate_appearances (pa ∷ []))

push_some-IsBalanced :
    (s : GameState) (o : Option PlateAppearanceSummary) (c : CompileContext)
    → ((pa : PlateAppearanceSummary) → o ≡ some pa → pa.completed ≡ false)
    → IsBalanced s c
    → IsBalanced s (push_some o c)
push_some-IsBalanced s none c h v = v
push_some-IsBalanced s (some pa) c h v = push_plate_appearance-IsBalanced s pa c (h pa refl) v

partial_plate_appearance_open :
    (s : GameState) (e : Option EventId) (r : PlateAppearanceTerminationReason)
    (pa : PlateAppearanceSummary)
    → partial_plate_appearance s e r ≡ some pa
    → pa.completed ≡ false
unfolding partial_plate_appearance
partial_plate_appearance_open s e r pa h = ground arith

pub push_partial-IsBalanced :
    (s : GameState) (e : Option EventId) (r : PlateAppearanceTerminationReason) (c : CompileContext)
    → IsBalanced s c
    → IsBalanced s (push_some (partial_plate_appearance s e r) c)
push_partial-IsBalanced s e r c =
    push_some-IsBalanced s (partial_plate_appearance s e r) c (partial_plate_appearance_open s e r)

close_half-IsBalanced :
    (s : GameState) (b : LedgerEventBase) (c : CompileContext)
    → IsBalanced s c
    → IsBalanced s (close_half s b c)
unfolding close_half
close_half-IsBalanced s b c v =
    let reason =
      if s.outs == 3
      then PlateAppearanceTerminationReason.third_out
      else PlateAppearanceTerminationReason.source_boundary in
    ground (arith, push_partial-IsBalanced s (some b.identity.event_id) reason c v)

pub apply_half_start-IsBalanced :
    (s : GameState) (b : LedgerEventBase) (c : CompileContext)
    → IsBalanced s c
    → IsBalanced (apply_half_start s b c).0 (apply_half_start s b c).1
unfolding apply_half_start
apply_half_start-IsBalanced s b c v = ground (arith, close_half-IsBalanced s b c v)

pub apply_batter_start-IsBalanced :
    (s : GameState) (e : BatterStartEvent) (c : CompileContext)
    → IsBalanced s c
    → IsBalanced (apply_batter_start s e c).0 (apply_batter_start s e c).1
unfolding apply_batter_start
apply_batter_start-IsBalanced s e c v = ground arith

record_pitch-IsBalanced :
    (pa : PlateAppearance) (t : CountTransition) (s : GameState) (c : CompileContext)
    → IsBalanced s c
    → IsBalanced (record_pitch pa t s c).0 (record_pitch pa t s c).1
unfolding record_pitch
record_pitch-IsBalanced pa t s c v = ground (
  arith,
  count_pitch-BothSums pa.current_pitcher_id t c,
  pitcher_line-plate_appearances pa.current_pitcher_id (count_pitch t) c,
)

pub apply_substitution-IsBalanced :
    (s : GameState) (e : SubstitutionEvent) (c : CompileContext)
    → IsBalanced s c
    → IsBalanced (apply_substitution s e c).0 (apply_substitution s e c).1
unfolding apply_substitution
apply_substitution-IsBalanced s e c v = ground arith

pub apply_pitch-IsBalanced :
    (s : GameState) (e : PitchEvent) (c : CompileContext)
    → IsBalanced s c
    → IsBalanced (apply_pitch s e c).0 (apply_pitch s e c).1
unfolding apply_pitch
apply_pitch-IsBalanced s e c v = elim (Option-cases s.active_plate_appearance) [
  | inl idle ↦ ground arith
  | inr (pa, active) ↦
      ground (
        arith,
        record_pitch-IsBalanced pa (apply_pitch_call s.balls s.strikes e.payload.call) s c v,
      )
]

-- A transition adds the same number of runs to the score and to both sides of the box score.
pub commit_transition-IsBalanced :
    (s : GameState) (b : LedgerEventBase) (c : CompileContext) (t : Result MovementSuccess)
    → IsBalanced s c
    → IsBalanced (commit_transition s b c t).1 (commit_transition s b c t).2
unfolding commit_transition
commit_transition-IsBalanced s b c (err e) v = ground arith
commit_transition-IsBalanced s b c (ok r) v =
    let outs = count_outs (pitcher_in_charge s) r.outs_added c in
    ground (
      arith,
      count_outs-BothSums (pitcher_in_charge s) r.outs_added c,
      count_outs-plate_appearances (pitcher_in_charge s) r.outs_added c,
      count_runs-BothSums r.scored outs,
      count_runs-plate_appearances r.scored outs,
    )

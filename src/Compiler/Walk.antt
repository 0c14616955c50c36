-- ===== src/Compiler/Walk.antt =====
-- What holds of the state, the lines and the frames over the walk of a whole document.
use kbo_workbench.Prelude.{
  Bool-cases, List, Option-cases, [], arith, drop, if◌then◌else◌, inl, inr, length, refl, ◌∷◌, ◌≡◌,
}
use kbo_workbench.Collections.Dict.{lookup}
use kbo_workbench.Compiler.Balance.{IsBalanced}
use kbo_workbench.Compiler.BalancedPlays.{apply_ledger_event-IsBalanced}
use kbo_workbench.Compiler.Context.{CompileContext, push_finding}
use kbo_workbench.Compiler.EventTransition.{apply_ledger_event}
use kbo_workbench.Compiler.Ledger.{
  Run, apply_row, initial_context, links_of, settle_row, walk_document, walk_row, walk_rows,
}
use kbo_workbench.Compiler.Observed.{
  CompareOptions, Observation, compare_independent_play_observed_state, compare_observations,
  compare_observed_state, compare_plate_play_observed_state, independent_options, last_row,
  observations, plate_options,
}
use kbo_workbench.Compiler.PlatePlay.{Applied}
use kbo_workbench.Compiler.PlayIndex.{get_list}
use kbo_workbench.Compiler.RowChecks.{
  Links, attached_rows, bunt_warning, compare_row, local_context, pitch_options, row_applied,
  terminal_bunt_display,
}
use kbo_workbench.Compiler.State.{initial_state}
use kbo_workbench.Compiler.Sums.{batter_totals, pitcher_totals}
use kbo_workbench.Compiler.ValidPlays.{apply_ledger_event-IsValid}
use kbo_workbench.Compiler.Validity.{IsValid, initial_state-IsValid}
use kbo_workbench.Contracts.Document.{StagingGameDocumentV2}
use kbo_workbench.Contracts.Event.{LedgerEventBase, StagingRelayEvent, event_id_of}
use kbo_workbench.Game.State.{GameState}

-- Two contexts have the same lines and plate appearances.
pub record SameLines (c d : CompileContext) : Type 0 where
  pub batters : c.batter_lines ≡ d.batter_lines
  pub pitchers : c.pitcher_lines ≡ d.pitcher_lines
  pub appearances : c.plate_appearances ≡ d.plate_appearances

compare_observations-SameLines :
    (b : LedgerEventBase) (os : List Observation) (c : CompileContext)
    → SameLines (compare_observations b os c) c
unfolding compare_observations
compare_observations-SameLines b os c = ground arith

pub compare_observed_state-SameLines :
    (s : GameState) (b : LedgerEventBase) (o : CompareOptions) (c : CompileContext)
    → SameLines (compare_observed_state s b o c) c
unfolding compare_observed_state
compare_observed_state-SameLines s b o c = elim (Option-cases b.observed_state_after) [
  | inl unseen ↦ ground arith
  | inr (e, seen) ↦ ground (arith, compare_observations-SameLines b (observations o e s) c)
]

compare_row-SameLines :
    (links : Links) (before after : GameState) (e : StagingRelayEvent) (c : CompileContext)
    → SameLines (compare_row links before after e c) c
unfolding compare_row compare_plate_play_observed_state compare_independent_play_observed_state
compare_row-SameLines links before after (StagingRelayEvent.plate_result e) c =
    let linked = get_list e.base.identity.event_id links.index.linked_by_result in
    let event = last_row linked e.base in
    compare_observed_state-SameLines after event (plate_options after event c) c
compare_row-SameLines links before after (StagingRelayEvent.runner_advance e) c =
    let group = get_list e.base.identity.event_id links.index.independent_by_leader in
    let event = last_row group e.base in
    let options = independent_options after event c in
    ground (arith, compare_observed_state-SameLines after event options c)
compare_row-SameLines links before after (StagingRelayEvent.pitch e) c =
    let bunt = terminal_bunt_display links before after e in
    let noted = if bunt then push_finding (bunt_warning e c) c else c in
    ground (arith, compare_observed_state-SameLines after e.base (pitch_options links e bunt) noted)
compare_row-SameLines links before after _ c = ground arith

local_context-IsBalanced :
    (links : Links) (s : GameState) (e : StagingRelayEvent) (c : CompileContext)
    → IsBalanced s c
    → IsBalanced s (local_context links e c)
unfolding local_context
local_context-IsBalanced links s e c v = ground arith

-- A row keeps the state valid and the box score balanced, whether or not it is applied.
apply_row-IsValid :
    (links : Links) (s : GameState) (c : CompileContext) (e : StagingRelayEvent)
    → IsValid s
    → IsValid (apply_row links s c e).state
unfolding apply_row
apply_row-IsValid links s c e v =
    let rows = attached_rows links (event_id_of e) in
    let local = local_context links e c in
    ground (arith, apply_ledger_event-IsValid s e rows local v)

settle_row-IsBalanced :
    (links : Links) (s : GameState) (c : CompileContext) (e : StagingRelayEvent) (a : Applied)
    → IsBalanced s c
    → IsBalanced a.state a.context
    → IsBalanced (settle_row links s c e a).state (settle_row links s c e a).context
settle_row-IsBalanced links s c e a v w =
    elim (Bool-cases (row_applied e (drop (length c.findings) a.context.findings))) [
      | inl yes_applied ↦
          rw yes_applied (ground (arith, compare_row-SameLines links s a.state e a.context))
      | inr refused ↦ rw refused (ground arith)
    ]

apply_row-IsBalanced :
    (links : Links) (s : GameState) (c : CompileContext) (e : StagingRelayEvent)
    → IsBalanced s c
    → IsBalanced (apply_row links s c e).state (apply_row links s c e).context
unfolding apply_row
apply_row-IsBalanced links s c e v =
    let rows = attached_rows links (event_id_of e) in
    let local = local_context links e c in
    settle_row-IsBalanced links s c e (apply_ledger_event s e rows local) v
      (apply_ledger_event-IsBalanced s e rows local (local_context-IsBalanced links s e c v))

pub record IsSound (r : Run) : Type 0 where
  pub valid : IsValid r.state
  pub balanced : IsBalanced r.state r.context

walk_row-IsSound :
    (links : Links) (e : StagingRelayEvent) (r : Run) → IsSound r → IsSound (walk_row links e r)
unfolding walk_row
walk_row-IsSound links e r h = elim (Option-cases (lookup (event_id_of e) r.attached)) [
  | inl own ↦ ground (
    arith,
    apply_row-IsValid links r.state r.context e h.valid,
    apply_row-IsBalanced links r.state r.context e h.balanced,
  )
  | inr (a, taken) ↦ ground arith
]

walk_rows-IsSound :
    (links : Links) (es : List StagingRelayEvent) (r : Run)
    → IsSound r
    → IsSound (walk_rows links es r)
unfolding walk_rows
walk_rows-IsSound links [] r h = h
walk_rows-IsSound links (e ∷ es) r h =
    walk_rows-IsSound links es (walk_row links e r) (walk_row-IsSound links e r h)

initial-IsBalanced :
    (document : StagingGameDocumentV2) → IsBalanced initial_state (initial_context document)
unfolding initial_state initial_context batter_totals pitcher_totals
initial-IsBalanced document = record { scored = refl; agree = refl; turns = refl }

-- For every document, the walk ends in a valid state and with a balanced box score: the runs
-- in the batters' lines and in the pitchers' lines are the score, both sides agree on hits, walks,
-- hit batters and strikeouts, and either side's turns are the completed plate appearances.
pub walk_document-IsSound : (document : StagingGameDocumentV2) → IsSound (walk_document document)
unfolding walk_document
walk_document-IsSound document =
    walk_rows-IsSound (links_of document) document.events _
      (record { valid = initial_state-IsValid; balanced = initial-IsBalanced document })

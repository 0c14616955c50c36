-- ===== src/Compiler/ConflictFreeWalk.antt =====
-- The whole ledger is compiled without a report of a conflict between tracking candidates.
use kbo_workbench.Prelude.{
  Bool-cases, List, Option-cases, [], arith, drop, if◌then◌else◌, inl, inr, length, true, ◌++◌, ◌∷◌,
  ◌≡◌,
}
use kbo_workbench.Collections.Dict.{lookup}
use kbo_workbench.Compiler.ConflictFree.{
  IsConflictFree, conflict_free, conflict_free-append, conflict_free-push, conflict_free_nil,
}
use kbo_workbench.Compiler.ConflictFreeIndex.{IsPlainIndex}
use kbo_workbench.Compiler.ConflictFreePlays.{apply_ledger_event-IsConflictFree}
use kbo_workbench.Compiler.ConflictFreeReviews.{build_play_index-IsPlainIndex}
use kbo_workbench.Compiler.Context.{CompileContext, push_finding}
use kbo_workbench.Compiler.EventTransition.{apply_ledger_event}
use kbo_workbench.Compiler.Ledger.{
  Run, apply_row, initial_context, links_of, settle_row, walk_document, walk_row, walk_rows,
}
use kbo_workbench.Compiler.Observed.{
  CompareOptions, Observation, compare_independent_play_observed_state, compare_observations,
  compare_observed_state, compare_plate_play_observed_state, independent_options, last_row,
  observations, plate_options, report,
}
use kbo_workbench.Compiler.PlatePlay.{Applied}
use kbo_workbench.Compiler.PlayIndex.{get_list}
use kbo_workbench.Compiler.RowChecks.{
  Links, attached_rows, bunt_warning, compare_row, local_context, pitch_options, row_applied,
  terminal_bunt_display,
}
use kbo_workbench.Contracts.Document.{StagingGameDocumentV2}
use kbo_workbench.Contracts.Event.{LedgerEventBase, StagingRelayEvent, event_id_of}
use kbo_workbench.Game.State.{GameState}

local_context-IsConflictFree :
    (links : Links) (e : StagingRelayEvent) (c : CompileContext)
    → IsPlainIndex links.index
    → IsConflictFree c
    → IsConflictFree (local_context links e c)
unfolding local_context
local_context-IsConflictFree links e c plain h =
    let found = get_list (event_id_of e) links.index.finding_by_event in
    let listed : conflict_free (c.findings ++ found) ≡ true =
      ground (arith, conflict_free-append c.findings found, plain (event_id_of e), h) in
    grind (arith, conflict_free-push)

report-IsConflictFree :
    (b : LedgerEventBase) (os : List Observation) (c : CompileContext)
    → IsConflictFree c
    → IsConflictFree (report b os c)
report-IsConflictFree b [] c h = h
report-IsConflictFree b (o ∷ os) c h = grind (arith, conflict_free-push)

compare_observations-IsConflictFree :
    (b : LedgerEventBase) (os : List Observation) (c : CompileContext)
    → IsConflictFree c
    → IsConflictFree (compare_observations b os c)
unfolding compare_observations
compare_observations-IsConflictFree b os c h = report-IsConflictFree b _ _ h

pub compare_observed_state-IsConflictFree :
    (s : GameState) (b : LedgerEventBase) (o : CompareOptions) (c : CompileContext)
    → IsConflictFree c
    → IsConflictFree (compare_observed_state s b o c)
unfolding compare_observed_state
compare_observed_state-IsConflictFree s b o c h = elim (Option-cases b.observed_state_after) [
  | inl unseen ↦ ground arith
  | inr (e, seen) ↦ ground (arith, compare_observations-IsConflictFree b (observations o e s) c h)
]

compare_row-IsConflictFree :
    (links : Links) (before after : GameState) (e : StagingRelayEvent) (c : CompileContext)
    → IsConflictFree c
    → IsConflictFree (compare_row links before after e c)
unfolding compare_row compare_plate_play_observed_state compare_independent_play_observed_state
compare_row-IsConflictFree links before after (StagingRelayEvent.plate_result e) c h =
    let event = last_row (get_list e.base.identity.event_id links.index.linked_by_result) e.base in
    compare_observed_state-IsConflictFree after event (plate_options after event c) c h
compare_row-IsConflictFree links before after (StagingRelayEvent.runner_advance e) c h =
    let event =
      last_row (get_list e.base.identity.event_id links.index.independent_by_leader) e.base in
    ground (
      arith,
      compare_observed_state-IsConflictFree after event (independent_options after event c) c h,
    )
compare_row-IsConflictFree links before after (StagingRelayEvent.pitch e) c h =
    let bunt = terminal_bunt_display links before after e in
    let noted = if bunt then push_finding (bunt_warning e c) c else c in
    let free : IsConflictFree noted = grind (arith, conflict_free-push) in
    compare_observed_state-IsConflictFree after e.base (pitch_options links e bunt) noted free
compare_row-IsConflictFree links before after _ c h = h

settle_row-IsConflictFree :
    (links : Links) (s : GameState) (c : CompileContext) (e : StagingRelayEvent) (a : Applied)
    → IsConflictFree a.context
    → IsConflictFree (settle_row links s c e a).context
settle_row-IsConflictFree links s c e a h =
    elim (Bool-cases (row_applied e (drop (length c.findings) a.context.findings))) [
      | inl kept ↦ rw kept (compare_row-IsConflictFree links s a.state e a.context h)
      | inr refused ↦ rw refused h
    ]

apply_row-IsConflictFree :
    (links : Links) (s : GameState) (c : CompileContext) (e : StagingRelayEvent)
    → IsPlainIndex links.index
    → IsConflictFree c
    → IsConflictFree (apply_row links s c e).context
unfolding apply_row
apply_row-IsConflictFree links s c e plain h =
    let rows = attached_rows links (event_id_of e) in
    let local = local_context links e c in
    settle_row-IsConflictFree links s c e (apply_ledger_event s e rows local) (
      apply_ledger_event-IsConflictFree s e rows local
        (local_context-IsConflictFree links e c plain h))

walk_row-IsConflictFree :
    (links : Links) (e : StagingRelayEvent) (r : Run)
    → IsPlainIndex links.index
    → IsConflictFree r.context
    → IsConflictFree (walk_row links e r).context
unfolding walk_row
walk_row-IsConflictFree links e r plain h =
    elim (Option-cases (lookup (event_id_of e) r.attached)) [
      | inl own ↦ ground (arith, apply_row-IsConflictFree links r.state r.context e plain h)
      | inr (a, taken) ↦ ground arith
    ]

walk_rows-IsConflictFree :
    (links : Links) (es : List StagingRelayEvent) (r : Run)
    → IsPlainIndex links.index
    → IsConflictFree r.context
    → IsConflictFree (walk_rows links es r).context
unfolding walk_rows
walk_rows-IsConflictFree links [] r plain h = h
walk_rows-IsConflictFree links (e ∷ es) r plain h =
    walk_rows-IsConflictFree links es (walk_row links e r) plain
      (walk_row-IsConflictFree links e r plain h)

pub walk_document-IsConflictFree :
    (d : StagingGameDocumentV2) → IsConflictFree (walk_document d).context
unfolding walk_document links_of initial_context
walk_document-IsConflictFree d =
    walk_rows-IsConflictFree (links_of d) d.events _ (build_play_index-IsPlainIndex d)
      conflict_free_nil

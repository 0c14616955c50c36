-- ===== src/Compiler/SameDocument.antt =====
-- The ledger part of packages/game-core/src/reducer.ts never changes the document of its context.
use kbo_workbench.Prelude.{
  Bool, Bool-cases, List, Option, Option-cases, [], arith, false, filter, inl, inr, last, ltb, none,
  not, refl, some, true, ◌&&◌, ◌||◌, ◌∙◌, ◌∷◌, ◌≡◌,
}
use kbo_workbench.Collections.Dict.{lookup}
use kbo_workbench.Compiler.Context.{CompileContext}
use kbo_workbench.Compiler.EventHandlers.{push_some}
use kbo_workbench.Compiler.FinalScore.{compare_final_observed_score, last_candidate, score_options}
use kbo_workbench.Compiler.Finish.{
  bad_declaration, check_declarations, compile_ledger, end_event, end_reason, finish_document,
  finish_half, is_called_game, is_valid_declaration, is_walk_off,
}
use kbo_workbench.Compiler.Ledger.{
  Run, apply_row, initial_context, links_of, walk_document, walk_row, walk_rows,
}
use kbo_workbench.Compiler.Observed.{
  CompareOptions, Observation, compare_observations, compare_observed_state, is_final, observations,
  report,
}
use kbo_workbench.Compiler.RowChecks.{Links}
use kbo_workbench.Compiler.State.{partial_plate_appearance}
use kbo_workbench.Contracts.Document.{StagingGameDocumentV2}
use kbo_workbench.Contracts.Event.{LedgerEventBase, StagingRelayEvent, base_of, event_id_of}
use kbo_workbench.Game.State.{GameState, PlateAppearanceSummary}

walk_row-document :
    (links : Links) (e : StagingRelayEvent) (r : Run)
    → (walk_row links e r).context.document ≡ r.context.document
unfolding walk_row apply_row
walk_row-document links e r = elim (Option-cases (lookup (event_id_of e) r.attached)) [
  | inl own ↦ ground arith
  | inr (a, taken) ↦ ground arith
]

walk_rows-document :
    (links : Links) (es : List StagingRelayEvent) (r : Run)
    → (walk_rows links es r).context.document ≡ r.context.document
unfolding walk_rows
walk_rows-document links [] r = refl
walk_rows-document links (e ∷ es) r =
    walk_rows-document links es (walk_row links e r) ∙ walk_row-document links e r

check_declarations-document :
    (valid : Bool) (es : List StagingRelayEvent) (c : CompileContext)
    → (check_declarations valid es c).document ≡ c.document
unfolding check_declarations
check_declarations-document valid [] c = refl
check_declarations-document true (e ∷ []) c = refl
check_declarations-document false (e ∷ []) c = refl
check_declarations-document valid (e ∷ f ∷ es) c =
    check_declarations-document valid (f ∷ es) (bad_declaration e c)

push_some-document :
    (o : Option PlateAppearanceSummary) (c : CompileContext) → (push_some o c).document ≡ c.document
push_some-document none c = refl
push_some-document (some pa) c = refl

finish_half-document :
    (s : GameState) (valid : Bool) (d : Option StagingRelayEvent) (c : CompileContext)
    → (finish_half s valid d c).document ≡ c.document
unfolding finish_half
finish_half-document s valid d c =
    let final = is_final c.document.metadata.status in
    let walk_off = is_walk_off s c.document in
    let called = valid || (final && ltb s.inning c.document.metadata.scheduled_innings) in
    let reason = end_reason s walk_off called in
    let kept =
      push_some-document
        (partial_plate_appearance s (end_event reason valid d c.document.events) reason) c in
    elim (Bool-cases (final && ltb s.outs 3 && not walk_off && not called)) [
      | inl open_half ↦ rw open_half kept
      | inr over ↦ rw over kept
    ]

finish_document-document :
    (s : GameState) (c : CompileContext) → (finish_document s c).document ≡ c.document
unfolding finish_document
finish_document-document s c =
    let declarations = filter is_called_game c.document.events in
    let valid = is_valid_declaration s c.document (last declarations) in
    let checked = check_declarations-document valid declarations c in
    ground (
      arith,
      checked,
      finish_half-document s valid (last declarations) (check_declarations valid declarations c),
    )

report-document :
    (b : LedgerEventBase) (os : List Observation) (c : CompileContext)
    → (report b os c).document ≡ c.document
report-document b [] c = refl
report-document b (o ∷ os) c = refl

compare_observations-document :
    (b : LedgerEventBase) (os : List Observation) (c : CompileContext)
    → (compare_observations b os c).document ≡ c.document
unfolding compare_observations
compare_observations-document b os c =
    report-document b _ (record c { observation_mismatch_fields = _ })

compare_observed_state-document :
    (s : GameState) (b : LedgerEventBase) (o : CompareOptions) (c : CompileContext)
    → (compare_observed_state s b o c).document ≡ c.document
unfolding compare_observed_state
compare_observed_state-document s b o c = elim (Option-cases b.observed_state_after) [
  | inl unseen ↦ ground arith
  | inr (e, seen) ↦ ground (arith, compare_observations-document b (observations o e s) c)
]

compare_final_observed_score-document :
    (s : GameState) (c : CompileContext) → (compare_final_observed_score s c).document ≡ c.document
unfolding compare_final_observed_score
compare_final_observed_score-document s c = elim (Option-cases (last_candidate c.document.events)) [
  | inl unseen ↦ ground arith
  | inr ((e, later), seen) ↦
      ground (arith, compare_observed_state-document s (base_of e) score_options c)
]

pub compile_ledger-document : (d : StagingGameDocumentV2) → (compile_ledger d).context.document ≡ d
unfolding compile_ledger walk_document initial_context
compile_ledger-document d =
    let r = walk_document d in
    compare_final_observed_score-document r.state (finish_document r.state r.context)
    ∙ finish_document-document r.state r.context
    ∙ walk_rows-document (links_of d) d.events _

-- ===== src/Compiler/ConflictFreeEnd.antt =====
-- The end of the document adds no report of a conflict between tracking candidates either.
use kbo_workbench.Prelude.{
  Bool, Bool-cases, List, Option, Option-cases, [], arith, false, filter, inl, inr, last, ltb, none,
  not, refl, some, true, ◌&&◌, ◌||◌, ◌∷◌, ◌≡◌,
}
use kbo_workbench.Compiler.ConflictFree.{IsConflictFree, conflict_free-push}
use kbo_workbench.Compiler.ConflictFreeWalk.{
  compare_observed_state-IsConflictFree, walk_document-IsConflictFree,
}
use kbo_workbench.Compiler.Context.{CompileContext}
use kbo_workbench.Compiler.EventHandlers.{push_some}
use kbo_workbench.Compiler.FinalScore.{compare_final_observed_score, last_candidate, score_options}
use kbo_workbench.Compiler.Finish.{
  bad_declaration, check_declarations, compile_ledger, end_event, end_reason, finish_document,
  finish_half, incomplete_half, is_called_game, is_valid_declaration, is_walk_off,
}
use kbo_workbench.Compiler.Ledger.{walk_document}
use kbo_workbench.Compiler.Observed.{is_final}
use kbo_workbench.Compiler.State.{partial_plate_appearance}
use kbo_workbench.Contracts.Document.{StagingGameDocumentV2}
use kbo_workbench.Contracts.Event.{StagingRelayEvent, base_of}
use kbo_workbench.Game.State.{GameState, PlateAppearanceSummary}

check_declarations-IsConflictFree :
    (valid : Bool) (es : List StagingRelayEvent) (c : CompileContext)
    → IsConflictFree c
    → IsConflictFree (check_declarations valid es c)
unfolding check_declarations
check_declarations-IsConflictFree valid [] c h = h
check_declarations-IsConflictFree true (e ∷ []) c h = h
check_declarations-IsConflictFree false (e ∷ []) c h = grind (arith, conflict_free-push)
check_declarations-IsConflictFree valid (e ∷ f ∷ es) c h =
    check_declarations-IsConflictFree valid (f ∷ es) (bad_declaration e c)
      (grind (arith, conflict_free-push))

push_some-findings :
    (o : Option PlateAppearanceSummary) (c : CompileContext) → (push_some o c).findings ≡ c.findings
push_some-findings none c = refl
push_some-findings (some pa) c = refl

finish_half-IsConflictFree :
    (s : GameState) (valid : Bool) (d : Option StagingRelayEvent) (c : CompileContext)
    → IsConflictFree c
    → IsConflictFree (finish_half s valid d c)
unfolding finish_half
finish_half-IsConflictFree s valid d c h =
    let final = is_final c.document.metadata.status in
    let walk_off = is_walk_off s c.document in
    let called = valid || (final && ltb s.inning c.document.metadata.scheduled_innings) in
    let reason = end_reason s walk_off called in
    let last_plate =
      partial_plate_appearance s (end_event reason valid d c.document.events) reason in
    let kept = push_some-findings last_plate c in
    elim (Bool-cases (final && ltb s.outs 3 && not walk_off && not called)) [
      | inl open_half ↦
          rw open_half
            (rw kept (ground (arith, conflict_free-push c.findings (incomplete_half s c), h)))
      | inr over ↦ rw over (rw kept h)
    ]

finish_document-IsConflictFree :
    (s : GameState) (c : CompileContext) → IsConflictFree c → IsConflictFree (finish_document s c)
unfolding finish_document
finish_document-IsConflictFree s c h =
    let declarations = filter is_called_game c.document.events in
    let valid = is_valid_declaration s c.document (last declarations) in
    let checked = check_declarations-IsConflictFree valid declarations c h in
    ground (
      arith,
      checked,
      finish_half-IsConflictFree s valid (last declarations)
          (check_declarations valid declarations c) checked,
    )

compare_final_observed_score-IsConflictFree :
    (s : GameState) (c : CompileContext)
    → IsConflictFree c
    → IsConflictFree (compare_final_observed_score s c)
unfolding compare_final_observed_score
compare_final_observed_score-IsConflictFree s c h =
    elim (Option-cases (last_candidate c.document.events)) [
      | inl unseen ↦ ground arith
      | inr ((e, later), seen) ↦
          ground (arith, compare_observed_state-IsConflictFree s (base_of e) score_options c h)
    ]

pub compile_ledger-IsConflictFree :
    (d : StagingGameDocumentV2) → IsConflictFree (compile_ledger d).context
unfolding compile_ledger
compile_ledger-IsConflictFree d =
    let r = walk_document d in
    compare_final_observed_score-IsConflictFree r.state (finish_document r.state r.context)
      (finish_document-IsConflictFree r.state r.context (walk_document-IsConflictFree d))

-- ===== src/Compiler/Finish.antt =====
-- `finishDocument` of packages/game-core/src/reducer.ts, and the ledger part of
-- `compileStagingGameDocumentV2`: the walk, the end of the document and the last observed score.
use kbo_workbench.Prelude.{
  Bool, Bool-cases, List, Option, [], all, arith, drop, false, filter, if◌then◌else◌, inl, inr,
  last, leb, ltb, none, not, some, true, ◌&&◌, ◌+◌, ◌==◌, ◌||◌, ◌∷◌,
}
use kbo_workbench.Compiler.Balance.{IsBalanced, push_partial-IsBalanced}
use kbo_workbench.Compiler.Context.{CompileContext, detail, push_finding, source_finding}
use kbo_workbench.Compiler.EventHandlers.{push_some}
use kbo_workbench.Compiler.FinalScore.{compare_final_observed_score}
use kbo_workbench.Compiler.Ledger.{Run, walk_document}
use kbo_workbench.Compiler.Observed.{is_final}
use kbo_workbench.Compiler.State.{partial_plate_appearance}
use kbo_workbench.Compiler.Walk.{SameLines}
use kbo_workbench.Contracts.Document.{StagingGameDocumentV2}
use kbo_workbench.Contracts.Event.{
  AdministrativeCode, EventId, Half, StagingRelayEvent, base_of, event_id_of, is_non_state,
  same_half,
}
use kbo_workbench.Game.Findings.{
  DetailField, DetailValue, Finding, FindingCategory, FindingCode, FindingSeverity,
}
use kbo_workbench.Game.State.{GameState, PlateAppearanceTerminationReason}

abbrev pub is_walk_off : GameState → StagingGameDocumentV2 → Bool
is_walk_off s document =
    same_half s.half Half.bottom
    && leb document.metadata.scheduled_innings s.inning
    && ltb s.away_score s.home_score

abbrev pub is_called_game : StagingRelayEvent → Bool
is_called_game (StagingRelayEvent.administrative e) = elim e.payload.code [
  | AdministrativeCode.called_game ↦ true
  | _ ↦ false
]
is_called_game _ = false

-- The declaration stands in the last half inning of a final game, and only rows that change no
-- state follow it.
unfoldable pub is_valid_declaration :
    GameState → StagingGameDocumentV2 → Option StagingRelayEvent → Bool
is_valid_declaration s document none = false
is_valid_declaration s document (some e) =
    s.half_active
    && is_final document.metadata.status
    && (base_of e).inning == s.inning
    && same_half (base_of e).half s.half
    && all is_non_state (drop ((base_of e).sequence + 1) document.events)

abbrev pub bad_declaration : StagingRelayEvent → CompileContext → CompileContext
bad_declaration e context =
    source_finding (base_of e) FindingCode.invalid_called_game_declaration context

-- Every declaration but the last is refused, and the last one unless it is valid.
unfoldable pub check_declarations : Bool → List StagingRelayEvent → CompileContext → CompileContext
check_declarations valid [] context = context
check_declarations valid (e ∷ []) context = if valid then context else bad_declaration e context
check_declarations valid (e ∷ f ∷ es) context =
    check_declarations valid (f ∷ es) (bad_declaration e context)

abbrev pub end_reason : GameState → Bool → Bool → PlateAppearanceTerminationReason
end_reason s walk_off called =
    if s.outs == 3
    then PlateAppearanceTerminationReason.third_out
    else if walk_off
    then PlateAppearanceTerminationReason.walk_off
    else if called
    then PlateAppearanceTerminationReason.called_game
    else PlateAppearanceTerminationReason.end_of_document

abbrev id_of : Option StagingRelayEvent → Option EventId
id_of none = none
id_of (some e) = some (event_id_of e)

abbrev pub end_event :
    PlateAppearanceTerminationReason
    → Bool
    → Option StagingRelayEvent
    → List StagingRelayEvent
    → Option EventId
end_event PlateAppearanceTerminationReason.end_of_document valid declaration events = none
end_event PlateAppearanceTerminationReason.called_game valid declaration events =
    if valid then id_of declaration else id_of (last events)
end_event _ valid declaration events = id_of (last events)

abbrev pub incomplete_half : GameState → CompileContext → Finding
incomplete_half s context = record {
  code = FindingCode.final_game_has_incomplete_half;
  category = FindingCategory.source;
  severity = FindingSeverity.blocking;
  game_id = context.document.metadata.game_id;
  event_id = none;
  event_sequence = none;
  record_identity = none;
  details = detail DetailField.outs (DetailValue.number 3) (DetailValue.number s.outs) ∷ [];
}

-- The end of an active half inning.
unfoldable pub finish_half :
    GameState → Bool → Option StagingRelayEvent → CompileContext → CompileContext
unfolding partial_plate_appearance
finish_half s valid declaration context =
    let document = context.document in
    let final = is_final document.metadata.status in
    let walk_off = is_walk_off s document in
    let called = valid || (final && ltb s.inning document.metadata.scheduled_innings) in
    let reason = end_reason s walk_off called in
    let closed =
      push_some
        (partial_plate_appearance s (end_event reason valid declaration document.events) reason)
        context in
    if final && ltb s.outs 3 && not walk_off && not called
    then push_finding (incomplete_half s context) closed
    else closed

unfoldable pub finish_document : GameState → CompileContext → CompileContext
unfolding is_valid_declaration check_declarations finish_half
finish_document s context =
    let declarations = filter is_called_game context.document.events in
    let valid = is_valid_declaration s context.document (last declarations) in
    let checked = check_declarations valid declarations context in
    if s.half_active then finish_half s valid (last declarations) checked else checked

-- The result of the ledger part: the frames, the plays and the last state and context.
unfoldable pub compile_ledger : StagingGameDocumentV2 → Run
unfolding walk_document finish_document
compile_ledger document =
    let r = walk_document document in
    record r { context = compare_final_observed_score r.state (finish_document r.state r.context) }

check_declarations-SameLines :
    (valid : Bool) (es : List StagingRelayEvent) (c : CompileContext)
    → SameLines (check_declarations valid es c) c
unfolding check_declarations
check_declarations-SameLines valid [] c = ground arith
check_declarations-SameLines valid (e ∷ []) c = ground arith
check_declarations-SameLines valid (e ∷ f ∷ es) c =
    ground (arith, check_declarations-SameLines valid (f ∷ es) (bad_declaration e c))

pub SameLines-IsBalanced :
    {s : GameState} {c d : CompileContext} → SameLines c d → IsBalanced s d → IsBalanced s c
SameLines-IsBalanced h v = ground arith

push_finding-IsBalanced :
    (s : GameState) (f : Finding) (c : CompileContext)
    → IsBalanced s c
    → IsBalanced s (push_finding f c)
push_finding-IsBalanced s f c v = ground arith

finish_half-IsBalanced :
    (s : GameState) (valid : Bool) (d : Option StagingRelayEvent) (c : CompileContext)
    → IsBalanced s c
    → IsBalanced s (finish_half s valid d c)
unfolding finish_half
finish_half-IsBalanced s valid d c v =
    let final = is_final c.document.metadata.status in
    let walk_off = is_walk_off s c.document in
    let called = valid || (final && ltb s.inning c.document.metadata.scheduled_innings) in
    let reason = end_reason s walk_off called in
    let event = end_event reason valid d c.document.events in
    let closed = push_partial-IsBalanced s event reason c v in
    elim (Bool-cases (final && ltb s.outs 3 && not walk_off && not called)) [
      | inl open_half ↦ rw open_half (push_finding-IsBalanced s (incomplete_half s c) _ closed)
      | inr over ↦ rw over closed
    ]

pub finish_document-IsBalanced :
    (s : GameState) (c : CompileContext) → IsBalanced s c → IsBalanced s (finish_document s c)
unfolding finish_document
finish_document-IsBalanced s c v =
    let declarations = filter is_called_game c.document.events in
    let valid = is_valid_declaration s c.document (last declarations) in
    let checked = SameLines-IsBalanced (check_declarations-SameLines valid declarations c) v in
    ground (
      arith,
      checked,
      finish_half-IsBalanced s valid (last declarations) (check_declarations valid declarations c)
          checked,
    )

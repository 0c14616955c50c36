-- ===== src/Compiler/Reviews.antt =====
-- `attachTrailingPlateAnnotations`, `validateReviewReferences`, `previousStateLeader` and
-- `buildPlayIndex` as a whole, of packages/game-core/src/compiler/play-index.ts.
use kbo_workbench.Prelude.{
  Bool, List, Option, [], any, contains, drop, if◌then◌else◌, is_value, leb, ltb, none, not,
  or_else, or_option, reverse, some, take, ◌&&◌, ◌++◌, ◌+◌, ◌==◌, ◌∷◌,
}
use kbo_workbench.Collections.Dict.{Dict, insert, lookup}
use kbo_workbench.Collections.Sort.{sort_by}
use kbo_workbench.Compiler.Observed.{last_row}
use kbo_workbench.Compiler.PlayIndex.{
  PlayIndex, check_linked_plays, empty_index, get_list, group_independent, index_events,
  index_finding, link_events, mark_invalid, push_index_finding, same_play_half, sort_linked,
}
use kbo_workbench.Contracts.Document.{StagingGameDocumentV2}
use kbo_workbench.Contracts.Event.{
  EventId, LedgerEventBase, PlateResultEvent, RunnerAdvanceEvent, StagingRelayEvent, base_of,
  event_id_of, is_non_state,
}
use kbo_workbench.Game.Findings.{FindingCode}

abbrev trails : LedgerEventBase → StagingRelayEvent → Bool
trails b e = is_non_state e && same_play_half (base_of e) b

-- The annotations behind the play, each appended unless its sequence is there already.
add_trailing :
    LedgerEventBase → List StagingRelayEvent → List StagingRelayEvent → List StagingRelayEvent
add_trailing b [] found = found
add_trailing b (e ∷ es) found =
    let rest = add_trailing b es (
      if any (λ a. (base_of a).sequence == (base_of e).sequence) found
      then found
      else found ++ e ∷ []) in
    if trails b e then rest else found

abbrev by_row_sequence : List StagingRelayEvent → List StagingRelayEvent
by_row_sequence rows = sort_by (λ a b. leb (base_of a).sequence (base_of b).sequence) rows

abbrev set_sorted :
    EventId → List StagingRelayEvent → Dict (List StagingRelayEvent) → Dict (List StagingRelayEvent)
set_sorted k [] d = d
set_sorted k (e ∷ es) d = insert k (by_row_sequence (e ∷ es)) d

unfoldable pub attach_trailing : StagingGameDocumentV2 → PlateResultEvent → PlayIndex → PlayIndex
unfolding add_trailing
attach_trailing document e i =
    let id = e.base.identity.event_id in
    let from = (last_row (get_list id i.linked_by_result) e.base).sequence in
    let found =
      add_trailing e.base (drop (from + 1) document.events) (get_list id i.non_state_by_result) in
    if contains id i.invalid_play_leader_ids
    then i
    else record i { non_state_by_result = set_sorted id found i.non_state_by_result }

unfoldable pub attach_trailing_plate_annotations :
    StagingGameDocumentV2 → List StagingRelayEvent → PlayIndex → PlayIndex
unfolding attach_trailing
attach_trailing_plate_annotations document [] i = i
attach_trailing_plate_annotations document (StagingRelayEvent.plate_result e ∷ es) i =
    attach_trailing_plate_annotations document es (attach_trailing document e i)
attach_trailing_plate_annotations document (_ ∷ es) i =
    attach_trailing_plate_annotations document es i

abbrev lead_all {ℓ} : {A : Type ℓ} → (A → EventId) → EventId → List A → Dict EventId → Dict EventId
lead_all id leader [] d = d
lead_all id leader (e ∷ es) d = lead_all id leader es (insert (id e) leader d)

abbrev runner_id_of : RunnerAdvanceEvent → EventId
runner_id_of e = e.base.identity.event_id

abbrev lead_self : List StagingRelayEvent → Dict EventId → Dict EventId
lead_self [] d = d
lead_self (e ∷ es) d =
    lead_self es (if is_non_state e then d else insert (event_id_of e) (event_id_of e) d)

-- The members and the annotations of each play of one kind.
abbrev lead_plays :
    Dict (List RunnerAdvanceEvent) → Dict (List StagingRelayEvent) → Dict EventId → Dict EventId
lead_plays [] notes d = d
lead_plays ((leader, runners) ∷ plays) notes d =
    lead_plays plays notes
      (lead_all event_id_of leader (get_list leader notes) (lead_all runner_id_of leader runners d))

-- `leaderByEvent`
pub leader_by_event : StagingGameDocumentV2 → PlayIndex → Dict EventId
leader_by_event document i =
    lead_plays i.independent_by_leader i.non_state_by_independent_leader
      (lead_plays i.linked_by_result i.non_state_by_result (lead_self document.events []))

-- `previousStateLeader`, over the rows before the sequence, the nearest first.
previous_state_leader : List StagingRelayEvent → Dict EventId → Option EventId
previous_state_leader [] d = none
previous_state_leader (e ∷ es) d =
    let rest = previous_state_leader es d in
    if is_non_state e then rest else some (or_else (lookup (event_id_of e) d) (event_id_of e))

-- What is wrong with the reference of a review to its target.
unfoldable pub review_fault :
    StagingGameDocumentV2
    → Dict EventId
    → LedgerEventBase
    → Option StagingRelayEvent
    → Option FindingCode
unfolding previous_state_leader
review_fault document leaders review none = some FindingCode.dangling_review_reference
review_fault document leaders review (some target) =
    let t = base_of target in
    let preceding =
      previous_state_leader (reverse (take review.sequence document.events)) leaders in
    let expected = or_option (lookup review.identity.event_id leaders) preceding in
    let target_leader = or_else (lookup t.identity.event_id leaders) t.identity.event_id in
    if t.sequence == review.sequence
    then some FindingCode.self_review_reference
    else if ltb review.sequence t.sequence
    then some FindingCode.future_review_reference
    else if not (same_play_half t review)
    then some FindingCode.review_half_mismatch
    else if not (is_value expected target_leader)
    then some FindingCode.review_target_outside_play
    else none

abbrev pub invalidate : Option EventId → PlayIndex → PlayIndex
invalidate none i = i
invalidate (some leader) i = mark_invalid leader i

abbrev pub report_review :
    StagingGameDocumentV2
    → Dict EventId
    → LedgerEventBase
    → Option FindingCode
    → PlayIndex
    → PlayIndex
report_review document leaders review none i = i
report_review document leaders review (some c) i =
    let leader = lookup review.identity.event_id leaders in
    push_index_finding (or_else leader review.identity.event_id) (index_finding document review c)
      (invalidate leader i)

abbrev pub check_review :
    StagingGameDocumentV2
    → Dict StagingRelayEvent
    → Dict EventId
    → LedgerEventBase
    → Option EventId
    → PlayIndex
    → PlayIndex
check_review document by_id leaders review none i = i
check_review document by_id leaders review (some t) i =
    report_review document leaders review (review_fault document leaders review (lookup t by_id)) i

unfoldable pub validate_review_references :
    StagingGameDocumentV2
    → Dict StagingRelayEvent
    → Dict EventId
    → List StagingRelayEvent
    → PlayIndex
    → PlayIndex
unfolding review_fault
validate_review_references document by_id leaders [] i = i
validate_review_references document by_id leaders (StagingRelayEvent.review e ∷ es) i =
    validate_review_references document by_id leaders es
      (check_review document by_id leaders e.base e.payload.reviewed_event_id i)
validate_review_references document by_id leaders (_ ∷ es) i =
    validate_review_references document by_id leaders es i

unfoldable pub build_play_index : StagingGameDocumentV2 → PlayIndex
unfolding link_events check_linked_plays group_independent attach_trailing_plate_annotations
    leader_by_event validate_review_references
build_play_index document =
    let by_id = index_events document.events [] in
    let linked = link_events document by_id document.events empty_index in
    let checked = check_linked_plays document by_id linked.linked_by_result linked in
    let sorted = record checked { linked_by_result = sort_linked checked.linked_by_result } in
    let grouped = group_independent none document.events sorted in
    let attached = attach_trailing_plate_annotations document document.events grouped in
    validate_review_references document by_id (leader_by_event document attached) document.events
      attached

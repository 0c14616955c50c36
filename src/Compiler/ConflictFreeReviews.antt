-- ===== src/Compiler/ConflictFreeReviews.antt =====
-- The finished play index reports no conflict between tracking candidates.
use kbo_workbench.Prelude.{
  Bool-cases, List, Option, [], arith, contains, false, inl, inr, none, refl, some, ◌∷◌, ◌≡◌,
}
use kbo_workbench.Collections.Dict.{Dict, lookup}
use kbo_workbench.Compiler.ConflictFree.{conflict_free_nil}
use kbo_workbench.Compiler.ConflictFreeIndex.{
  IsPlainIndex, check_linked_plays-IsPlainIndex, group_independent-IsPlainIndex,
  link_events-IsPlainIndex, push_index_finding-IsPlainIndex,
}
use kbo_workbench.Compiler.PlayIndex.{
  PlayIndex, check_linked_plays, empty_index, group_independent, index_events, link_events,
  sort_linked,
}
use kbo_workbench.Compiler.Reviews.{
  attach_trailing, attach_trailing_plate_annotations, build_play_index, check_review, invalidate,
  leader_by_event, report_review, review_fault, validate_review_references,
}
use kbo_workbench.Contracts.Document.{StagingGameDocumentV2}
use kbo_workbench.Contracts.Event.{EventId, LedgerEventBase, PlateResultEvent, StagingRelayEvent}
use kbo_workbench.Game.Findings.{FindingCode, is_conflict_code}

attach_trailing-IsPlainIndex :
    (d : StagingGameDocumentV2) (e : PlateResultEvent) (i : PlayIndex)
    → IsPlainIndex i
    → IsPlainIndex (attach_trailing d e i)
unfolding attach_trailing
attach_trailing-IsPlainIndex d e i h =
    elim (Bool-cases (contains e.base.identity.event_id i.invalid_play_leader_ids)) [
      | inl bad ↦ rw bad h
      | inr good ↦ rw good h
    ]

attach_trailing_plate_annotations-IsPlainIndex :
    (d : StagingGameDocumentV2) (es : List StagingRelayEvent) (i : PlayIndex)
    → IsPlainIndex i
    → IsPlainIndex (attach_trailing_plate_annotations d es i)
unfolding attach_trailing_plate_annotations
attach_trailing_plate_annotations-IsPlainIndex d [] i h = h
attach_trailing_plate_annotations-IsPlainIndex d (StagingRelayEvent.plate_result e ∷ es) i h =
    attach_trailing_plate_annotations-IsPlainIndex d es (attach_trailing d e i)
      (attach_trailing-IsPlainIndex d e i h)
attach_trailing_plate_annotations-IsPlainIndex d (_ ∷ es) i h =
    attach_trailing_plate_annotations-IsPlainIndex d es i h

review_fault-plain :
    (d : StagingGameDocumentV2) (leaders : Dict EventId) (b : LedgerEventBase)
    (o : Option StagingRelayEvent) {c : FindingCode}
    → review_fault d leaders b o ≡ some c
    → is_conflict_code c ≡ false
unfolding review_fault
review_fault-plain d leaders b none h = ground arith
review_fault-plain d leaders b (some target) h = ground arith

invalidate-IsPlainIndex :
    (o : Option EventId) (i : PlayIndex) → IsPlainIndex i → IsPlainIndex (invalidate o i)
invalidate-IsPlainIndex none i h = h
invalidate-IsPlainIndex (some k) i h = h

report_review-IsPlainIndex :
    (d : StagingGameDocumentV2) (leaders : Dict EventId) (b : LedgerEventBase)
    (o : Option FindingCode) (i : PlayIndex)
    → ((c : FindingCode) → o ≡ some c → is_conflict_code c ≡ false)
    → IsPlainIndex i
    → IsPlainIndex (report_review d leaders b o i)
report_review-IsPlainIndex d leaders b none i plain h = h
report_review-IsPlainIndex d leaders b (some c) i plain h =
    let leader = lookup b.identity.event_id leaders in
    push_index_finding-IsPlainIndex d b c _ (invalidate leader i) (plain c refl)
      (invalidate-IsPlainIndex leader i h)

check_review-IsPlainIndex :
    (d : StagingGameDocumentV2) (by_id : Dict StagingRelayEvent) (leaders : Dict EventId)
    (b : LedgerEventBase) (o : Option EventId) (i : PlayIndex)
    → IsPlainIndex i
    → IsPlainIndex (check_review d by_id leaders b o i)
check_review-IsPlainIndex d by_id leaders b none i h = h
check_review-IsPlainIndex d by_id leaders b (some t) i h =
    report_review-IsPlainIndex d leaders b (review_fault d leaders b (lookup t by_id)) i
      (λ c fault. review_fault-plain d leaders b (lookup t by_id) {c = c} fault) h

validate_review_references-IsPlainIndex :
    (d : StagingGameDocumentV2) (by_id : Dict StagingRelayEvent) (leaders : Dict EventId)
    (es : List StagingRelayEvent) (i : PlayIndex)
    → IsPlainIndex i
    → IsPlainIndex (validate_review_references d by_id leaders es i)
unfolding validate_review_references
validate_review_references-IsPlainIndex d by_id leaders [] i h = h
validate_review_references-IsPlainIndex d by_id leaders (StagingRelayEvent.review e ∷ es) i h =
    validate_review_references-IsPlainIndex d by_id leaders es
      (check_review d by_id leaders e.base e.payload.reviewed_event_id i)
      (check_review-IsPlainIndex d by_id leaders e.base e.payload.reviewed_event_id i h)
validate_review_references-IsPlainIndex d by_id leaders (_ ∷ es) i h =
    validate_review_references-IsPlainIndex d by_id leaders es i h

empty_index-IsPlainIndex : IsPlainIndex empty_index
empty_index-IsPlainIndex k = conflict_free_nil

pub build_play_index-IsPlainIndex : (d : StagingGameDocumentV2) → IsPlainIndex (build_play_index d)
unfolding build_play_index
build_play_index-IsPlainIndex d =
    let by_id = index_events d.events [] in
    let linked = link_events d by_id d.events empty_index in
    let checked = check_linked_plays d by_id linked.linked_by_result linked in
    let sorted : PlayIndex = record checked {
      linked_by_result = sort_linked checked.linked_by_result;
    } in
    let grouped = group_independent none d.events sorted in
    let attached = attach_trailing_plate_annotations d d.events grouped in
    validate_review_references-IsPlainIndex d by_id (leader_by_event d attached) d.events attached (
      attach_trailing_plate_annotations-IsPlainIndex d d.events grouped (
        group_independent-IsPlainIndex none d.events sorted (
          check_linked_plays-IsPlainIndex d by_id linked.linked_by_result linked
            (link_events-IsPlainIndex d by_id d.events empty_index empty_index-IsPlainIndex))))

-- ===== src/Compiler/ConflictFreeIndex.antt =====
-- The findings of the play index report no conflict between tracking candidates.
use kbo_workbench.Prelude.{
  Bool-cases, List, Option, Option-cases, [], arith, false, if◌then◌else◌, inl, inr, leb, none, not,
  refl, some, true, ◌++◌, ◌==◌, ◌∷◌, ◌≡◌,
}
use kbo_workbench.Collections.Dict.{Dict, lookup, lookup-insert}
use kbo_workbench.Compiler.ConflictFree.{conflict_free, conflict_free-push}
use kbo_workbench.Compiler.PlayIndex.{
  OpenPlay, PlayIndex, check_linked_plays, check_target, classify_between, classify_rows,
  close_play, get_list, group_independent, group_step, index_finding, is_member, join_play,
  link_by_context, link_event, link_events, link_to, push_index_finding, push_to, same_play_half,
}
use kbo_workbench.Contracts.Document.{StagingGameDocumentV2}
use kbo_workbench.Contracts.Event.{
  EventId, LedgerEventBase, RunnerAdvanceContext, RunnerAdvanceEvent, StagingRelayEvent, base_of,
  is_non_state,
}
use kbo_workbench.Game.Findings.{FindingCode, is_conflict_code}

abbrev pub IsPlainIndex : PlayIndex → Type 0
IsPlainIndex i = (k : EventId) → conflict_free (get_list k i.finding_by_event) ≡ true

get_list-push_to {ℓ} :
    {V : Type ℓ} (j k : EventId) (v : V) (d : Dict (List V))
    → get_list j (push_to k v d) ≡ (if j == k then get_list k d ++ v ∷ [] else get_list j d)
get_list-push_to j k v d = elim (Bool-cases (j == k)) [
  | inl same ↦ rw (lookup-insert j k (get_list k d ++ v ∷ []) d, same) refl
  | inr other ↦ rw (lookup-insert j k (get_list k d ++ v ∷ []) d, other) refl
]

pub push_index_finding-IsPlainIndex :
    (d : StagingGameDocumentV2) (b : LedgerEventBase) (c : FindingCode) (k : EventId)
    (i : PlayIndex)
    → is_conflict_code c ≡ false
    → IsPlainIndex i
    → IsPlainIndex (push_index_finding k (index_finding d b c) i)
push_index_finding-IsPlainIndex d b c k i plain h j =
    let f = index_finding d b c in
    elim (Bool-cases (j == k)) [
      | inl same ↦
          rw (get_list-push_to j k f i.finding_by_event, same)
            (ground (arith, conflict_free-push (get_list k i.finding_by_event) f, h k))
      | inr other ↦ rw (get_list-push_to j k f i.finding_by_event, other) (h j)
    ]

link_to-IsPlainIndex :
    (d : StagingGameDocumentV2) (e : RunnerAdvanceEvent) (t : EventId)
    (o : Option StagingRelayEvent) (i : PlayIndex)
    → IsPlainIndex i
    → IsPlainIndex (link_to d e t o i)
unfolding link_to
link_to-IsPlainIndex d e t (some (StagingRelayEvent.plate_result r)) i h =
    elim (Bool-cases (leb e.base.sequence r.base.sequence)) [
      | inl early ↦ rw early (push_index_finding-IsPlainIndex d e.base _ _ i refl h)
      | inr late ↦ elim (Bool-cases (not (same_play_half e.base r.base))) [
        | inl apart ↦ rw (late, apart) (push_index_finding-IsPlainIndex d e.base _ _ i refl h)
        | inr same ↦ rw (late, same) h
      ]
    ]
link_to-IsPlainIndex d e t _ i h = push_index_finding-IsPlainIndex d e.base _ _ i refl h

link_by_context-IsPlainIndex :
    (d : StagingGameDocumentV2) (by_id : Dict StagingRelayEvent) (e : RunnerAdvanceEvent)
    (c : RunnerAdvanceContext) (i : PlayIndex)
    → IsPlainIndex i
    → IsPlainIndex (link_by_context d by_id e c i)
link_by_context-IsPlainIndex d by_id e (RunnerAdvanceContext.plate_result t) i h =
    link_to-IsPlainIndex d e t (lookup t by_id) i h
link_by_context-IsPlainIndex d by_id e (RunnerAdvanceContext.independent r) i h = h

link_event-IsPlainIndex :
    (d : StagingGameDocumentV2) (by_id : Dict StagingRelayEvent) (e : StagingRelayEvent)
    (i : PlayIndex)
    → IsPlainIndex i
    → IsPlainIndex (link_event d by_id e i)
unfolding link_event
link_event-IsPlainIndex d by_id (StagingRelayEvent.runner_advance e) i h =
    link_by_context-IsPlainIndex d by_id e e.payload.context i h
link_event-IsPlainIndex d by_id _ i h = h

pub link_events-IsPlainIndex :
    (d : StagingGameDocumentV2) (by_id : Dict StagingRelayEvent) (es : List StagingRelayEvent)
    (i : PlayIndex)
    → IsPlainIndex i
    → IsPlainIndex (link_events d by_id es i)
unfolding link_events
link_events-IsPlainIndex d by_id [] i h = h
link_events-IsPlainIndex d by_id (e ∷ es) i h =
    link_events-IsPlainIndex d by_id es (link_event d by_id e i)
      (link_event-IsPlainIndex d by_id e i h)

classify_between-IsPlainIndex :
    (d : StagingGameDocumentV2) (t : EventId) (e : StagingRelayEvent) (i : PlayIndex)
    → IsPlainIndex i
    → IsPlainIndex (classify_between d t e i)
unfolding classify_between
classify_between-IsPlainIndex d t e i h = elim (Bool-cases (is_non_state e)) [
  | inl note ↦ rw note h
  | inr acts ↦ elim (Bool-cases (is_member t e)) [
    | inl member ↦ rw (acts, member) h
    | inr stranger ↦
        rw (acts, stranger) (push_index_finding-IsPlainIndex d (base_of e) _ _ i refl h)
  ]
]

classify_rows-IsPlainIndex :
    (d : StagingGameDocumentV2) (t : EventId) (es : List StagingRelayEvent) (i : PlayIndex)
    → IsPlainIndex i
    → IsPlainIndex (classify_rows d t es i)
unfolding classify_rows
classify_rows-IsPlainIndex d t [] i h = h
classify_rows-IsPlainIndex d t (e ∷ es) i h =
    classify_rows-IsPlainIndex d t es (classify_between d t e i)
      (classify_between-IsPlainIndex d t e i h)

check_target-IsPlainIndex :
    (d : StagingGameDocumentV2) (t : EventId) (runners : List RunnerAdvanceEvent)
    (o : Option StagingRelayEvent) (i : PlayIndex)
    → IsPlainIndex i
    → IsPlainIndex (check_target d t runners o i)
check_target-IsPlainIndex d t runners none i h = h
check_target-IsPlainIndex d t runners (some target) i h = classify_rows-IsPlainIndex d t _ i h

pub check_linked_plays-IsPlainIndex :
    (d : StagingGameDocumentV2) (by_id : Dict StagingRelayEvent)
    (plays : Dict (List RunnerAdvanceEvent)) (i : PlayIndex)
    → IsPlainIndex i
    → IsPlainIndex (check_linked_plays d by_id plays i)
unfolding check_linked_plays
check_linked_plays-IsPlainIndex d by_id [] i h = h
check_linked_plays-IsPlainIndex d by_id ((t, runners) ∷ plays) i h =
    check_linked_plays-IsPlainIndex d by_id plays (check_target d t runners (lookup t by_id) i)
      (check_target-IsPlainIndex d t runners (lookup t by_id) i h)

close_play-IsPlainIndex :
    (o : Option OpenPlay) (i : PlayIndex) → IsPlainIndex i → IsPlainIndex (close_play o i)
close_play-IsPlainIndex none i h = h
close_play-IsPlainIndex (some p) i h = h

group_step-IsPlainIndex :
    (o : Option OpenPlay) (e : StagingRelayEvent) (i : PlayIndex)
    → IsPlainIndex i
    → IsPlainIndex (group_step o e i).1
unfolding group_step
group_step-IsPlainIndex none e i h = h
group_step-IsPlainIndex (some p) e i h = elim (Option-cases (join_play p e)) [
  | inl apart ↦ rw (apart, group_step) h
  | inr (q, joined) ↦ rw (joined, group_step) h
]

pub group_independent-IsPlainIndex :
    (o : Option OpenPlay) (es : List StagingRelayEvent) (i : PlayIndex)
    → IsPlainIndex i
    → IsPlainIndex (group_independent o es i)
unfolding group_independent
group_independent-IsPlainIndex o [] i h = close_play-IsPlainIndex o i h
group_independent-IsPlainIndex o (e ∷ es) i h =
    group_independent-IsPlainIndex (group_step o e i).0 es (group_step o e i).1
      (group_step-IsPlainIndex o e i h)

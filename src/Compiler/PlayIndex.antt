-- ===== src/Compiler/PlayIndex.antt =====
-- packages/game-core/src/compiler/play-index.ts: which rows of the ledger belong to one play. The
-- maps are filled in the order of the source, without computing any state.
use kbo_workbench.Prelude.{
  Bool, List, Option, [], add_new, drop, false, if◌then◌else◌, leb, map, max, none, not, or_else,
  some, take, true, ℕ, ◌&&◌, ◌++◌, ◌+◌, ◌-◌, ◌==◌, ◌∷◌,
}
use kbo_workbench.Collections.Dict.{Dict, insert, lookup}
use kbo_workbench.Collections.Sort.{sort_by}
use kbo_workbench.Contracts.Document.{StagingGameDocumentV2}
use kbo_workbench.Contracts.Event.{
  EventId, LedgerEventBase, RunnerAdvanceContext, RunnerAdvanceEvent, StagingRelayEvent, base_of,
  event_id_of, is_non_state, same_half,
}
use kbo_workbench.Game.Findings.{Finding, FindingCategory, FindingCode, FindingSeverity}

pub record PlayIndex : Type 0 where
  pub linked_by_result : Dict (List RunnerAdvanceEvent)
  pub non_state_by_result : Dict (List StagingRelayEvent)
  pub independent_by_leader : Dict (List RunnerAdvanceEvent)
  pub non_state_by_independent_leader : Dict (List StagingRelayEvent)
  pub invalid_play_leader_ids : List EventId
  pub finding_by_event : Dict (List Finding)

abbrev pub empty_index : PlayIndex
empty_index = record {
  linked_by_result = [];
  non_state_by_result = [];
  independent_by_leader = [];
  non_state_by_independent_leader = [];
  invalid_play_leader_ids = [];
  finding_by_event = [];
}

-- `const list = map.get(k) ?? []; list.push(v); map.set(k, list)`
abbrev pub push_to {ℓ} : {V : Type ℓ} → EventId → V → Dict (List V) → Dict (List V)
push_to k v d = insert k (or_else (lookup k d) [] ++ v ∷ []) d

-- `map.get(k) ?? []`
abbrev pub get_list {ℓ} : {V : Type ℓ} → EventId → Dict (List V) → List V
get_list k d = or_else (lookup k d) []

-- `new Map(document.events.map((event) => [event.identity.eventId, event]))`
abbrev pub index_events : List StagingRelayEvent → Dict StagingRelayEvent → Dict StagingRelayEvent
index_events [] d = d
index_events (e ∷ es) d = index_events es (insert (event_id_of e) e d)

abbrev pub index_finding : StagingGameDocumentV2 → LedgerEventBase → FindingCode → Finding
index_finding document event c = record {
  code = c;
  category = FindingCategory.source;
  severity = FindingSeverity.blocking;
  game_id = document.metadata.game_id;
  event_id = some event.identity.event_id;
  event_sequence = some event.sequence;
  record_identity = none;
  details = [];
}

abbrev pub push_index_finding : EventId → Finding → PlayIndex → PlayIndex
push_index_finding k f i = record i { finding_by_event = push_to k f i.finding_by_event }

abbrev pub mark_invalid : EventId → PlayIndex → PlayIndex
mark_invalid k i = record i { invalid_play_leader_ids = add_new k i.invalid_play_leader_ids }

abbrev pub same_play_half : LedgerEventBase → LedgerEventBase → Bool
same_play_half a b = a.inning == b.inning && same_half a.half b.half

-- The checks of one linked row against the result row that it names.
unfoldable pub link_to :
    StagingGameDocumentV2
    → RunnerAdvanceEvent
    → EventId
    → Option StagingRelayEvent
    → PlayIndex
    → PlayIndex
link_to document e target_id (some (StagingRelayEvent.plate_result t)) i =
    if leb e.base.sequence t.base.sequence
    then push_index_finding e.base.identity.event_id
        (index_finding document e.base FindingCode.runner_advance_before_result)
        (mark_invalid target_id i)
    else if not (same_play_half e.base t.base)
    then push_index_finding target_id
        (index_finding document e.base FindingCode.linked_play_half_mismatch)
        (mark_invalid target_id i)
    else record i { linked_by_result = push_to target_id e i.linked_by_result }
link_to document e target_id _ i =
    push_index_finding e.base.identity.event_id
      (index_finding document e.base FindingCode.dangling_plate_result_link) i

abbrev pub link_by_context :
    StagingGameDocumentV2
    → Dict StagingRelayEvent
    → RunnerAdvanceEvent
    → RunnerAdvanceContext
    → PlayIndex
    → PlayIndex
link_by_context document by_id e (RunnerAdvanceContext.plate_result t) i =
    link_to document e t (lookup t by_id) i
link_by_context document by_id e (RunnerAdvanceContext.independent r) i = i

unfoldable pub link_event :
    StagingGameDocumentV2 → Dict StagingRelayEvent → StagingRelayEvent → PlayIndex → PlayIndex
unfolding link_to
link_event document by_id (StagingRelayEvent.runner_advance e) i =
    link_by_context document by_id e e.payload.context i
link_event document by_id _ i = i

-- The first loop of `buildPlayIndex`.
unfoldable pub link_events :
    StagingGameDocumentV2 → Dict StagingRelayEvent → List StagingRelayEvent → PlayIndex → PlayIndex
unfolding link_event
link_events document by_id [] i = i
link_events document by_id (e ∷ es) i =
    link_events document by_id es (link_event document by_id e i)

abbrev links_to : EventId → RunnerAdvanceContext → Bool
links_to t (RunnerAdvanceContext.plate_result s) = s == t
links_to t (RunnerAdvanceContext.independent r) = false

-- The row is a member of the linked play itself.
abbrev pub is_member : EventId → StagingRelayEvent → Bool
is_member t (StagingRelayEvent.runner_advance e) = links_to t e.payload.context
is_member t _ = false

-- One row between a result and its last linked row.
unfoldable pub classify_between :
    StagingGameDocumentV2 → EventId → StagingRelayEvent → PlayIndex → PlayIndex
classify_between document t e i =
    if is_non_state e
    then record i { non_state_by_result = push_to t e i.non_state_by_result }
    else if is_member t e
    then i
    else push_index_finding (event_id_of e)
        (index_finding document (base_of e) FindingCode.state_event_inside_linked_play)
        (mark_invalid t i)

unfoldable pub classify_rows :
    StagingGameDocumentV2 → EventId → List StagingRelayEvent → PlayIndex → PlayIndex
unfolding classify_between
classify_rows document t [] i = i
classify_rows document t (e ∷ es) i = classify_rows document t es (classify_between document t e i)

-- `Math.max(...runners.map((event) => event.sequence))`
abbrev max_sequence : List RunnerAdvanceEvent → ℕ
max_sequence [] = 0
max_sequence (e ∷ es) = max e.base.sequence (max_sequence es)

-- `document.events[sequence]` for each sequence above `from` up to `to`, where a missing row is
-- skipped.
abbrev rows_between : List StagingRelayEvent → ℕ → ℕ → List StagingRelayEvent
rows_between events from to = take (to - from) (drop (from + 1) events)

abbrev pub check_target :
    StagingGameDocumentV2
    → EventId
    → List RunnerAdvanceEvent
    → Option StagingRelayEvent
    → PlayIndex
    → PlayIndex
check_target document t runners none i = i
check_target document t runners (some target) i =
    classify_rows document t
      (rows_between document.events (base_of target).sequence (max_sequence runners)) i

-- The second loop, over the linked plays.
unfoldable pub check_linked_plays :
    StagingGameDocumentV2
    → Dict StagingRelayEvent
    → Dict (List RunnerAdvanceEvent)
    → PlayIndex
    → PlayIndex
unfolding classify_rows
check_linked_plays document by_id [] i = i
check_linked_plays document by_id ((t, runners) ∷ d) i =
    check_linked_plays document by_id d (check_target document t runners (lookup t by_id) i)

-- `list.sort(...)` on every value of the map.
abbrev pub sort_linked : Dict (List RunnerAdvanceEvent) → Dict (List RunnerAdvanceEvent)
sort_linked d = map (λ e. (e.0, sort_by (λ a b. leb a.base.sequence b.base.sequence) e.1)) d

-- A play of independent runners that is still open: its leader, its rows and its annotations.
pub record OpenPlay : Type 0 where
  pub leader : RunnerAdvanceEvent
  pub group : List RunnerAdvanceEvent
  pub annotations : List StagingRelayEvent

abbrev pub is_independent : RunnerAdvanceContext → Bool
is_independent (RunnerAdvanceContext.plate_result t) = false
is_independent (RunnerAdvanceContext.independent r) = true

abbrev set_annotations :
    EventId → List StagingRelayEvent → Dict (List StagingRelayEvent) → Dict (List StagingRelayEvent)
set_annotations k [] d = d
set_annotations k (e ∷ es) d = insert k (e ∷ es) d

abbrev pub close_play : Option OpenPlay → PlayIndex → PlayIndex
close_play none i = i
close_play (some p) i = record i {
  independent_by_leader = insert p.leader.base.identity.event_id p.group i.independent_by_leader;
  non_state_by_independent_leader =
      set_annotations p.leader.base.identity.event_id p.annotations
        i.non_state_by_independent_leader;
}

-- The row starts a play of its own, or none.
abbrev open_play : StagingRelayEvent → Option OpenPlay
open_play (StagingRelayEvent.runner_advance e) =
    if is_independent e.payload.context
    then some (record { leader = e; group = e ∷ []; annotations = [] })
    else none
open_play _ = none

-- The row joins the open play: the two tests of the inner `while` loop.
abbrev pub join_play : OpenPlay → StagingRelayEvent → Option OpenPlay
join_play p (StagingRelayEvent.runner_advance e) =
    if is_independent e.payload.context && same_play_half e.base p.leader.base
    then some (record p { group = p.group ++ e ∷ [] })
    else none
join_play p e =
    if is_non_state e && same_play_half (base_of e) p.leader.base
    then some (record p { annotations = p.annotations ++ e ∷ [] })
    else none

-- The third loop. The inner loop consumes rows while they join; the row that does not join closes
-- the play and may open the next one.
unfoldable pub group_step :
    Option OpenPlay → StagingRelayEvent → PlayIndex → Option OpenPlay × PlayIndex
group_step none e i = (open_play e, i)
group_step (some p) e i = elim (join_play p e) [
  | none ↦ (open_play e, close_play (some p) i)
  | some q ↦ (some q, i)
]

unfoldable pub group_independent : Option OpenPlay → List StagingRelayEvent → PlayIndex → PlayIndex
unfolding group_step
group_independent o [] i = close_play o i
group_independent o (e ∷ es) i = let (o', i') = group_step o e i in group_independent o' es i'

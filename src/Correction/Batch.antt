-- ===== src/Correction/Batch.antt =====
-- The batch and the final numbering, and an added row that is deleted again.
use mathlib.Core.Path.{subst}
use kbo_workbench.Prelude.{
  All, Bool, List, Option, String, [], any, arith, false, get_elem?, length, none, refl, some, suc,
  sym, zero, ℕ, ◌+◌, ◌∙◌, ◌∷◌, ◌≡◌, ◌≤◌,
}
use kbo_workbench.Contracts.Canonical.{IsSequencedFrom}
use kbo_workbench.Contracts.Document.{StagingGameDocumentV2}
use kbo_workbench.Contracts.Event.{EventId, StagingRelayEvent, event_id_of}
use kbo_workbench.Contracts.Tracking.{TrackingCandidate}
use kbo_workbench.Correction.Commands.{
  AtomicCorrectionCommand, apply_atomic, apply_batch, delete_row, deletion_note, exclude_if,
  is_pitch, number_candidates, resequence,
}
use kbo_workbench.Correction.Contexts.{
  follow_stable_tracking_plate_appearance_contexts, followed_context,
}
use kbo_workbench.Correction.Links.{IsWellFormed, LinkHolds, with_events-IsWellFormed}
use kbo_workbench.Correction.Preserve.{apply_atomic-IsWellFormed}
use kbo_workbench.Correction.Resolutions.{set_contexts-IsWellFormed}
use kbo_workbench.Correction.RowLaws.{
  insert_at-length, remove_at-insert_at, required_index-le, set_sequence-sequence,
  set_sequence-twice,
}
use kbo_workbench.Correction.Rows.{
  corrected_chain, draft, draft-injective, index_of, insert_at, insert_row, is_row, number_rows,
  place_row, remove_at, required_index, required_row, set_sequence, with_events,
}
use kbo_workbench.Correction.Tracking.{exclude_tracking_for_pitch}
use kbo_workbench.Facts.Document.{pitch_facts_of}
use kbo_workbench.Validation.Linked.{tracking_index}

pub apply_batch-IsWellFormed :
    (d : StagingGameDocumentV2) (cs : List AtomicCorrectionCommand) {n : StagingGameDocumentV2}
    → IsWellFormed d
    → apply_batch d cs ≡ draft n
    → IsWellFormed n
unfolding apply_batch
apply_batch-IsWellFormed d [] w h = subst IsWellFormed (draft-injective h) w
apply_batch-IsWellFormed d (c ∷ cs) {n} w h =
    let (m, applied, rest) = corrected_chain (apply_atomic d c) (λ next. apply_batch next cs) h in
    apply_batch-IsWellFormed m cs {n = n} (apply_atomic-IsWellFormed d c {n = m} w applied) rest

pub number_rows-IsSequenced :
    (i : ℕ) (es : List StagingRelayEvent) → IsSequencedFrom i (number_rows i es)
unfolding number_rows
number_rows-IsSequenced i [] = tt
number_rows-IsSequenced i (e ∷ es) = (set_sequence-sequence i e, number_rows-IsSequenced (suc i) es)

number_candidates-All :
    (es : List StagingRelayEvent) (i : ℕ) (cs : List TrackingCandidate)
    → All (LinkHolds es) cs
    → All (LinkHolds es) (number_candidates i cs)
number_candidates-All es i [] h = tt
number_candidates-All es i (c ∷ cs) h = (h.0, number_candidates-All es (suc i) cs h.1)

pub resequence-IsWellFormed :
    (m : StagingGameDocumentV2)
    → IsWellFormed m
    → IsWellFormed (resequence m) × IsSequencedFrom 0 (resequence m).events
unfolding resequence with_events
resequence-IsWellFormed m w =
    let numbered =
      with_events-IsWellFormed m m.events false 0 deletion_note w.distinct (λ k other. omega arith)
        w in
    (
      record {
        distinct = numbered.distinct;
        links =
            number_candidates-All (number_rows 0 m.events) 0 m.tracking_candidates numbered.links;
      },
      number_rows-IsSequenced 0 m.events,
    )

pub follow-IsWellFormed :
    (before after : StagingGameDocumentV2)
    → IsWellFormed after
    → IsWellFormed (follow_stable_tracking_plate_appearance_contexts before after)
unfolding follow_stable_tracking_plate_appearance_contexts
follow-IsWellFormed before after w =
    set_contexts-IsWellFormed after
      (followed_context (tracking_index before (pitch_facts_of before))
        (tracking_index after (pitch_facts_of after)))
      w

number_rows-number_rows :
    (i j : ℕ) (es : List StagingRelayEvent) → number_rows i (number_rows j es) ≡ number_rows i es
unfolding number_rows
number_rows-number_rows i j [] = refl
number_rows-number_rows i j (e ∷ es) =
    rw (set_sequence-twice i j e, number_rows-number_rows (suc i) (suc j) es) refl

number_rows-remove_at :
    (i j k : ℕ) (es : List StagingRelayEvent)
    → number_rows i (remove_at k (number_rows j es)) ≡ number_rows i (remove_at k es)
unfolding number_rows
number_rows-remove_at i j k [] = refl
number_rows-remove_at i j zero (e ∷ es) = number_rows-number_rows i (suc j) es
number_rows-remove_at i j (suc k) (e ∷ es) =
    rw (set_sequence-twice i j e, number_rows-remove_at (suc i) (suc j) k es) refl

-- The row that was put at `i` is the one that its identifier finds.
index_of-insert_at :
    (j k i : ℕ) (e : StagingRelayEvent) (es : List StagingRelayEvent)
    → any (is_row (event_id_of e)) es ≡ false
    → i ≤ length es
    → index_of j (event_id_of e) (number_rows k (insert_at i e es)) ≡ some (j + i)
unfolding index_of number_rows
index_of-insert_at j k zero e es fresh le = ground arith
index_of-insert_at j k (suc i) e [] fresh le = ground arith
index_of-insert_at j k (suc i) e (f ∷ es) fresh le =
    ground (arith, index_of-insert_at (suc j) (suc k) i e es)

get_elem?-insert_at :
    (k i : ℕ) (e : StagingRelayEvent) (es : List StagingRelayEvent)
    → i ≤ length es
    → get_elem? (number_rows k (insert_at i e es)) i ≡ some (set_sequence (k + i) e)
unfolding number_rows
get_elem?-insert_at k zero e es le = ground arith
get_elem?-insert_at k (suc i) e [] le = ground arith
get_elem?-insert_at k (suc i) e (f ∷ es) le =
    get_elem?-insert_at (suc k) i e es (omega arith) ∙ ground arith

place_row-insert_at :
    (es : List StagingRelayEvent) (e : StagingRelayEvent) (before : Option EventId)
    {fs : List StagingRelayEvent}
    → place_row es e before ≡ draft fs
    → (i : ℕ) × (i ≤ length es) × (fs ≡ insert_at i e es)
unfolding place_row
place_row-insert_at es e none h =
    (length es, omega arith, sym (draft-injective h) ∙ insert_at-length e es)
place_row-insert_at es e (some before) h =
    let (i, found, placed) =
      corrected_chain (required_index es before) (λ i. draft (insert_at i e es)) h in
    (i, required_index-le es before found, ground arith)

required_row-added :
    (i : ℕ) (e : StagingRelayEvent) (es : List StagingRelayEvent)
    → any (is_row (event_id_of e)) es ≡ false
    → i ≤ length es
    → required_row (number_rows 0 (insert_at i e es)) (event_id_of e) ≡ draft (i, set_sequence i e)
unfolding required_row required_index
required_row-added i e es fresh le =
    ground (arith, index_of-insert_at 0 0 i e es fresh le, get_elem?-insert_at 0 i e es le)

exclude_if-events :
    (gone : Bool) (id : EventId) (note : String) (d : StagingGameDocumentV2)
    → (exclude_if gone id note d).events ≡ d.events
unfolding exclude_tracking_for_pitch
exclude_if-events gone id note d = ground arith

delete_row-added :
    (n : StagingGameDocumentV2) (i : ℕ) (e : StagingRelayEvent) (es : List StagingRelayEvent)
    → any (is_row (event_id_of e)) es ≡ false
    → i ≤ length es
    → n.events ≡ number_rows 0 (insert_at i e es)
    → (m : StagingGameDocumentV2) × (delete_row n (event_id_of e) ≡ draft m)
      × (m.events ≡ number_rows 0 es)
unfolding delete_row with_events
delete_row-added n i e es fresh le at =
    let f = set_sequence i e in
    let removed = with_events n (remove_at i n.events) in
    (
      exclude_if (is_pitch f) (event_id_of e) deletion_note removed,
      rw (at, required_row-added i e es fresh le) refl,
      rw
          (
            exclude_if-events (is_pitch f) (event_id_of e) deletion_note removed,
            at,
            number_rows-remove_at 0 0 i (insert_at i e es),
            remove_at-insert_at i e es le,
          )
          refl,
    )

-- An added row that is deleted again leaves the rows as they were, numbered by their places.
pub add_event-delete_event :
    (d : StagingGameDocumentV2) (e : StagingRelayEvent) (before : Option EventId)
    {n : StagingGameDocumentV2}
    → apply_atomic d (AtomicCorrectionCommand.add_event e before) ≡ draft n
    → (m : StagingGameDocumentV2) × (apply_atomic n
          (AtomicCorrectionCommand.delete_event (event_id_of e))
        ≡ draft m)
      × (m.events ≡ (with_events d d.events).events)
unfolding apply_atomic insert_row with_events
add_event-delete_event d e before {n} h =
    let (es, inserted, made) =
      corrected_chain (insert_row d.events e before) (λ es. draft (with_events d es)) h in
    let placed : place_row d.events e before ≡ draft es = ground arith in
    let fresh : any (is_row (event_id_of e)) d.events ≡ false = ground arith in
    let (i, le, shape) = place_row-insert_at d.events e before {fs = es} placed in
    delete_row-added n i e d.events fresh le (rw (sym (draft-injective made)) (rw shape refl))

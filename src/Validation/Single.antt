-- ===== src/Validation/Single.antt =====
-- No pitch has more than one candidate, and the tracking checks as a whole.
use kbo_workbench.Prelude.{
  All, Bool, Bool-cases, List, [], arith, count, false, if◌then◌else◌, inl, inr, length,
  length-append, ltb, some, true, ℕ, ◌++◌, ◌+◌, ◌==◌, ◌∙◌, ◌∷◌, ◌≡◌, ◌≤◌,
}
use kbo_workbench.Collections.Dict.{Dict, lookup-insert}
use kbo_workbench.Compiler.Context.{CompileContext, detail}
use kbo_workbench.Compiler.PlayIndex.{get_list, push_to}
use kbo_workbench.Contracts.Document.{StagingGameDocumentV2}
use kbo_workbench.Contracts.Event.{EventId}
use kbo_workbench.Contracts.Tracking.{TrackingCandidate, TrackingResolution, is_linked_to}
use kbo_workbench.Facts.Pitch.{CompiledPitchFact}
use kbo_workbench.Game.Findings.{DetailField, DetailValue, FindingCode}
use kbo_workbench.Validation.Adds.{
  Adds, Adds-add_reused_source_pitch_id_warnings, Adds-check_candidates, Adds-check_multiple,
  Adds-if, Adds-refl, Adds-report_conflicts, Adds-report_missing, Adds-report_multiple, Adds-trans,
  has_no_conflict, is_blocked, tracking_finding-blocks,
}
use kbo_workbench.Validation.Linked.{
  TrackingIndex, apply_if, check_candidates, check_multiple, linked_by_pitch, note_link,
  report_missing, report_multiple, tracking_index, validate_tracking,
}
use kbo_workbench.Validation.Settled.{IsSettled, check_candidates-Settled}
use kbo_workbench.Validation.Tracking.{
  add_reused_source_pitch_id_warnings, conflicting_tracking_groups, report_conflicts,
}

abbrev pub links_to : EventId → TrackingCandidate → Bool
links_to k c = is_linked_to k c.resolution

get_list-push_to {ℓ} :
    {V : Type ℓ} (j k : EventId) (v : V) (d : Dict (List V))
    → length (get_list j (push_to k v d)) ≡ length (get_list j d) + (if j == k then 1 else 0)
get_list-push_to j k v d = elim (Bool-cases (j == k)) [
  | inl same ↦
      let equal : j ≡ k = ground arith in
      rw (lookup-insert j k (get_list k d ++ v ∷ []) d, same)
        (rw equal (length-append (get_list k d) (v ∷ [])))
  | inr other ↦ rw (lookup-insert j k (get_list k d ++ v ∷ []) d, other) (omega arith)
]

note_link-length :
    (index : TrackingIndex) (k : EventId) (x : TrackingCandidate) (r : TrackingResolution)
    (d : Dict (List TrackingCandidate))
    → IsSettled index x r
    → length (get_list k (note_link index.rows x r d))
      ≡ length (get_list k d) + (if is_linked_to k r then 1 else 0)
note_link-length index k x (TrackingResolution.linked j) d s =
    rw s.2 (get_list-push_to k j x d ∙ ground arith)
note_link-length index k x TrackingResolution.pending d s = omega arith
note_link-length index k x (TrackingResolution.duplicate i) d s = omega arith
note_link-length index k x (TrackingResolution.excluded r reason) d s = omega arith

linked_by_pitch-length :
    (index : TrackingIndex) (k : EventId) (xs : List TrackingCandidate)
    (d : Dict (List TrackingCandidate))
    → All (λ x. IsSettled index x x.resolution) xs
    → length (get_list k (linked_by_pitch index.rows xs d))
      ≡ length (get_list k d) + count (links_to k) xs
unfolding linked_by_pitch
linked_by_pitch-length index k [] d s = omega arith
linked_by_pitch-length index k (x ∷ xs) d s = ground (
  arith,
  linked_by_pitch-length index k xs (note_link index.rows x x.resolution d) s.1,
  note_link-length index k x x.resolution d s.0,
)

report_multiple-blocks :
    (k : EventId) (n : ℕ) (xs : List TrackingCandidate) (c : CompileContext)
    → ltb 1 (length xs) ≡ true
    → is_blocked (report_multiple k n xs c) ≡ false
    → ⊥
report_multiple-blocks k n [] c many h = ground arith
report_multiple-blocks k n (x ∷ xs) c many h =
    let details =
      detail DetailField.linked_count (DetailValue.number 1) (DetailValue.number n) ∷ [] in
    let blocked =
      tracking_finding-blocks x FindingCode.tracking_multiple_canonical details (some k) c in
    let before = (Adds-report_multiple k n xs _).unblocked h in cc

few_linked :
    (k : EventId) (xs : List TrackingCandidate) (c : CompileContext)
    → is_blocked (apply_if (ltb 1 (length xs)) (report_multiple k (length xs) xs) c) ≡ false
    → length xs ≤ 1
unfolding apply_if
few_linked k xs c h = elim (Bool-cases (ltb 1 (length xs))) [
  | inl many ↦ elim (report_multiple-blocks k (length xs) xs c many (rw many at h)) [ ]
  | inr few ↦ ground arith
]

check_multiple-single :
    (k : EventId) (d : Dict (List TrackingCandidate)) (c : CompileContext)
    → is_blocked (check_multiple d c) ≡ false
    → length (get_list k d) ≤ 1
unfolding check_multiple
check_multiple-single k [] c h = omega arith
check_multiple-single k ((j, xs) ∷ d) c h =
    let checked = apply_if (ltb 1 (length xs)) (report_multiple j (length xs) xs) c in
    let few = few_linked j xs c ((Adds-check_multiple d checked).unblocked h) in
    ground (arith, check_multiple-single k d checked h)

pub Adds-validate_tracking :
    (d : StagingGameDocumentV2) (facts : List CompiledPitchFact) (c : CompileContext)
    → Adds c (validate_tracking d facts c)
unfolding validate_tracking
Adds-validate_tracking d facts c =
    let index = tracking_index d facts in
    let linked = linked_by_pitch index.rows d.tracking_candidates [] in
    let groups = conflicting_tracking_groups d.tracking_candidates in
    let reused = add_reused_source_pitch_id_warnings d c in
    let reported = report_conflicts groups reused in
    let checked = check_candidates index d.tracking_candidates reported in
    Adds-trans (Adds-add_reused_source_pitch_id_warnings d c) (
      Adds-trans (Adds-report_conflicts groups reused) (
        Adds-trans (Adds-check_candidates index d.tracking_candidates reported) (
          Adds-if (ltb 0 (length d.tracking_candidates)) (report_missing linked d.events)
            (λ e. Adds-report_missing linked d.events e) (Adds-check_multiple linked checked))))

-- When the tracking checks leave nothing that blocks, in a context to which no conflict had been
-- reported, every candidate is settled: none is pending; a linked one names a pitch row and a
-- fact of an actual pitch, in the same half inning and with no other players or plate
-- appearance; a duplicate names a linked candidate with the same fingerprint. And no row has two
-- candidates linked to it.
pub validate_tracking-IsSettled :
    (d : StagingGameDocumentV2) (facts : List CompiledPitchFact) (c : CompileContext)
    → has_no_conflict c ≡ true
    → is_blocked (validate_tracking d facts c) ≡ false
    → All (λ x. IsSettled (tracking_index d facts) x x.resolution) d.tracking_candidates
      × ((k : EventId) → count (links_to k) d.tracking_candidates ≤ 1)
unfolding validate_tracking
validate_tracking-IsSettled d facts c calm h =
    let index = tracking_index d facts in
    let linked = linked_by_pitch index.rows d.tracking_candidates [] in
    let groups = conflicting_tracking_groups d.tracking_candidates in
    let reused = add_reused_source_pitch_id_warnings d c in
    let reported = report_conflicts groups reused in
    let checked = check_candidates index d.tracking_candidates reported in
    let single = check_multiple linked checked in
    let last =
      (Adds-if (ltb 0 (length d.tracking_candidates)) (report_missing linked d.events)
          (λ e. Adds-report_missing linked d.events e) (Adds-refl single)).unblocked
        h in
    let settling = (Adds-check_multiple linked checked).unblocked last in
    let starting =
      (Adds-check_candidates index d.tracking_candidates reported).unblocked settling in
    let first =
      Adds-trans (Adds-add_reused_source_pitch_id_warnings d c)
        (Adds-report_conflicts groups reused) in
    let settled =
      check_candidates-Settled index d.tracking_candidates reported (first.conflicts starting calm)
        settling in
    (
      settled,
      λ k. omega (
        arith,
        check_multiple-single k linked checked last,
        linked_by_pitch-length index k d.tracking_candidates [] settled,
      ),
    )

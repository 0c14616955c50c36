-- ===== src/Correction/Resolutions.antt =====
-- A change of the resolutions or of the contexts of tracking candidates keeps a document well formed.
use mathlib.Core.Path.{subst}
use kbo_workbench.Prelude.{
  Bool-cases, List, Option, [], any, arith, count, false, find, inl, inr, is_some, map, none, some,
  true, ℕ, ◌∷◌, ◌≡◌, ◌≤◌,
}
use kbo_workbench.Contracts.Document.{StagingGameDocumentV2}
use kbo_workbench.Contracts.Event.{EventId, StagingRelayEvent}
use kbo_workbench.Contracts.Tracking.{TrackingCandidate, TrackingResolution}
use kbo_workbench.Correction.Contexts.{
  reconcile_tracking_contexts, repair_contexts, repaired_context, set_context,
}
use kbo_workbench.Correction.Links.{All-map, IsWellFormed, LinkHolds, ResolutionHolds, names_pitch}
use kbo_workbench.Correction.Rows.{
  CorrectionError, corrected_chain, draft, draft-injective, is_row, parse_document, thrown,
}
use kbo_workbench.Correction.Tracking.{
  bad_link, is_candidate, is_pitch_row, required_tracking_candidate, resolve,
  update_tracking_resolution,
}
use kbo_workbench.Facts.Document.{pitch_facts_of}
use kbo_workbench.Validation.Linked.{TrackingIndex, tracking_index}

find-names_pitch :
    (k : EventId) (es : List StagingRelayEvent)
    → is_pitch_row (find (is_row k) es) ≡ true
    → 1 ≤ count (names_pitch k) es
find-names_pitch k [] h = cc
find-names_pitch k (e ∷ es) h = ground (arith, find-names_pitch k es)

good_link :
    (es : List StagingRelayEvent) (r : TrackingResolution)
    → bad_link es r ≡ false
    → ResolutionHolds es r
good_link es (TrackingResolution.linked k) h = find-names_pitch k es (ground arith)
good_link es TrackingResolution.pending h = tt
good_link es (TrackingResolution.duplicate i) h = tt
good_link es (TrackingResolution.excluded r reason) h = tt

resolve-LinkHolds :
    (es : List StagingRelayEvent) (t : ℕ) (r : TrackingResolution) (c : TrackingCandidate)
    → ResolutionHolds es r
    → LinkHolds es c
    → LinkHolds es (resolve t r c)
resolve-LinkHolds es t r c new old = elim (Bool-cases (is_candidate t c)) [
  | inl chosen ↦ rw chosen new
  | inr other ↦ rw other old
]

pub update_tracking_resolution-IsWellFormed :
    (d : StagingGameDocumentV2) (t : ℕ) (r : TrackingResolution) {n : StagingGameDocumentV2}
    → IsWellFormed d
    → update_tracking_resolution d t r ≡ draft n
    → IsWellFormed n
unfolding update_tracking_resolution required_tracking_candidate
update_tracking_resolution-IsWellFormed d t r {n} w h =
    let good : bad_link d.events r ≡ false = ground arith in
    let cs = map (resolve t r) d.tracking_candidates in
    let equal : record d { tracking_candidates = cs } ≡ n = ground arith in
    subst IsWellFormed equal (record {
      distinct = w.distinct;
      links =
          All-map (LinkHolds d.events) (LinkHolds d.events) (resolve t r) d.tracking_candidates
            (λ c. resolve-LinkHolds d.events t r c (good_link d.events r good)) w.links;
    })

set_context-LinkHolds :
    (es : List StagingRelayEvent) (o : Option EventId) (c : TrackingCandidate)
    → LinkHolds es c
    → LinkHolds es (set_context o c)
set_context-LinkHolds es none c h = h
set_context-LinkHolds es (some a) c h = h

pub set_contexts-IsWellFormed :
    (d : StagingGameDocumentV2) (f : TrackingCandidate → Option EventId)
    → IsWellFormed d
    → IsWellFormed
        (record d { tracking_candidates = map (λ c. set_context (f c) c) d.tracking_candidates })
set_contexts-IsWellFormed d f w = record {
  distinct = w.distinct;
  links =
      All-map (LinkHolds d.events) (LinkHolds d.events) (λ c. set_context (f c) c)
        d.tracking_candidates (λ c. set_context-LinkHolds d.events (f c) c) w.links;
}

repair_contexts-IsWellFormed :
    (d : StagingGameDocumentV2) (index : TrackingIndex) {n : StagingGameDocumentV2}
    → IsWellFormed d
    → repair_contexts d index ≡ draft n
    → IsWellFormed n
unfolding repair_contexts
repair_contexts-IsWellFormed d index {n} w h =
    let f = repaired_context d index in
    let changed : StagingGameDocumentV2 = record d {
      tracking_candidates = map (λ c. set_context (f c) c) d.tracking_candidates;
    } in
    elim (Bool-cases (any (λ c. is_some (f c)) d.tracking_candidates)) [
      | inl repaired ↦
          let made : draft changed ≡ draft n = rw repaired at h in
          subst IsWellFormed (draft-injective made) (set_contexts-IsWellFormed d f w)
      | inr nothing ↦
          let failed : thrown CorrectionError.nothing_to_reconcile ≡ draft n = rw nothing at h in cc
    ]

pub reconcile_tracking_contexts-IsWellFormed :
    (d : StagingGameDocumentV2) {n : StagingGameDocumentV2}
    → IsWellFormed d
    → reconcile_tracking_contexts d ≡ draft n
    → IsWellFormed n
unfolding reconcile_tracking_contexts
reconcile_tracking_contexts-IsWellFormed d {n} w h =
    let (decoded, parsed, rest) =
      corrected_chain (parse_document d)
        (λ decoded. repair_contexts d (tracking_index d (pitch_facts_of decoded))) h in
    repair_contexts-IsWellFormed d (tracking_index d (pitch_facts_of decoded)) {n = n} w rest

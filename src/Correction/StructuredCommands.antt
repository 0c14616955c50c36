-- ===== src/Correction/StructuredCommands.antt =====
-- Every command of packages/correction/src/commands.ts keeps the structure of a document.
use mathlib.Core.Path.{subst}
use kbo_workbench.Prelude.{
  Bool, Bool-cases, List, Option, Option-cases, String, [], any, arith, false, find, inl, inr,
  is_some, map, some, true, ℕ, ◌||◌, ◌∷◌, ◌≡◌, ◌≤◌,
}
use kbo_workbench.Collections.Distinct.{occurrences}
use kbo_workbench.Contracts.Canonical.{DuplicateHolds, tracking_ids}
use kbo_workbench.Contracts.Document.{StagingGameDocumentV2}
use kbo_workbench.Contracts.Event.{EventId, StagingRelayEvent}
use kbo_workbench.Contracts.Tracking.{TrackingCandidate, TrackingResolution, is_linked_to}
use kbo_workbench.Correction.Commands.{exclude_if}
use kbo_workbench.Correction.Contexts.{
  reconcile_tracking_contexts, repair_contexts, repaired_context, set_context,
}
use kbo_workbench.Correction.Rows.{
  CorrectionError, corrected_chain, draft, draft-injective, parse_document, thrown, with_events,
}
use kbo_workbench.Correction.Structure.{CandidatesHold-map, IsStructured, KeepsId}
use kbo_workbench.Correction.Tracking.{
  bad_link, directly_linked, exclude, exclude_tracking_for_pitch, is_candidate, is_duplicate_of,
  required_tracking_candidate, resolve, update_tracking_resolution,
}
use kbo_workbench.Facts.Document.{pitch_facts_of}
use kbo_workbench.Validation.Linked.{TrackingIndex, tracking_index}

DuplicateHolds-exclude :
    (e : EventId) (gone : List ℕ) (note : String) (ids : List ℕ) (c : TrackingCandidate)
    → DuplicateHolds ids c.tracking_id c.resolution
    → DuplicateHolds ids c.tracking_id (exclude e gone note c).resolution
DuplicateHolds-exclude e gone note ids c h =
    elim (Bool-cases (is_linked_to e c.resolution || is_duplicate_of gone c.resolution)) [
      | inl out ↦ rw out tt
      | inr kept ↦ rw kept h
    ]

exclude-KeepsId : (e : EventId) (gone : List ℕ) (note : String) → KeepsId (exclude e gone note)
exclude-KeepsId e gone note c = ground arith

pub exclude_if-IsStructured :
    (out : Bool) (e : EventId) (note : String) (d : StagingGameDocumentV2)
    → IsStructured d
    → IsStructured (exclude_if out e note d)
unfolding exclude_tracking_for_pitch
exclude_if-IsStructured false e note d s = s
exclude_if-IsStructured true e note d s =
    let gone = directly_linked e d.tracking_candidates in
    record {
      head = s.head;
      tracking =
          CandidatesHold-map (exclude e gone note) d.tracking_candidates
            (exclude-KeepsId e gone note)
            (λ c h. DuplicateHolds-exclude e gone note (tracking_ids d.tracking_candidates) c h)
            s.tracking;
    }

pub with_events-IsStructured :
    (d : StagingGameDocumentV2) (es : List StagingRelayEvent)
    → IsStructured d
    → IsStructured (with_events d es)
unfolding with_events
with_events-IsStructured d es s = record { head = s.head; tracking = s.tracking }

-- A resolution may be given to a candidate: a duplicate names another candidate of the document.
abbrev MayResolve : StagingGameDocumentV2 → ℕ → TrackingResolution → Type 0
MayResolve d t r = DuplicateHolds (tracking_ids d.tracking_candidates) t r

DuplicateHolds-resolve :
    (ids : List ℕ) (t : ℕ) (r : TrackingResolution) (c : TrackingCandidate)
    → DuplicateHolds ids t r
    → DuplicateHolds ids c.tracking_id c.resolution
    → DuplicateHolds ids c.tracking_id (resolve t r c).resolution
DuplicateHolds-resolve ids t r c new h = elim (Bool-cases (is_candidate t c)) [
  | inl own ↦
      let same : t ≡ c.tracking_id = ground arith in
      rw own (subst (λ (k : ℕ). DuplicateHolds ids k r) same new)
  | inr other ↦ rw other h
]

pub update_tracking_resolution-IsStructured :
    (d : StagingGameDocumentV2) (t : ℕ) (r : TrackingResolution) {n : StagingGameDocumentV2}
    → MayResolve d t r
    → IsStructured d
    → update_tracking_resolution d t r ≡ draft n
    → IsStructured n
unfolding update_tracking_resolution
update_tracking_resolution-IsStructured d t r {n} new s h =
    elim (Bool-cases (bad_link d.events r)) [
      | inl bad ↦ let failed : thrown CorrectionError.link_not_pitch ≡ draft n = rw bad at h in cc
      | inr good ↦
          let (c, found, made) =
            corrected_chain (required_tracking_candidate d t)
              (λ c.
                draft (record d { tracking_candidates = map (resolve t r) d.tracking_candidates }))
              (rw good at h) in
          subst IsStructured (draft-injective made) (record {
            head = s.head;
            tracking =
                CandidatesHold-map (resolve t r) d.tracking_candidates (λ c. ground arith)
                  (λ c h. DuplicateHolds-resolve (tracking_ids d.tracking_candidates) t r c new h)
                  s.tracking;
          })
    ]

find-occurs :
    (t : ℕ) (cs : List TrackingCandidate) (c : TrackingCandidate)
    → find (is_candidate t) cs ≡ some c
    → 1 ≤ occurrences t (tracking_ids cs)
find-occurs t [] c h = cc
find-occurs t (x ∷ cs) c h = ground (arith, find-occurs t cs c)

pub required_tracking_candidate-occurs :
    (d : StagingGameDocumentV2) (t : ℕ) {c : TrackingCandidate}
    → required_tracking_candidate d t ≡ draft c
    → 1 ≤ occurrences t (tracking_ids d.tracking_candidates)
unfolding required_tracking_candidate
required_tracking_candidate-occurs d t {c} h =
    elim (Option-cases (find (is_candidate t) d.tracking_candidates)) [
      | inl gone ↦
          let failed : thrown (CorrectionError.tracking_not_found t) ≡ draft c =
            rw (gone, required_tracking_candidate) at h in
          cc
      | inr (x, found) ↦ find-occurs t d.tracking_candidates x found
    ]

pub set_contexts-IsStructured :
    (d : StagingGameDocumentV2) (f : TrackingCandidate → Option EventId)
    → IsStructured d
    → IsStructured
        (record d { tracking_candidates = map (λ c. set_context (f c) c) d.tracking_candidates })
set_contexts-IsStructured d f s = record {
  head = s.head;
  tracking =
      CandidatesHold-map (λ c. set_context (f c) c) d.tracking_candidates (λ c. ground arith)
        (λ c h. elim (Option-cases (f c)) [ inl e ↦ rw e h | inr (a, e) ↦ rw e h ]) s.tracking;
}

repair_contexts-IsStructured :
    (d : StagingGameDocumentV2) (index : TrackingIndex) {n : StagingGameDocumentV2}
    → IsStructured d
    → repair_contexts d index ≡ draft n
    → IsStructured n
unfolding repair_contexts
repair_contexts-IsStructured d index {n} s h =
    let f = repaired_context d index in
    elim (Bool-cases (any (λ c. is_some (f c)) d.tracking_candidates)) [
      | inl repaired ↦
          subst IsStructured (draft-injective (rw repaired at h)) (set_contexts-IsStructured d f s)
      | inr nothing ↦
          let failed : thrown CorrectionError.nothing_to_reconcile ≡ draft n = rw nothing at h in cc
    ]

pub reconcile-IsStructured :
    (d : StagingGameDocumentV2) {n : StagingGameDocumentV2}
    → IsStructured d
    → reconcile_tracking_contexts d ≡ draft n
    → IsStructured n
unfolding reconcile_tracking_contexts
reconcile-IsStructured d {n} s h =
    let (decoded, parsed, rest) =
      corrected_chain (parse_document d)
        (λ decoded. repair_contexts d (tracking_index d (pitch_facts_of decoded))) h in
    repair_contexts-IsStructured d (tracking_index d (pitch_facts_of decoded)) {n = n} s rest

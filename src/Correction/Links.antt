-- ===== src/Correction/Links.antt =====
-- What every correction keeps: the identifiers of the rows are distinct, and a candidate that is
use kbo_workbench.Prelude.{
  ==_refl, All, Bool, Bool-cases, List, String, [], any, arith, count, false, get_elem?, inl, inr,
  map, not, refl, some, suc, true, ℕ, ◌&&◌, ◌==◌, ◌||◌, ◌∷◌, ◌≡◌, ◌≤◌,
}
use kbo_workbench.Contracts.Document.{StagingGameDocumentV2}
use kbo_workbench.Contracts.Event.{EventId, StagingRelayEvent, event_id_of}
use kbo_workbench.Contracts.Tracking.{TrackingCandidate, TrackingResolution, is_linked_to}
use kbo_workbench.Correction.Commands.{delete_row, deletion_note, exclude_if, is_pitch}
use kbo_workbench.Correction.RowLaws.{count-remove_at, count-replace_at, required_row-found}
use kbo_workbench.Correction.Rows.{
  corrected_chain, draft, is_row, number_rows, remove_at, replace_at, required_row, set_sequence,
  with_events,
}
use kbo_workbench.Correction.Tracking.{
  directly_linked, exclude, exclude_tracking_for_pitch, is_duplicate_of,
}
-- linked is linked to a pitch row of the ledger.
use mathlib.Core.Path.{subst}
use kbo_workbench.Prelude.{
  ==_refl, All, Bool, Bool-cases, List, String, [], any, arith, count, false, get_elem?, inl, inr,
  map, not, refl, some, suc, true, ℕ, ◌&&◌, ◌==◌, ◌||◌, ◌∷◌, ◌≡◌, ◌≤◌,
}
use kbo_workbench.Contracts.Document.{StagingGameDocumentV2}
use kbo_workbench.Contracts.Event.{EventId, StagingRelayEvent, event_id_of}
use kbo_workbench.Contracts.Tracking.{TrackingCandidate, TrackingResolution}
use kbo_workbench.Correction.Commands.{delete_row, deletion_note, exclude_if, is_pitch}
use kbo_workbench.Correction.RowLaws.{count-remove_at, count-replace_at, required_row-found}
use kbo_workbench.Correction.Rows.{
  corrected_chain, is_row, number_rows, remove_at, replace_at, required_row, set_sequence,
  with_events,
}
use kbo_workbench.Correction.Tracking.{
  directly_linked, exclude, exclude_tracking_for_pitch, is_duplicate_of,
}

abbrev pub names_pitch : EventId → StagingRelayEvent → Bool
names_pitch k e = is_pitch e && is_row k e

abbrev pub ResolutionHolds : List StagingRelayEvent → TrackingResolution → Type 0
ResolutionHolds es (TrackingResolution.linked k) = 1 ≤ count (names_pitch k) es
ResolutionHolds es _ = Unit

abbrev pub LinkHolds : List StagingRelayEvent → TrackingCandidate → Type 0
LinkHolds es c = ResolutionHolds es c.resolution

pub record IsWellFormed (d : StagingGameDocumentV2) : Type 0 where
  pub distinct : (k : EventId) → count (is_row k) d.events ≤ 1
  pub links : All (LinkHolds d.events) d.tracking_candidates

All-mono {ℓ κ} :
    {D : Type ℓ} (P Q : D → Type κ) (xs : List D) → ((x : D) → P x → Q x) → All P xs → All Q xs
All-mono P Q [] f h = tt
All-mono P Q (x ∷ xs) f h = (f x h.0, All-mono P Q xs f h.1)

pub All-map {ℓ κ} :
    {D : Type ℓ} (P Q : D → Type κ) (g : D → D) (xs : List D)
    → ((x : D) → P x → Q (g x))
    → All P xs
    → All Q (map g xs)
All-map P Q g [] f h = tt
All-map P Q g (x ∷ xs) f h = (f x h.0, All-map P Q g xs f h.1)

pub count-none {ℓ} : {D : Type ℓ} (p : D → Bool) (xs : List D) → any p xs ≡ false → count p xs ≡ 0
count-none p [] h = refl
count-none p (x ∷ xs) h = ground (arith, count-none p xs)

-- A test that does not read the number of a row.
abbrev IgnoresSequence : (StagingRelayEvent → Bool) → Type 0
IgnoresSequence p = (n : ℕ) (e : StagingRelayEvent) → p (set_sequence n e) ≡ p e

is_row-ignores : (k : EventId) → IgnoresSequence (is_row k)
is_row-ignores k n e = ground arith

names_pitch-ignores : (k : EventId) → IgnoresSequence (names_pitch k)
names_pitch-ignores k n e = ground arith

count-number_rows :
    (p : StagingRelayEvent → Bool) (i : ℕ) (es : List StagingRelayEvent)
    → IgnoresSequence p
    → count p (number_rows i es) ≡ count p es
unfolding number_rows
count-number_rows p i [] h = refl
count-number_rows p i (e ∷ es) h = rw (h i e) (ground (arith, count-number_rows p (suc i) es h))

ResolutionHolds-mono :
    (es fs : List StagingRelayEvent) (r : TrackingResolution)
    → ((k : EventId)
        → is_linked_to k r ≡ true
        → count (names_pitch k) es ≤ count (names_pitch k) fs)
    → ResolutionHolds es r
    → ResolutionHolds fs r
ResolutionHolds-mono es fs (TrackingResolution.linked k) grows h =
    omega (arith, grows k (==_refl k))
ResolutionHolds-mono es fs TrackingResolution.pending grows h = tt
ResolutionHolds-mono es fs (TrackingResolution.duplicate i) grows h = tt
ResolutionHolds-mono es fs (TrackingResolution.excluded r reason) grows h = tt

other_link :
    (k id : EventId) (r : TrackingResolution)
    → is_linked_to k r ≡ true
    → is_linked_to id r ≡ false
    → (id == k) ≡ false
other_link k id (TrackingResolution.linked e) h f = ground arith
other_link k id TrackingResolution.pending h f = cc
other_link k id (TrackingResolution.duplicate i) h f = cc
other_link k id (TrackingResolution.excluded r reason) h f = cc

exclude-LinkHolds :
    (es fs : List StagingRelayEvent) (id : EventId) (ids : List ℕ) (note : String)
    (c : TrackingCandidate)
    → ((k : EventId) → (id == k) ≡ false → count (names_pitch k) es ≤ count (names_pitch k) fs)
    → LinkHolds es c
    → LinkHolds fs (exclude id ids note c)
exclude-LinkHolds es fs id ids note c grows h =
    let r = c.resolution in
    elim (Bool-cases (is_linked_to id r || is_duplicate_of ids r)) [
      | inl out ↦ rw out tt
      | inr kept ↦ rw kept (
          ResolutionHolds-mono es fs r
            (λ k linked. grows k (other_link k id r linked (ground arith))) h)
    ]

-- The rows change to `fs`, and the pitches of `id` alone may go.
pub with_events-IsWellFormed :
    (d : StagingGameDocumentV2) (fs : List StagingRelayEvent) (gone : Bool) (id : EventId)
    (note : String)
    → ((k : EventId) → count (is_row k) fs ≤ 1)
    → ((k : EventId)
        → gone && (id == k) ≡ false
        → count (names_pitch k) d.events ≤ count (names_pitch k) fs)
    → IsWellFormed d
    → IsWellFormed (exclude_if gone id note (with_events d fs))
unfolding with_events exclude_tracking_for_pitch
with_events-IsWellFormed d fs true id note distinct grows w = record {
  distinct = λ k. omega (arith, distinct k, count-number_rows (is_row k) 0 fs (is_row-ignores k));
  links =
      let ids = directly_linked id d.tracking_candidates in
      let numbered = number_rows 0 fs in
      All-map (LinkHolds d.events) (LinkHolds numbered) (exclude id ids note) d.tracking_candidates
        (λ c. exclude-LinkHolds d.events numbered id ids note c (λ k other.
          omega
            (arith, grows k other, count-number_rows (names_pitch k) 0 fs (names_pitch-ignores k))))
        w.links;
}
with_events-IsWellFormed d fs false id note distinct grows w = record {
  distinct = λ k. omega (arith, distinct k, count-number_rows (is_row k) 0 fs (is_row-ignores k));
  links =
      let numbered = number_rows 0 fs in
      All-mono (LinkHolds d.events) (LinkHolds numbered) d.tracking_candidates
        (λ c. ResolutionHolds-mono d.events numbered c.resolution (λ k linked.
          omega
            (arith, grows k refl, count-number_rows (names_pitch k) 0 fs (names_pitch-ignores k))))
        w.links;
}

pub delete_row-IsWellFormed :
    (d : StagingGameDocumentV2) (id : EventId) {n : StagingGameDocumentV2}
    → IsWellFormed d
    → delete_row d id ≡ draft n
    → IsWellFormed n
unfolding delete_row
delete_row-IsWellFormed d id {n} w h =
    let (r, found, made) =
      corrected_chain (required_row d.events id)
        (λ r.
          draft
            (exclude_if (is_pitch r.1) id deletion_note (with_events d (remove_at r.0 d.events))))
        h in
    let (got, named) = required_row-found d.events id {r = r} found in
    let equal : exclude_if (is_pitch r.1) id deletion_note (with_events d (remove_at r.0 d.events))
        ≡ n =
      cc in
    subst IsWellFormed equal (
      with_events-IsWellFormed d (remove_at r.0 d.events) (is_pitch r.1) id deletion_note
        (λ k. ground (arith, w.distinct k, count-remove_at (is_row k) r.0 r.1 d.events got))
        (λ k other. ground (arith, count-remove_at (names_pitch k) r.0 r.1 d.events got)) w)

-- One row is exchanged for another of the same identifier.
pub replace_at-IsWellFormed :
    (d : StagingGameDocumentV2) (i : ℕ) (e f : StagingRelayEvent) (gone : Bool) (id : EventId)
    (note : String)
    → get_elem? d.events i ≡ some e
    → is_row id e ≡ true
    → event_id_of f ≡ event_id_of e
    → (is_pitch e && not (is_pitch f)) ≡ gone
    → IsWellFormed d
    → IsWellFormed (exclude_if gone id note (with_events d (replace_at i f d.events)))
replace_at-IsWellFormed d i e f gone id note got named same exchanged w =
    with_events-IsWellFormed d (replace_at i f d.events) gone id note
      (λ k. ground (arith, w.distinct k, count-replace_at (is_row k) i e f d.events got))
      (λ k other. ground (arith, count-replace_at (names_pitch k) i e f d.events got)) w

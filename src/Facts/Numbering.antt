-- ===== src/Facts/Numbering.antt =====
-- The numbers of a pitch within its plate appearance, in
-- packages/game-core/src/compiler/derived-facts.ts, against a count of the pitches before it.
use mathlib.Core.Path.{subst}
use kbo_workbench.Prelude.{
  Bool, Bool-cases, List, Option, Option-cases, [], any, arith, contains, count, count-append,
  false, get_elem?, if◌then◌else◌, inl, inr, is_some, none, refl, some, suc, true, ℕ, ◌++◌, ◌+◌,
  ◌==◌, ◌||◌, ◌∙◌, ◌∷◌, ◌≡◌,
}
use kbo_workbench.Collections.Dict.{Dict, insert, lookup, lookup-insert}
use kbo_workbench.Contracts.Event.{EventId, PitchEvent, StagingRelayEvent}
use kbo_workbench.Facts.Pitch.{
  PlateContext, is_actual_pitch, next_actual, number_pitches, pitch_of, plate_context,
  plate_contexts,
}
use kbo_workbench.Game.State.{PlateAppearanceSummary}

abbrev pub is_pitch_id : Dict StagingRelayEvent → EventId → Bool
is_pitch_id rows k = is_some (pitch_of (lookup k rows))

abbrev is_actual_row : Option PitchEvent → Bool
is_actual_row none = false
is_actual_row (some p) = is_actual_pitch p.payload.call

abbrev pub is_actual_id : Dict StagingRelayEvent → EventId → Bool
is_actual_id rows k = is_actual_row (pitch_of (lookup k rows))

-- A pitch of the appearance `a`, with the numbers that the pitches in front of it give: one more
-- than the pitch rows, and, for an actual pitch, one more than the actual pitches.
pub record IsNumberedIn (rows : Dict StagingRelayEvent) (a : PlateAppearanceSummary) (k : EventId)
    (c : PlateContext) : Type 0 where
  pub before : List EventId
  pub later : List EventId
  pub split : a.event_ids ≡ before ++ k ∷ later
  pub appearance : c.plate_appearance_event_id ≡ a.start_event_id
  pub number : c.pitch_event_number ≡ count (is_pitch_id rows) before + 1
  pub actual_number :
      c.actual_pitch_number
      ≡ (if is_actual_id rows k then some (count (is_actual_id rows) before + 1) else none)

snoc-append {ℓ} :
    {A : Type ℓ} (xs : List A) (x : A) (ys : List A) → xs ++ x ∷ ys ≡ (xs ++ x ∷ []) ++ ys
snoc-append [] x ys = refl
snoc-append (y ∷ xs) x ys = rw (snoc-append xs x ys) refl

module _ (rows : Dict StagingRelayEvent) (P : EventId → PlateContext → Type 0) where
  unfoldable pub AllNumbered : Dict PlateContext → Type 0
  AllNumbered d = (k : EventId) (c : PlateContext) → lookup k d ≡ some c → P k c

  insert-AllNumbered :
      (e : EventId) (c : PlateContext) (d : Dict PlateContext)
      → P e c
      → AllNumbered d
      → AllNumbered (insert e c d)
  unfolding AllNumbered
  insert-AllNumbered e c d n h k b found = elim (Bool-cases (k == e)) [
    | inl same ↦
        let stored : some c ≡ some b = rw (lookup-insert k e c d, same) at found in
        let equal : c ≡ b = cc in
        let key : e ≡ k = ground (arith, same) in subst (λ x. P x b) key (subst (P e) equal n)
    | inr other ↦ h k b (rw (lookup-insert k e c d, other) at found)
  ]

  number_pitches-AllNumbered :
      (a : PlateAppearanceSummary)
      → ((k : EventId) (c : PlateContext) → IsNumberedIn rows a k c → P k c)
      → (done : List EventId) (n m : ℕ) (es : List EventId) (d : Dict PlateContext)
      → a.event_ids ≡ done ++ es
      → n ≡ count (is_pitch_id rows) done
      → m ≡ count (is_actual_id rows) done
      → AllNumbered d
      → AllNumbered (number_pitches rows a.start_event_id n m es d)
  unfolding number_pitches
  number_pitches-AllNumbered a meets done n m [] d split pitches actual h = h
  number_pitches-AllNumbered a meets done n m (e ∷ es) d split pitches actual h =
      let next = done ++ e ∷ [] in
      let moved : a.event_ids ≡ next ++ es = split ∙ snoc-append done e es in
      elim (Option-cases (pitch_of (lookup e rows))) [
        | inl unseen ↦
            rw (unseen, number_pitches)
              (number_pitches-AllNumbered a meets next n m es d moved
                (ground (arith, unseen, count-append (is_pitch_id rows) done (e ∷ [])))
                (ground (arith, unseen, count-append (is_actual_id rows) done (e ∷ []))) h)
        | inr (p, seen) ↦
            let c = plate_context a.start_event_id (suc n) (next_actual m p) p in
            let numbered : IsNumberedIn rows a e c = record {
              before = done;
              later = es;
              split = split;
              appearance = refl;
              number = ground arith;
              actual_number = ground (arith, seen);
            } in
            rw (seen, number_pitches)
              (number_pitches-AllNumbered a meets next (suc n) (next_actual m p) es _ moved
                (ground (arith, seen, count-append (is_pitch_id rows) done (e ∷ [])))
                (ground (arith, seen, count-append (is_actual_id rows) done (e ∷ [])))
                (insert-AllNumbered e c d (meets e c numbered) h))
      ]

  pub plate_contexts-AllNumbered :
      (appearances : List PlateAppearanceSummary)
      → ((i : ℕ) (a : PlateAppearanceSummary)
          → get_elem? appearances i ≡ some a
          → (k : EventId) (c : PlateContext) → IsNumberedIn rows a k c
          → P k c)
      → (d : Dict PlateContext) → AllNumbered d
      → AllNumbered (plate_contexts rows appearances d)
  unfolding plate_contexts
  plate_contexts-AllNumbered [] meets d h = h
  plate_contexts-AllNumbered (a ∷ rest) meets d h =
      plate_contexts-AllNumbered rest (λ i b at. meets (suc i) b at) _
        (number_pitches-AllNumbered a (meets 0 a refl) [] 0 0 a.event_ids d refl refl refl h)

number_pitches-some :
    (rows : Dict StagingRelayEvent) (start k : EventId) (n m : ℕ) (es : List EventId)
    (d : Dict PlateContext)
    → is_pitch_id rows k ≡ true
    → contains k es || is_some (lookup k d) ≡ true
    → is_some (lookup k (number_pitches rows start n m es d)) ≡ true
unfolding number_pitches
number_pitches-some rows start k n m [] d pitch h = h
number_pitches-some rows start k n m (e ∷ es) d pitch h =
    elim (Option-cases (pitch_of (lookup e rows))) [
      | inl unseen ↦
          rw (unseen, number_pitches)
            (number_pitches-some rows start k n m es d pitch (ground (arith, unseen, h, pitch)))
      | inr (p, seen) ↦
          let c = plate_context start (suc n) (next_actual m p) p in
          rw (seen, number_pitches)
            (number_pitches-some rows start k (suc n) (next_actual m p) es (insert e c d) pitch
              (rw (lookup-insert k e c d) (ground (arith, h))))
    ]

abbrev pub has_pitch : EventId → PlateAppearanceSummary → Bool
has_pitch k a = contains k a.event_ids

pub plate_contexts-some :
    (rows : Dict StagingRelayEvent) (k : EventId) (appearances : List PlateAppearanceSummary)
    (d : Dict PlateContext)
    → is_pitch_id rows k ≡ true
    → any (has_pitch k) appearances || is_some (lookup k d) ≡ true
    → is_some (lookup k (plate_contexts rows appearances d)) ≡ true
unfolding plate_contexts
plate_contexts-some rows k [] d pitch h = h
plate_contexts-some rows k (a ∷ rest) d pitch h =
    plate_contexts-some rows k rest _ pitch
      (ground (arith, h, number_pitches-some rows a.start_event_id k 0 0 a.event_ids d pitch))

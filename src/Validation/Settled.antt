-- ===== src/Validation/Settled.antt =====
-- What a document keeps to when the tracking checks add nothing that blocks.
use kbo_workbench.Prelude.{
  All, Bool, Bool-cases, List, Option, Option-cases, [], any, arith, false, inl, inr, length, ltb,
  none, not, refl, some, true, ◌==◌, ◌||◌, ◌∷◌, ◌≡◌,
}
use kbo_workbench.Collections.Dict.{lookup}
use kbo_workbench.Compiler.Context.{CompileContext}
use kbo_workbench.Contracts.Event.{PitchEvent, same_half, same_half_iff}
use kbo_workbench.Contracts.Tracking.{TrackingCandidate, TrackingResolution}
use kbo_workbench.Facts.Pitch.{CompiledPitchFact, pitch_of}
use kbo_workbench.Game.Findings.{FindingCode}
use kbo_workbench.Validation.Adds.{
  Adds, Adds-check_candidates, Adds-check_fact, Adds-check_resolution, Adds-if, Adds-push,
  Adds-refl, Adds-tracking_finding, has_no_conflict, is_blocked, is_conflict,
  tracking_finding-blocks,
}
use kbo_workbench.Validation.Linked.{
  TrackingIndex, apply_if, check_candidates, check_fact, check_linked, check_resolution,
  differs_both, differs_from, is_actual_fact, is_linked, is_valid_canonical, player_details,
}
use kbo_workbench.Validation.Tracking.{has_conflict, is_conflict_of, same_fingerprint}

-- A candidate that the checks let pass.
abbrev pub IsSettled : TrackingIndex → TrackingCandidate → TrackingResolution → Type 0
IsSettled index c TrackingResolution.pending = ⊥
IsSettled index c (TrackingResolution.excluded r reason) = Unit
IsSettled index c (TrackingResolution.duplicate i) =
    (x : TrackingCandidate) × (lookup i index.candidates ≡ some x)
    × (is_linked x.resolution ≡ true)
    × (same_fingerprint x c ≡ true)
IsSettled index c (TrackingResolution.linked k) =
    (p : PitchEvent) × (f : CompiledPitchFact) × (pitch_of (lookup k index.rows) ≡ some p)
    × (lookup k index.facts ≡ some f)
    × (f.actual ≡ true)
    × (c.inning ≡ p.base.inning)
    × (c.half ≡ p.base.half)
    × (differs_both c.pitcher_id f.pitcher_id ≡ false)
    × (differs_both c.batter_id f.batter_id ≡ false)
    × (differs_from c.plate_appearance_event_id f.plate_appearance_event_id ≡ false)

-- A check that adds nothing blocking was not made.
unblocked-if :
    (b : Bool) (f : CompileContext → CompileContext) (c : CompileContext)
    → ((d : CompileContext) → is_blocked (f d) ≡ true)
    → is_blocked (apply_if b f c) ≡ false
    → b ≡ false
unfolding apply_if
unblocked-if true f c h e = let blocked = h c in cc
unblocked-if false f c h e = refl

unblocked-inner :
    (b : Bool) (f : CompileContext → CompileContext) (c : CompileContext)
    → ((d : CompileContext) → Adds d (f d))
    → is_blocked (apply_if b f c) ≡ false
    → is_blocked c ≡ false
unblocked-inner b f c h e = (Adds-if b f h (Adds-refl c)).unblocked e

check_fact-unblocked :
    (x : TrackingCandidate) (p : PitchEvent) (f : CompiledPitchFact) (c : CompileContext)
    → is_blocked (check_fact x p (some f) c) ≡ false
    → (ltb 0 (length (player_details x f)) ≡ false)
      × (differs_from x.plate_appearance_event_id f.plate_appearance_event_id ≡ false)
unfolding check_fact
check_fact-unblocked x p f c h =
    let players = unblocked-inner _ _ _ (λ d. Adds-push _ d refl) h in
    let appearance = unblocked-inner _ _ _ (λ d. Adds-tracking_finding x _ _ _ d) players in
    (
      unblocked-if _ _ _ (λ d. tracking_finding-blocks x _ _ _ d) players,
      unblocked-if _ _ _ (λ d. tracking_finding-blocks x _ _ _ d) appearance,
    )

check_linked-unblocked :
    (x : TrackingCandidate) (p : PitchEvent) (f : Option CompiledPitchFact) (c : CompileContext)
    → is_blocked (check_linked x p f c) ≡ false
    → (is_actual_fact f ≡ true)
      × ((not (x.inning == p.base.inning) || not (same_half x.half p.base.half)) ≡ false)
      × ((d : CompileContext) × (is_blocked (check_fact x p f d) ≡ false))
unfolding check_linked
check_linked-unblocked x p f c h =
    let game = unblocked-if _ _ _ (λ d. tracking_finding-blocks x _ _ _ d) h in
    let fact = unblocked-inner _ _ _ (λ d. Adds-tracking_finding x _ _ _ d) h in
    let before = (Adds-check_fact x p f _).unblocked fact in
    let actual = unblocked-if _ _ _ (λ d. tracking_finding-blocks x _ _ _ d) before in
    (ground arith, game, (_, fact))

any-weaken {ℓ} :
    {D : Type ℓ} (p q : D → Bool) (xs : List D)
    → ((x : D) → p x ≡ true → q x ≡ true)
    → any p xs ≡ true
    → any q xs ≡ true
any-weaken p q [] f h = cc
any-weaken p q (x ∷ xs) f h = elim (Bool-cases (p x)) [
  | inl e ↦ rw (f x e) refl
  | inr e ↦ rw (any-weaken p q xs f (rw e at h)) (ground arith)
]

fact_of :
    (o : Option CompiledPitchFact)
    → is_actual_fact o ≡ true
    → (f : CompiledPitchFact) × (o ≡ some f) × (f.actual ≡ true)
fact_of none h = cc
fact_of (some f) h = (f, refl, h)

canonical_of :
    (c : TrackingCandidate) (o : Option TrackingCandidate)
    → is_valid_canonical c o ≡ true
    → (x : TrackingCandidate) × (o ≡ some x)
      × (is_linked x.resolution ≡ true)
      × (same_fingerprint x c ≡ true)
canonical_of c none h = cc
canonical_of c (some x) h = (x, refl, ground arith, ground arith)

no_players :
    (c : TrackingCandidate) (f : CompiledPitchFact)
    → ltb 0 (length (player_details c f)) ≡ false
    → (differs_both c.pitcher_id f.pitcher_id ≡ false)
      × (differs_both c.batter_id f.batter_id ≡ false)
no_players c f h = ground arith

same_context :
    (c : TrackingCandidate) (p : PitchEvent)
    → (not (c.inning == p.base.inning) || not (same_half c.half p.base.half)) ≡ false
    → (c.inning ≡ p.base.inning) × (c.half ≡ p.base.half)
same_context c p h = ground (arith, same_half_iff c.half p.base.half)

check_resolution-Settled :
    (index : TrackingIndex) (x : TrackingCandidate) (r : TrackingResolution) (c : CompileContext)
    → has_no_conflict c ≡ true
    → is_blocked (check_resolution index x r c) ≡ false
    → IsSettled index x r
unfolding check_resolution has_conflict
check_resolution-Settled index x TrackingResolution.pending c calm h =
    let found : any (is_conflict_of x.tracking_id) c.findings ≡ true =
      ground (arith, unblocked-if _ _ _ (λ d. tracking_finding-blocks x _ _ _ d) h) in
    let conflict =
      any-weaken (is_conflict_of x.tracking_id) is_conflict c.findings (λ f e. ground arith)
        found in
    cc
check_resolution-Settled index x (TrackingResolution.excluded r reason) c calm h = tt
check_resolution-Settled index x (TrackingResolution.duplicate i) c calm h =
    canonical_of x (lookup i index.candidates)
      (ground (arith, unblocked-if _ _ _ (λ d. tracking_finding-blocks x _ _ _ d) h))
check_resolution-Settled index x (TrackingResolution.linked k) c calm h =
    elim (Option-cases (pitch_of (lookup k index.rows))) [
      | inl e ↦
          let blocked =
            tracking_finding-blocks x FindingCode.tracking_link_not_pitch [] (some k) c in
          let clear = rw e at h in cc
      | inr (p, e) ↦
          let clear : is_blocked (check_linked x p (lookup k index.facts) c) ≡ false = rw e at h in
          let (actual, game, (d, fact)) =
            check_linked-unblocked x p (lookup k index.facts) c clear in
          let (f, at, is_actual) = fact_of (lookup k index.facts) actual in
          let (players, appearance) = check_fact-unblocked x p f d (rw at at fact) in
          let (pitcher, batter) = no_players x f players in
          let (inning, half) = same_context x p game in
          (p, f, e, at, is_actual, inning, half, pitcher, batter, appearance)
    ]

pub check_candidates-Settled :
    (index : TrackingIndex) (xs : List TrackingCandidate) (c : CompileContext)
    → has_no_conflict c ≡ true
    → is_blocked (check_candidates index xs c) ≡ false
    → All (λ x. IsSettled index x x.resolution) xs
unfolding check_candidates
check_candidates-Settled index [] c n h = tt
check_candidates-Settled index (x ∷ xs) c n h =
    let d = check_resolution index x x.resolution c in
    let clear = (Adds-check_candidates index xs d).unblocked h in
    (
      check_resolution-Settled index x x.resolution c n clear,
      check_candidates-Settled index xs d
          ((Adds-check_resolution index x x.resolution c).conflicts clear n) h,
    )

-- ===== src/Validation/Adds.antt =====
-- The tracking checks only add findings, and a conflict that they report blocks.
use kbo_workbench.Prelude.{
  Bool, Bool-cases, List, Option, Option-cases, [], any, arith, false, filter, inl, inr, length,
  ltb, none, not, refl, some, true, ℕ, ◌++◌, ◌||◌, ◌∙◌, ◌∷◌, ◌≡◌,
}
use kbo_workbench.Collections.Dict.{Dict, lookup}
use kbo_workbench.Compiler.Context.{CompileContext, detail, push_finding}
use kbo_workbench.Compiler.RowChecks.{is_blocking_finding}
use kbo_workbench.Contracts.Document.{StagingGameDocumentV2}
use kbo_workbench.Contracts.Event.{EventId, LedgerEventBase, PitchEvent, StagingRelayEvent}
use kbo_workbench.Contracts.Tracking.{TrackingCandidate, TrackingResolution}
use kbo_workbench.Facts.Pitch.{CompiledPitchFact, pitch_of}
use kbo_workbench.Game.Findings.{
  DetailField, DetailValue, Finding, FindingCode, FindingDetail, is_conflict_code,
}
use kbo_workbench.Validation.Linked.{
  TrackingIndex, apply_if, check_candidates, check_fact, check_linked, check_multiple,
  check_resolution, is_missing, report_missing, report_multiple,
}
use kbo_workbench.Validation.Tracking.{
  add_reused_source_pitch_id_warnings, by_source_pitch_id, group_details, is_pending,
  report_all_reused, report_conflicts, report_location, report_members, report_reused,
  tracking_finding, warning_finding,
}

abbrev pub is_blocked : CompileContext → Bool
is_blocked c = any is_blocking_finding c.findings

abbrev pub is_conflict : Finding → Bool
is_conflict f = is_conflict_code f.code

abbrev pub has_no_conflict : CompileContext → Bool
has_no_conflict c = not (any is_conflict c.findings)

-- One context goes on from another: only findings have been added, and when nothing blocks at the
-- end, nothing did before, and no conflict has come in.
pub record Adds (c d : CompileContext) : Type 0 where
  pub document : d.document ≡ c.document
  pub batters : d.batter_lines ≡ c.batter_lines
  pub pitchers : d.pitcher_lines ≡ c.pitcher_lines
  pub uncertain : d.uncertain_rbi_batter_ids ≡ c.uncertain_rbi_batter_ids
  pub unblocked : is_blocked d ≡ false → is_blocked c ≡ false
  pub conflicts : is_blocked d ≡ false → has_no_conflict c ≡ true → has_no_conflict d ≡ true

pub Adds-refl : (c : CompileContext) → Adds c c
Adds-refl c = record {
  document = refl;
  batters = refl;
  pitchers = refl;
  uncertain = refl;
  unblocked = λ h. h;
  conflicts = λ h n. n;
}

pub Adds-trans : {c d e : CompileContext} → Adds c d → Adds d e → Adds c e
Adds-trans p q = record {
  document = q.document ∙ p.document;
  batters = q.batters ∙ p.batters;
  pitchers = q.pitchers ∙ p.pitchers;
  uncertain = q.uncertain ∙ p.uncertain;
  unblocked = λ h. p.unblocked (q.unblocked h);
  conflicts = λ h n. q.conflicts h (p.conflicts (q.unblocked h) n);
}

any-push {ℓ} :
    {D : Type ℓ} (p : D → Bool) (xs : List D) (x : D) → any p (xs ++ x ∷ []) ≡ any p xs || p x
any-push p [] x = ground arith
any-push p (y ∷ ys) x = ground (arith, any-push p ys x)

pub Adds-push :
    (f : Finding) (c : CompileContext)
    → (is_blocking_finding f || not (is_conflict f)) ≡ true
    → Adds c (push_finding f c)
Adds-push f c h = record {
  document = refl;
  batters = refl;
  pitchers = refl;
  uncertain = refl;
  unblocked = λ b. ground (arith, any-push is_blocking_finding c.findings f);
  conflicts = λ b n.
      ground (arith, any-push is_blocking_finding c.findings f, any-push is_conflict c.findings f);
}

pub Adds-tracking_finding :
    (x : TrackingCandidate) (code : FindingCode) (details : List FindingDetail) (k : Option EventId)
    (c : CompileContext)
    → Adds c (tracking_finding x code details k c)
Adds-tracking_finding x code details k c = Adds-push _ c refl

Adds-warning_finding :
    (code : FindingCode) (e : LedgerEventBase) (k : Option ℕ) (details : List FindingDetail)
    (c : CompileContext)
    → is_conflict_code code ≡ false
    → Adds c (warning_finding code e k details c)
Adds-warning_finding code e k details c h = Adds-push _ c (rw h refl)

pub tracking_finding-blocks :
    (x : TrackingCandidate) (code : FindingCode) (details : List FindingDetail) (k : Option EventId)
    (c : CompileContext)
    → is_blocked (tracking_finding x code details k c) ≡ true
tracking_finding-blocks x code details k c =
    any-push is_blocking_finding c.findings _ ∙ ground arith

-- A check that is made only under a condition, behind others.
pub Adds-if :
    (b : Bool) (f : CompileContext → CompileContext) {c d : CompileContext}
    → ((e : CompileContext) → Adds e (f e))
    → Adds c d
    → Adds c (apply_if b f d)
unfolding apply_if
Adds-if true f {c} {d} h p = Adds-trans p (h d)
Adds-if false f h p = p

pub Adds-check_fact :
    (x : TrackingCandidate) (p : PitchEvent) (f : Option CompiledPitchFact) (c : CompileContext)
    → Adds c (check_fact x p f c)
unfolding check_fact
Adds-check_fact x p none c = Adds-refl c
Adds-check_fact x p (some f) c =
    Adds-if _ _ (λ e. Adds-push _ e refl)
      (Adds-if _ _ (λ e. Adds-tracking_finding x _ _ _ e)
        (Adds-if _ _ (λ e. Adds-tracking_finding x _ _ _ e) (Adds-refl c)))

Adds-check_linked :
    (x : TrackingCandidate) (p : PitchEvent) (f : Option CompiledPitchFact) (c : CompileContext)
    → Adds c (check_linked x p f c)
unfolding check_linked
Adds-check_linked x p f c =
    Adds-if _ _ (λ e. Adds-tracking_finding x _ _ _ e)
      (Adds-trans
        (Adds-if _ _ (λ e. Adds-tracking_finding x _ _ _ e)
          (Adds-if _ _ (λ e. Adds-tracking_finding x _ _ _ e) (Adds-refl c)))
        (Adds-check_fact x p f _))

pub Adds-check_resolution :
    (index : TrackingIndex) (x : TrackingCandidate) (r : TrackingResolution) (c : CompileContext)
    → Adds c (check_resolution index x r c)
unfolding check_resolution
Adds-check_resolution index x TrackingResolution.pending c =
    Adds-if _ _ (λ e. Adds-tracking_finding x _ _ _ e) (Adds-refl c)
Adds-check_resolution index x (TrackingResolution.excluded r reason) c = Adds-refl c
Adds-check_resolution index x (TrackingResolution.duplicate i) c =
    Adds-if _ _ (λ e. Adds-tracking_finding x _ _ _ e) (Adds-refl c)
Adds-check_resolution index x (TrackingResolution.linked k) c =
    elim (Option-cases (pitch_of (lookup k index.rows))) [
      | inl e ↦ rw e (Adds-tracking_finding x FindingCode.tracking_link_not_pitch [] (some k) c)
      | inr (p, e) ↦ rw e (Adds-check_linked x p (lookup k index.facts) c)
    ]

pub Adds-check_candidates :
    (index : TrackingIndex) (xs : List TrackingCandidate) (c : CompileContext)
    → Adds c (check_candidates index xs c)
unfolding check_candidates
Adds-check_candidates index [] c = Adds-refl c
Adds-check_candidates index (x ∷ xs) c =
    Adds-trans (Adds-check_resolution index x x.resolution c)
      (Adds-check_candidates index xs (check_resolution index x x.resolution c))

Adds-report_members :
    (details : List FindingDetail) (xs : List TrackingCandidate) (c : CompileContext)
    → Adds c (report_members details xs c)
Adds-report_members details [] c = Adds-refl c
Adds-report_members details (x ∷ xs) c =
    Adds-trans (Adds-tracking_finding x FindingCode.tracking_conflicting_candidates details none c)
      (Adds-report_members details xs _)

pub Adds-report_conflicts :
    (gs : List (List TrackingCandidate)) (c : CompileContext) → Adds c (report_conflicts gs c)
unfolding report_conflicts
Adds-report_conflicts [] c = Adds-refl c
Adds-report_conflicts (g ∷ gs) c =
    Adds-trans (Adds-report_members (group_details g) (filter (λ x. is_pending x.resolution) g) c)
      (Adds-report_conflicts gs _)

Adds-report_reused :
    (details : List FindingDetail) (ps : List PitchEvent) (c : CompileContext)
    → Adds c (report_reused details ps c)
Adds-report_reused details [] c = Adds-refl c
Adds-report_reused details (p ∷ ps) c =
    Adds-trans
      (Adds-warning_finding FindingCode.pitch_id_reused_within_game p.base none details c refl)
      (Adds-report_reused details ps _)

Adds-report_all_reused :
    (d : Dict (List PitchEvent)) (c : CompileContext) → Adds c (report_all_reused d c)
unfolding report_all_reused
Adds-report_all_reused [] c = Adds-refl c
Adds-report_all_reused ((i, ps) ∷ d) c = elim (Bool-cases (ltb (length ps) 2)) [
  | inl few ↦ rw few (Adds-report_all_reused d c)
  | inr many ↦
      rw many
        (Adds-trans (Adds-report_reused (report_location 1 ps) ps c) (Adds-report_all_reused d _))
]

pub Adds-add_reused_source_pitch_id_warnings :
    (d : StagingGameDocumentV2) (c : CompileContext)
    → Adds c (add_reused_source_pitch_id_warnings d c)
unfolding add_reused_source_pitch_id_warnings
Adds-add_reused_source_pitch_id_warnings d c =
    Adds-report_all_reused (by_source_pitch_id d.events []) c

pub Adds-report_multiple :
    (k : EventId) (n : ℕ) (xs : List TrackingCandidate) (c : CompileContext)
    → Adds c (report_multiple k n xs c)
Adds-report_multiple k n [] c = Adds-refl c
Adds-report_multiple k n (x ∷ xs) c =
    Adds-trans
      (Adds-tracking_finding x FindingCode.tracking_multiple_canonical
        (detail DetailField.linked_count (DetailValue.number 1) (DetailValue.number n) ∷ [])
        (some k) c)
      (Adds-report_multiple k n xs _)

pub Adds-check_multiple :
    (d : Dict (List TrackingCandidate)) (c : CompileContext) → Adds c (check_multiple d c)
unfolding check_multiple
Adds-check_multiple [] c = Adds-refl c
Adds-check_multiple ((k, xs) ∷ d) c =
    Adds-trans
      (Adds-if (ltb 1 (length xs)) (report_multiple k (length xs) xs)
        (λ e. Adds-report_multiple k (length xs) xs e) (Adds-refl c))
      (Adds-check_multiple d _)

pub Adds-report_missing :
    (d : Dict (List TrackingCandidate)) (es : List StagingRelayEvent) (c : CompileContext)
    → Adds c (report_missing d es c)
unfolding report_missing
Adds-report_missing d [] c = Adds-refl c
Adds-report_missing d (StagingRelayEvent.pitch p ∷ es) c =
    Adds-trans
      (Adds-if (is_missing d p)
        (warning_finding FindingCode.tracking_missing_for_pitch p.base none [])
        (λ e. Adds-warning_finding FindingCode.tracking_missing_for_pitch p.base none [] e refl)
        (Adds-refl c))
      (Adds-report_missing d es _)
Adds-report_missing d (_ ∷ es) c = Adds-report_missing d es c

pub push-blocks :
    (f : Finding) (c : CompileContext)
    → is_blocking_finding f ≡ true
    → is_blocked (push_finding f c) ≡ true
push-blocks f c h = any-push is_blocking_finding c.findings f ∙ ground arith

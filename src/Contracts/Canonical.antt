-- ===== src/Contracts/Canonical.antt =====
-- What a document keeps to when `validateStagingGameDocumentV2Semantics` of
-- packages/contracts/src/game-document.ts finds no issue.
use mathlib.Core.Path.{subst}
use kbo_workbench.Prelude.{
  All, Bool, List, Option, String, [], all, arith, false, is_some, map, none, not, refl, some, suc,
  true, ℕ, ◌&&◌, ◌++◌, ◌==◌, ◌↔◌, ◌∷◌, ◌≡◌, ◌≢◌, ◌≤◌,
}
use kbo_workbench.Collections.Distinct.{contains-occurrences, contains-set_of, occurrences, set_of}
use kbo_workbench.Contracts.Document.{StagingGameDocumentV2}
use kbo_workbench.Contracts.Event.{EventId, StagingRelayEvent, base_of, event_id_of}
use kbo_workbench.Contracts.Semantics.{
  has_forbidden_batted_ball, is_calendar_date, is_manual, is_missing_duplicate, is_own_duplicate,
  is_trimmed, player_ids,
}
use kbo_workbench.Contracts.Text.{codes, same_codes, same_codes-eq, same_codes_refl, trim}
use kbo_workbench.Contracts.Tracking.{TrackingCandidate, TrackingResolution}

abbrev pub row_ids : StagingGameDocumentV2 → List EventId
row_ids d = map event_id_of d.events

abbrev pub tracking_ids : List TrackingCandidate → List ℕ
tracking_ids cs = map (λ c. c.tracking_id) cs

-- The row at each index has that index, from `i` on, as its number.
abbrev pub IsSequencedFrom : ℕ → List StagingRelayEvent → Type 0
IsSequencedFrom i [] = Unit
IsSequencedFrom i (e ∷ es) = ((base_of e).sequence ≡ i) × IsSequencedFrom (suc i) es

abbrev pub AreNumberedFrom : ℕ → List TrackingCandidate → Type 0
AreNumberedFrom i [] = Unit
AreNumberedFrom i (c ∷ cs) = (c.sequence ≡ i) × AreNumberedFrom (suc i) cs

abbrev IsTrimmed : Option String → Type 0
IsTrimmed none = Unit
IsTrimmed (some text) = codes text ≡ trim (codes text)

-- The text has no white space at its ends; a manual row has a text and no observation; and only a
-- ball in play is described as batted.
pub record IsCanonicalRow (e : StagingRelayEvent) : Type 0 where
  pub trimmed : IsTrimmed (base_of e).relay_text
  pub manual_text : is_manual e ≡ true → is_some (base_of e).relay_text ≡ true
  pub manual_observation : is_manual e ≡ true → is_some (base_of e).observed_state_after ≡ false
  pub batted : has_forbidden_batted_ball e ≡ false

abbrev pub DuplicateHolds : List ℕ → ℕ → TrackingResolution → Type 0
DuplicateHolds ids own (TrackingResolution.duplicate k) = (k ≢ own) × (1 ≤ occurrences k ids)
DuplicateHolds ids own _ = Unit

pub record IsCanonical (d : StagingGameDocumentV2) : Type 0 where
  pub date : is_calendar_date d.metadata.game_date ≡ true
  pub two_teams : d.teams.away.team_id ≢ d.teams.home.team_id
  pub away_team : d.rosters.away.team_id ≡ d.teams.away.team_id
  pub home_team : d.rosters.home.team_id ≡ d.teams.home.team_id
  pub players : (k : ℕ) → occurrences k (player_ids d.rosters.away ++ player_ids d.rosters.home) ≤ 1
  pub batters : (k : ℕ) → occurrences k (map (λ r. r.player_id) d.official_records.batters) ≤ 1
  pub pitchers : (k : ℕ) → occurrences k (map (λ r. r.player_id) d.official_records.pitchers) ≤ 1
  pub sequenced : IsSequencedFrom 0 d.events
  pub rows : (k : ℕ) → occurrences k (row_ids d) ≤ 1
  pub canonical : All IsCanonicalRow d.events
  pub numbered : AreNumberedFrom 0 d.tracking_candidates
  pub candidates : (k : ℕ) → occurrences k (tracking_ids d.tracking_candidates) ≤ 1
  pub duplicates :
      All
        (λ c. DuplicateHolds (tracking_ids d.tracking_candidates) c.tracking_id c.resolution)
        d.tracking_candidates

-- The same as tests.
abbrev pub sequenced_from : ℕ → List StagingRelayEvent → Bool
sequenced_from i [] = true
sequenced_from i (e ∷ es) = (base_of e).sequence == i && sequenced_from (suc i) es

abbrev pub numbered_from : ℕ → List TrackingCandidate → Bool
numbered_from i [] = true
numbered_from i (c ∷ cs) = c.sequence == i && numbered_from (suc i) cs

abbrev pub is_canonical_row : StagingRelayEvent → Bool
is_canonical_row e =
    is_trimmed (base_of e).relay_text
    && not (is_manual e && not (is_some (base_of e).relay_text))
    && not (is_manual e && is_some (base_of e).observed_state_after)
    && not (has_forbidden_batted_ball e)

abbrev pub duplicate_holds : List ℕ → TrackingCandidate → Bool
duplicate_holds ids c =
    not (is_own_duplicate c.tracking_id c.resolution) && not (is_missing_duplicate ids c.resolution)

pub all-All {ℓ κ} :
    {D : Type ℓ} (p : D → Bool) (P : D → Type κ) (xs : List D)
    → ((x : D) → (p x ≡ true) ↔ P x)
    → (all p xs ≡ true) ↔ All P xs
all-All p P [] f = (λ _. tt, λ _. refl)
all-All p P (x ∷ xs) f =
    let rest = all-All p P xs f in
    (
      λ h. ((f x).0 (ground arith), rest.0 (ground arith)),
      λ h. ground (arith, (f x).1 h.0, rest.1 h.1),
    )

pub sequenced_iff :
    (i : ℕ) (es : List StagingRelayEvent) → (sequenced_from i es ≡ true) ↔ IsSequencedFrom i es
sequenced_iff i [] = (λ _. tt, λ _. refl)
sequenced_iff i (e ∷ es) = ground (arith, sequenced_iff (suc i) es)

pub numbered_iff :
    (i : ℕ) (cs : List TrackingCandidate) → (numbered_from i cs ≡ true) ↔ AreNumberedFrom i cs
numbered_iff i [] = (λ _. tt, λ _. refl)
numbered_iff i (c ∷ cs) = ground (arith, numbered_iff (suc i) cs)

IsTrimmed-iff : (t : Option String) → (is_trimmed t ≡ true) ↔ IsTrimmed t
IsTrimmed-iff none = (λ _. tt, λ _. refl)
IsTrimmed-iff (some t) = (
  λ h. same_codes-eq (codes t) (trim (codes t)) h,
  λ h. subst (λ cs. same_codes (codes t) cs ≡ true) h (same_codes_refl (codes t)),
)

pub IsCanonicalRow-iff : (e : StagingRelayEvent) → (is_canonical_row e ≡ true) ↔ IsCanonicalRow e
IsCanonicalRow-iff e = (
  λ h. record {
    trimmed = (IsTrimmed-iff (base_of e).relay_text).0 (ground arith);
    manual_text = λ m. ground arith;
    manual_observation = λ m. ground arith;
    batted = ground arith;
  },
  λ h. ground (
    arith,
    (IsTrimmed-iff (base_of e).relay_text).1 h.trimmed,
    h.manual_text,
    h.manual_observation,
    h.batted,
  ),
)

pub duplicate_iff :
    (ids : List ℕ) (own : ℕ) (r : TrackingResolution)
    → ((not (is_own_duplicate own r) && not (is_missing_duplicate (set_of [] ids) r)) ≡ true)
      ↔ DuplicateHolds ids own r
duplicate_iff ids own (TrackingResolution.duplicate k) = (
  λ h. (ground arith, ground (arith, contains-occurrences k ids, contains-set_of k [] ids)),
  λ h. ground (arith, h.0, contains-occurrences k ids, contains-set_of k [] ids),
)
duplicate_iff ids own TrackingResolution.pending = (λ _. tt, λ _. refl)
duplicate_iff ids own (TrackingResolution.linked k) = (λ _. tt, λ _. refl)
duplicate_iff ids own (TrackingResolution.excluded r text) = (λ _. tt, λ _. refl)

-- ===== src/Correction/Structure.antt =====
-- What the commands of packages/correction/src/commands.ts keep of a document besides its rows: the
-- header, the players, the official records, and the identifiers and duplicates of the candidates.
use kbo_workbench.Prelude.{
  All, List, Option-cases, [], arith, if◌then◌else◌, inl, inr, map, none, refl, some, suc, true,
  zero, ℕ, ◌++◌, ◌+◌, ◌==◌, ◌∷◌, ◌≡◌, ◌≢◌, ◌≤◌,
}
use kbo_workbench.Collections.Distinct.{occurrences}
use kbo_workbench.Contracts.Canonical.{DuplicateHolds, IsCanonical, tracking_ids}
use kbo_workbench.Contracts.Document.{
  Metadata, OfficialRecords, Rosters, StagingGameDocumentV2, Teams,
}
use kbo_workbench.Contracts.Event.{PlayerId}
use kbo_workbench.Contracts.Semantics.{is_calendar_date, player_ids}
use kbo_workbench.Contracts.Tracking.{TrackingCandidate}
use kbo_workbench.Correction.Links.{All-map}
use kbo_workbench.Correction.Rosters.{has_id, index_where, put_record}
use kbo_workbench.Correction.Rows.{replace_at}

pub record HeadHolds (m : Metadata) (t : Teams) (r : Rosters) (o : OfficialRecords) : Type 0 where
  pub date : is_calendar_date m.game_date ≡ true
  pub two_teams : t.away.team_id ≢ t.home.team_id
  pub away_team : r.away.team_id ≡ t.away.team_id
  pub home_team : r.home.team_id ≡ t.home.team_id
  pub players : (k : ℕ) → occurrences k (player_ids r.away ++ player_ids r.home) ≤ 1
  pub batters : (k : ℕ) → occurrences k (map (λ b. b.player_id) o.batters) ≤ 1
  pub pitchers : (k : ℕ) → occurrences k (map (λ p. p.player_id) o.pitchers) ≤ 1

pub record CandidatesHold (cs : List TrackingCandidate) : Type 0 where
  pub candidates : (k : ℕ) → occurrences k (tracking_ids cs) ≤ 1
  pub duplicates : All (λ c. DuplicateHolds (tracking_ids cs) c.tracking_id c.resolution) cs

pub record IsStructured (d : StagingGameDocumentV2) : Type 0 where
  pub head : HeadHolds d.metadata d.teams d.rosters d.official_records
  pub tracking : CandidatesHold d.tracking_candidates

pub IsCanonical-IsStructured : (d : StagingGameDocumentV2) → IsCanonical d → IsStructured d
IsCanonical-IsStructured d c = record {
  head = record {
    date = c.date;
    two_teams = c.two_teams;
    away_team = c.away_team;
    home_team = c.home_team;
    players = c.players;
    batters = c.batters;
    pitchers = c.pitchers;
  };
  tracking = record { candidates = c.candidates; duplicates = c.duplicates };
}

-- A change of a candidate that keeps its identifier.
abbrev pub KeepsId : (TrackingCandidate → TrackingCandidate) → Type 0
KeepsId f = (c : TrackingCandidate) → (f c).tracking_id ≡ c.tracking_id

tracking_ids-map :
    (f : TrackingCandidate → TrackingCandidate) (cs : List TrackingCandidate)
    → KeepsId f
    → tracking_ids (map f cs) ≡ tracking_ids cs
tracking_ids-map f [] k = refl
tracking_ids-map f (c ∷ cs) k = rw (k c, tracking_ids-map f cs k) refl

pub CandidatesHold-map :
    (f : TrackingCandidate → TrackingCandidate) (cs : List TrackingCandidate)
    → KeepsId f
    → ((c : TrackingCandidate)
        → DuplicateHolds (tracking_ids cs) c.tracking_id c.resolution
        → DuplicateHolds (tracking_ids cs) c.tracking_id (f c).resolution)
    → CandidatesHold cs
    → CandidatesHold (map f cs)
CandidatesHold-map f cs k h v = record {
  candidates = λ j. rw (tracking_ids-map f cs k) (v.candidates j);
  duplicates = rw (tracking_ids-map f cs k) (
      All-map (λ c. DuplicateHolds (tracking_ids cs) c.tracking_id c.resolution)
        (λ c. DuplicateHolds (tracking_ids cs) c.tracking_id c.resolution) f cs
        (λ c d. rw (k c) (h c d)) v.duplicates);
}

module _ {ℓ} {D : Type ℓ} (key : D → PlayerId) where
  pub map-replace_at :
      (id : PlayerId) (x : D) (xs : List D) (i : ℕ)
      → index_where (has_id key id) xs ≡ some i
      → key x ≡ id
      → map key (replace_at i x xs) ≡ map key xs
  map-replace_at id x [] i h e = ground arith
  map-replace_at id x (y ∷ ys) zero h e = elim (Option-cases (index_where (has_id key id) ys)) [
    | inl gone ↦ ground arith
    | inr (j, found) ↦ ground arith
  ]
  map-replace_at id x (y ∷ ys) (suc i) h e = elim (Option-cases (index_where (has_id key id) ys)) [
    | inl gone ↦ ground arith
    | inr (j, found) ↦ ground (arith, map-replace_at id x ys j found e)
  ]

  index_where-none :
      (id : PlayerId) (xs : List D)
      → index_where (has_id key id) xs ≡ none
      → occurrences id (map key xs) ≡ 0
  index_where-none id [] h = refl
  index_where-none id (y ∷ ys) h = elim (Option-cases (index_where (has_id key id) ys)) [
    | inl gone ↦ ground (arith, index_where-none id ys gone)
    | inr (j, found) ↦ ground arith
  ]

  occurrences-map-append :
      (k : ℕ) (r : D) (rs : List D)
      → occurrences k (map key (rs ++ r ∷ []))
        ≡ occurrences k (map key rs) + (if k == key r then 1 else 0)
  occurrences-map-append k r [] = ground arith
  occurrences-map-append k r (x ∷ rs) = ground (arith, occurrences-map-append k r rs)

  pub occurrences-put_record :
      (id : PlayerId) (r : D) (rs : List D)
      → key r ≡ id
      → ((k : ℕ) → occurrences k (map key rs) ≤ 1)
      → (k : ℕ) → occurrences k (map key (put_record r rs (index_where (has_id key id) rs))) ≤ 1
  occurrences-put_record id r rs e h k = elim (Option-cases (index_where (has_id key id) rs)) [
    | inl gone ↦
        rw gone (ground (arith, occurrences-map-append k r rs, index_where-none id rs gone, h k))
    | inr (i, found) ↦ rw found (rw (map-replace_at id r rs i found e) (h k))
  ]

-- ===== src/Contracts/Validated.antt =====
-- The semantic check of packages/contracts/src/game-document.ts against its description: each loop
-- is empty exactly when a test on the list holds.
use kbo_workbench.Prelude.{
  All, Bool, List, [], add_new, all, ap, arith, contains, false, map, not, refl, suc, sym, true, ℕ,
  ◌&&◌, ◌++◌, ◌==◌, ◌↔◌, ◌∙◌, ◌∷◌, ◌≡◌, ◌≢◌,
}
use kbo_workbench.Collections.Distinct.{
  is_nil, is_nil-append, is_nil-eq, no_repeat, no_repeat-append, no_repeat_iff, set_of,
}
use kbo_workbench.Contracts.Canonical.{
  DuplicateHolds, IsCanonical, IsCanonicalRow, all-All, IsCanonicalRow-iff, duplicate_holds,
  duplicate_iff, is_canonical_row, numbered_from, numbered_iff, row_ids, sequenced_from,
  sequenced_iff, tracking_ids,
}
use kbo_workbench.Contracts.Document.{StagingGameDocumentV2}
use kbo_workbench.Contracts.Event.{EventId, PlayerId, StagingRelayEvent, base_of, event_id_of}
use kbo_workbench.Contracts.Semantics.{
  ContractIssueCode, IssuePath, candidate_issues, duplicate_issues, event_issues, header_issues,
  is_calendar_date, issue_if, player_ids, repeated_issues, row_issues,
  validate_staging_game_document_v2_semantics,
}
use kbo_workbench.Contracts.Tracking.{TrackingCandidate}

is_nil-issue_if :
    (b : Bool) (c : ContractIssueCode) (p : IssuePath) → is_nil (issue_if b c p) ≡ not b
is_nil-issue_if true c p = refl
is_nil-issue_if false c p = refl

is_nil-repeated_issues :
    (c : ContractIssueCode) (path : ℕ → IssuePath) (i : ℕ) (seen ps : List PlayerId)
    → is_nil (repeated_issues c path i seen ps) ≡ no_repeat seen ps
unfolding repeated_issues
is_nil-repeated_issues c path i seen [] = refl
is_nil-repeated_issues c path i seen (p ∷ ps) = ground (
  arith,
  is_nil-append (issue_if (contains p seen) c (path i))
      (repeated_issues c path (suc i) (add_new p seen) ps),
  is_nil-issue_if (contains p seen) c (path i),
  is_nil-repeated_issues c path (suc i) (add_new p seen) ps,
)

is_nil-row_issues :
    (i : ℕ) (seen : List EventId) (e : StagingRelayEvent)
    → is_nil (row_issues i seen e)
      ≡ (((base_of e).sequence == i) && not (contains (event_id_of e) seen)) && is_canonical_row e
is_nil-row_issues i seen e = simp (is_nil-append, is_nil-issue_if) (ground arith)

-- Tests of one row and of the rest, taken together by what they test.
&&_regroup :
    (a b c x y z : Bool) → ((a && b) && c) && ((x && y) && z) ≡ ((a && x) && (b && y)) && (c && z)
&&_regroup false b c x y z = refl
&&_regroup true false c false y z = refl
&&_regroup true false c true y z = refl
&&_regroup true true c x y z = ground arith

is_nil-event_issues :
    (i : ℕ) (seen : List EventId) (es : List StagingRelayEvent)
    → is_nil (event_issues i seen es)
      ≡ (sequenced_from i es && no_repeat seen (map event_id_of es)) && all is_canonical_row es
unfolding event_issues
is_nil-event_issues i seen [] = refl
is_nil-event_issues i seen (e ∷ es) =
    let next = add_new (event_id_of e) seen in
    is_nil-append (row_issues i seen e) (event_issues (suc i) next es)
    ∙ (λ k. is_nil-row_issues i seen e k && is_nil-event_issues (suc i) next es k)
    ∙ &&_regroup ((base_of e).sequence == i) (not (contains (event_id_of e) seen))
        (is_canonical_row e) (sequenced_from (suc i) es) (no_repeat next (map event_id_of es))
        (all is_canonical_row es)

is_nil-candidate_issues :
    (i : ℕ) (seen : List ℕ) (cs : List TrackingCandidate)
    → is_nil (candidate_issues i seen cs) ≡ numbered_from i cs && no_repeat seen (tracking_ids cs)
unfolding candidate_issues
is_nil-candidate_issues i seen [] = refl
is_nil-candidate_issues i seen (c ∷ cs) =
    simp
      (
        is_nil-append,
        is_nil-issue_if,
        is_nil-candidate_issues (suc i) (add_new c.tracking_id seen) cs,
      )
      (ground arith)

is_nil-duplicate_issues :
    (ids : List ℕ) (i : ℕ) (cs : List TrackingCandidate)
    → is_nil (duplicate_issues ids i cs) ≡ all (duplicate_holds ids) cs
unfolding duplicate_issues
is_nil-duplicate_issues ids i [] = refl
is_nil-duplicate_issues ids i (c ∷ cs) =
    simp (is_nil-append, is_nil-issue_if, is_nil-duplicate_issues ids (suc i) cs) refl

abbrev official_batters : StagingGameDocumentV2 → List PlayerId
official_batters d = map (λ r. r.player_id) d.official_records.batters

abbrev official_pitchers : StagingGameDocumentV2 → List PlayerId
official_pitchers d = map (λ r. r.player_id) d.official_records.pitchers

-- All tests of the document.
abbrev is_canonical : StagingGameDocumentV2 → Bool
is_canonical d =
    is_nil (header_issues d)
    && (no_repeat [] (player_ids d.rosters.away ++ player_ids d.rosters.home)
        && ((no_repeat [] (official_batters d) && no_repeat [] (official_pitchers d))
            && (((sequenced_from 0 d.events && no_repeat [] (row_ids d))
                  && all is_canonical_row d.events)
                && ((numbered_from 0 d.tracking_candidates
                      && no_repeat [] (tracking_ids d.tracking_candidates))
                    && all (duplicate_holds (set_of [] (tracking_ids d.tracking_candidates)))
                        d.tracking_candidates))))

is_nil-semantics :
    (d : StagingGameDocumentV2)
    → is_nil (validate_staging_game_document_v2_semantics d) ≡ is_canonical d
unfolding validate_staging_game_document_v2_semantics
is_nil-semantics d =
    simp
      (
        is_nil-append, is_nil-repeated_issues, no_repeat-append, is_nil-event_issues,
        is_nil-candidate_issues, is_nil-duplicate_issues,
      )
      refl

header_iff :
    (d : StagingGameDocumentV2)
    → (is_nil (header_issues d) ≡ true) ↔ (
        (is_calendar_date d.metadata.game_date ≡ true)
        × (d.teams.away.team_id ≢ d.teams.home.team_id)
        × (d.rosters.away.team_id ≡ d.teams.away.team_id)
        × (d.rosters.home.team_id ≡ d.teams.home.team_id))
header_iff d = (λ h. ground arith, λ h. ground arith)

-- Tests that hold together, each with what it means.
&&_iff {ℓ κ} :
    {P : Type ℓ} {Q : Type κ} (a b : Bool)
    → (a ≡ true) ↔ P
    → (b ≡ true) ↔ Q
    → ((a && b) ≡ true) ↔ (P × Q)
&&_iff true b p q = (λ h. (p.0 refl, q.0 h), λ h. q.1 h.1)
&&_iff false b p q = (λ h. ground arith, λ h. p.1 h.0)

candidates_iff :
    (d : StagingGameDocumentV2)
    → let ids = tracking_ids d.tracking_candidates in
      ((all (duplicate_holds (set_of [] ids)) d.tracking_candidates) ≡ true)
      ↔ All (λ c. DuplicateHolds ids c.tracking_id c.resolution) d.tracking_candidates
candidates_iff d =
    let ids = tracking_ids d.tracking_candidates in
    all-All (duplicate_holds (set_of [] ids)) (λ c. DuplicateHolds ids c.tracking_id c.resolution)
      d.tracking_candidates (λ c. duplicate_iff ids c.tracking_id c.resolution)

semantics_iff : (d : StagingGameDocumentV2) → (is_canonical d ≡ true) ↔ IsCanonical d
semantics_iff d =
    let rows =
      &&_iff _ _ (&&_iff _ _ (sequenced_iff 0 d.events) (no_repeat_iff (row_ids d)))
        (all-All is_canonical_row IsCanonicalRow d.events IsCanonicalRow-iff) in
    let tracking =
      &&_iff _ _
        (&&_iff _ _ (numbered_iff 0 d.tracking_candidates)
          (no_repeat_iff (tracking_ids d.tracking_candidates)))
        (candidates_iff d) in
    let official =
      &&_iff _ _ (no_repeat_iff (official_batters d)) (no_repeat_iff (official_pitchers d)) in
    let players = no_repeat_iff (player_ids d.rosters.away ++ player_ids d.rosters.home) in
    let whole =
      &&_iff _ _ (header_iff d)
        (&&_iff _ _ players (&&_iff _ _ official (&&_iff _ _ rows tracking))) in
    (
      (λ h.
          let p = whole.0 h in
          record {
            date = p.0.0;
            two_teams = p.0.1;
            away_team = p.0.2;
            home_team = p.0.3;
            players = p.1.0;
            batters = p.1.1.0.0;
            pitchers = p.1.1.0.1;
            sequenced = p.1.1.1.0.0.0;
            rows = p.1.1.1.0.0.1;
            canonical = p.1.1.1.0.1;
            numbered = p.1.1.1.1.0.0;
            candidates = p.1.1.1.1.0.1;
            duplicates = p.1.1.1.1.1;
          }),
      (λ c. whole.1 (
        (c.date, c.two_teams, c.away_team, c.home_team),
        (
          c.players,
          (
            (c.batters, c.pitchers),
            (((c.sequenced, c.rows), c.canonical), ((c.numbered, c.candidates), c.duplicates)),
          ),
        ),
      )),
    )

-- The semantic check finds no issue exactly when the document is canonical: the date is one of the
-- calendar; the teams are two and the rosters theirs; players, official records of a kind, rows and
-- tracking candidates have distinct identifiers; rows and candidates are numbered by their places;
-- each row is canonical; and a duplicate names another candidate of the document.
pub validate_semantics-IsCanonical :
    (d : StagingGameDocumentV2)
    → (validate_staging_game_document_v2_semantics d ≡ []) ↔ IsCanonical d
validate_semantics-IsCanonical d = (
  λ h. (semantics_iff d).0 (sym (is_nil-semantics d) ∙ ap is_nil h),
  λ c. is_nil-eq _ (is_nil-semantics d ∙ (semantics_iff d).1 c),
)

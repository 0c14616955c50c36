-- ===== src/Correction/Numbered.antt =====
-- Numbering the rows and the candidates, and following contexts, keep a document canonical.
use kbo_workbench.Prelude.{
  All, List, Option, [], ap, arith, count, is_some, map, refl, suc, sym, ℕ, ◌∙◌, ◌∷◌, ◌≡◌,
}
use kbo_workbench.Collections.Distinct.{occurrences}
use kbo_workbench.Contracts.Canonical.{
  AreNumberedFrom, DuplicateHolds, IsCanonical, IsCanonicalRow, IsSequencedFrom, tracking_ids,
}
use kbo_workbench.Contracts.Document.{StagingGameDocumentV2}
use kbo_workbench.Contracts.Event.{EventId, StagingRelayEvent, base_of, event_id_of}
use kbo_workbench.Contracts.Semantics.{has_forbidden_batted_ball, is_manual}
use kbo_workbench.Contracts.Tracking.{TrackingCandidate}
use kbo_workbench.Correction.Batch.{number_rows-IsSequenced, resequence-IsWellFormed}
use kbo_workbench.Correction.Commands.{number_candidates, resequence}
use kbo_workbench.Correction.Contexts.{
  follow_stable_tracking_plate_appearance_contexts, followed_context, set_context,
}
use kbo_workbench.Correction.Links.{IsWellFormed}
use kbo_workbench.Correction.Rows.{is_row, number_rows, set_sequence, with_events}
use kbo_workbench.Correction.Structure.{IsCanonical-IsStructured, IsStructured}
use kbo_workbench.Correction.StructuredCommands.{set_contexts-IsStructured}
use kbo_workbench.Facts.Document.{pitch_facts_of}
use kbo_workbench.Validation.Linked.{tracking_index}

occurrences-row_ids :
    (k : EventId) (es : List StagingRelayEvent)
    → occurrences k (map event_id_of es) ≡ count (is_row k) es
occurrences-row_ids k [] = refl
occurrences-row_ids k (e ∷ es) = ground (arith, occurrences-row_ids k es)

set_sequence_kept :
    (i : ℕ) (e : StagingRelayEvent)
    → ((base_of (set_sequence i e)).relay_text ≡ (base_of e).relay_text)
      × (is_manual (set_sequence i e) ≡ is_manual e)
      × (is_some (base_of (set_sequence i e)).observed_state_after
          ≡ is_some (base_of e).observed_state_after)
      × (has_forbidden_batted_ball (set_sequence i e) ≡ has_forbidden_batted_ball e)
set_sequence_kept i e = ground arith

IsCanonicalRow-set_sequence :
    (i : ℕ) (e : StagingRelayEvent) → IsCanonicalRow e → IsCanonicalRow (set_sequence i e)
IsCanonicalRow-set_sequence i e h =
    let (text, manual, observed, batted) = set_sequence_kept i e in
    record {
      trimmed = rw text h.trimmed;
      manual_text = λ m. rw text (h.manual_text (sym manual ∙ m));
      manual_observation = λ m. observed ∙ h.manual_observation (sym manual ∙ m);
      batted = batted ∙ h.batted;
    }

IsCanonicalRow-number_rows :
    (i : ℕ) (es : List StagingRelayEvent)
    → All IsCanonicalRow es
    → All IsCanonicalRow (number_rows i es)
unfolding number_rows
IsCanonicalRow-number_rows i [] h = tt
IsCanonicalRow-number_rows i (e ∷ es) h =
    (IsCanonicalRow-set_sequence i e h.0, IsCanonicalRow-number_rows (suc i) es h.1)

number_candidates-AreNumbered :
    (i : ℕ) (cs : List TrackingCandidate) → AreNumberedFrom i (number_candidates i cs)
number_candidates-AreNumbered i [] = tt
number_candidates-AreNumbered i (c ∷ cs) = (refl, number_candidates-AreNumbered (suc i) cs)

tracking_ids-number_candidates :
    (i : ℕ) (cs : List TrackingCandidate) → tracking_ids (number_candidates i cs) ≡ tracking_ids cs
tracking_ids-number_candidates i [] = refl
tracking_ids-number_candidates i (c ∷ cs) =
    ap (◌∷◌ c.tracking_id) (tracking_ids-number_candidates (suc i) cs)

DuplicateHolds-number_candidates :
    (ids : List ℕ) (i : ℕ) (cs : List TrackingCandidate)
    → All (λ c. DuplicateHolds ids c.tracking_id c.resolution) cs
    → All (λ c. DuplicateHolds ids c.tracking_id c.resolution) (number_candidates i cs)
DuplicateHolds-number_candidates ids i [] h = tt
DuplicateHolds-number_candidates ids i (c ∷ cs) h =
    (h.0, DuplicateHolds-number_candidates ids (suc i) cs h.1)

IsCanonical-from :
    (d : StagingGameDocumentV2)
    → IsStructured d
    → IsWellFormed d
    → IsSequencedFrom 0 d.events
    → All IsCanonicalRow d.events
    → AreNumberedFrom 0 d.tracking_candidates
    → IsCanonical d
IsCanonical-from d s w sequenced canonical numbered = record {
  date = s.head.date;
  two_teams = s.head.two_teams;
  away_team = s.head.away_team;
  home_team = s.head.home_team;
  players = s.head.players;
  batters = s.head.batters;
  pitchers = s.head.pitchers;
  sequenced = sequenced;
  rows = λ k. rw (occurrences-row_ids k d.events) (w.distinct k);
  canonical = canonical;
  numbered = numbered;
  candidates = s.tracking.candidates;
  duplicates = s.tracking.duplicates;
}

pub resequence-IsCanonical :
    (m : StagingGameDocumentV2)
    → IsStructured m
    → IsWellFormed m
    → All IsCanonicalRow m.events
    → IsCanonical (resequence m)
unfolding resequence with_events
resequence-IsCanonical m s w rows =
    let ids = tracking_ids-number_candidates 0 m.tracking_candidates in
    IsCanonical-from (resequence m)
      (record {
        head = s.head;
        tracking = record {
          candidates = λ k. rw ids (s.tracking.candidates k);
          duplicates = rw ids (
              DuplicateHolds-number_candidates (tracking_ids m.tracking_candidates) 0
                m.tracking_candidates s.tracking.duplicates);
        };
      })
      (resequence-IsWellFormed m w).0 (number_rows-IsSequenced 0 m.events)
      (IsCanonicalRow-number_rows 0 m.events rows)
      (number_candidates-AreNumbered 0 m.tracking_candidates)

AreNumbered-set_context :
    (f : TrackingCandidate → Option EventId) (i : ℕ) (cs : List TrackingCandidate)
    → AreNumberedFrom i cs
    → AreNumberedFrom i (map (λ c. set_context (f c) c) cs)
AreNumbered-set_context f i [] h = tt
AreNumbered-set_context f i (c ∷ cs) h =
    (ground (arith, h.0), AreNumbered-set_context f (suc i) cs h.1)

pub follow-IsCanonical :
    (before after : StagingGameDocumentV2)
    → IsCanonical after
    → IsCanonical (follow_stable_tracking_plate_appearance_contexts before after)
unfolding follow_stable_tracking_plate_appearance_contexts
follow-IsCanonical before after c =
    let f =
      followed_context (tracking_index before (pitch_facts_of before))
        (tracking_index after (pitch_facts_of after)) in
    let s = set_contexts-IsStructured after f (IsCanonical-IsStructured after c) in
    record {
      date = c.date;
      two_teams = c.two_teams;
      away_team = c.away_team;
      home_team = c.home_team;
      players = c.players;
      batters = c.batters;
      pitchers = c.pitchers;
      sequenced = c.sequenced;
      rows = c.rows;
      canonical = c.canonical;
      numbered = AreNumbered-set_context f 0 after.tracking_candidates c.numbered;
      candidates = s.tracking.candidates;
      duplicates = s.tracking.duplicates;
    }

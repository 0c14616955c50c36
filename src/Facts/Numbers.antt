-- ===== src/Facts/Numbers.antt =====
-- The numbers of the pitch facts of packages/game-core/src/compiler/derived-facts.ts.
use kbo_workbench.Prelude.{
  All, List, Option, [], any, ap, arith, contains, count, false, get_elem?, if◌then◌else◌, inl, inr,
  map, none, refl, some, ℕ, ◌++◌, ◌+◌, ◌∙◌, ◌∷◌, ◌≡◌, ◌≤◌, ◌⊎◌,
}
use kbo_workbench.Collections.Dict.{Dict, insert, lookup, lookup-insert}
use kbo_workbench.Collections.Distinct.{contains-occurrences, occurrences}
use kbo_workbench.Compiler.PlayIndex.{index_events}
use kbo_workbench.Compiler.Replay.{ReplayFrame}
use kbo_workbench.Contracts.Event.{EventId, PitchEvent, StagingRelayEvent, event_id_of}
use kbo_workbench.Facts.Numbering.{
  AllNumbered, IsNumberedIn, has_pitch, is_actual_id, is_pitch_id, plate_contexts-AllNumbered,
  plate_contexts-some,
}
use kbo_workbench.Facts.Pitch.{
  CompiledPitchFact, PlateContext, compile_pitch_facts, index_frames, pitch_fact, plate_contexts,
}
use kbo_workbench.Facts.PitchLaws.{facts_of_rows-All}
use kbo_workbench.Game.State.{PlateAppearanceSummary}

index_events-keeps :
    (k : EventId) (es : List StagingRelayEvent) (d : Dict StagingRelayEvent)
    → contains k (map event_id_of es) ≡ false
    → lookup k (index_events es d) ≡ lookup k d
index_events-keeps k [] d h = refl
index_events-keeps k (e ∷ es) d h =
    index_events-keeps k es (insert (event_id_of e) e d) (ground arith)
    ∙ (rw (lookup-insert k (event_id_of e) e d) (ground (arith, h)))

-- Rows of distinct identifiers are each found under their own.
index_events-finds :
    (es : List StagingRelayEvent) (d : Dict StagingRelayEvent)
    → ((k : EventId) → occurrences k (map event_id_of es) ≤ 1)
    → All (λ e. lookup (event_id_of e) (index_events es d) ≡ some e) es
index_events-finds [] d h = tt
index_events-finds (e ∷ es) d h =
    let k = event_id_of e in
    let absent : contains k (map event_id_of es) ≡ false =
      ground (arith, h k, contains-occurrences k (map event_id_of es)) in
    (
      index_events-keeps k es (insert k e d) absent ∙ rw (lookup-insert k k e d) (ground arith),
      index_events-finds es (insert k e d) (λ j. ground (arith, h j)),
    )

-- The fact of a pitch row has the numbers that the pitches before it in its plate appearance give.
pub record HasNumbers (rows : Dict StagingRelayEvent) (a : PlateAppearanceSummary)
    (f : CompiledPitchFact) : Type 0 where
  pub before : List EventId
  pub later : List EventId
  pub split : a.event_ids ≡ before ++ f.pitch_id ∷ later
  pub appearance : f.plate_appearance_event_id ≡ some a.start_event_id
  pub number : f.pitch_event_number ≡ some (count (is_pitch_id rows) before + 1)
  pub actual_number :
      f.actual_pitch_number
      ≡ (if f.actual then some (count (is_actual_id rows) before + 1) else none)

-- A fact belongs to no plate appearance and has no number, or to one, which numbers it.
abbrev pub IsNumbered :
    Dict StagingRelayEvent → List PlateAppearanceSummary → CompiledPitchFact → Type 0
IsNumbered rows appearances f =
    ((any (has_pitch f.pitch_id) appearances ≡ false)
      × (f.plate_appearance_event_id ≡ none)
      × (f.pitch_event_number ≡ none)
      × (f.actual_pitch_number ≡ none))
    ⊎ ((i : ℕ) × (a : PlateAppearanceSummary) × (get_elem? appearances i ≡ some a)
        × HasNumbers rows a f)

-- The context of a pitch is one that an appearance gives.
abbrev Numbers :
    Dict StagingRelayEvent → List PlateAppearanceSummary → EventId → PlateContext → Type 0
Numbers rows appearances k c =
    (i : ℕ) × (a : PlateAppearanceSummary) × (get_elem? appearances i ≡ some a)
    × IsNumberedIn rows a k c

pitch_fact-HasNumbers :
    (rows : Dict StagingRelayEvent) (a : PlateAppearanceSummary) (c : PlateContext) (p : PitchEvent)
    (frame : ReplayFrame)
    → lookup p.base.identity.event_id rows ≡ some (StagingRelayEvent.pitch p)
    → IsNumberedIn rows a p.base.identity.event_id c
    → HasNumbers rows a (pitch_fact (some c) p frame)
pitch_fact-HasNumbers rows a c p frame own n = record {
  before = n.before;
  later = n.later;
  split = n.split;
  appearance = ap some n.appearance;
  number = ap some n.number;
  actual_number = n.actual_number ∙ rw own refl;
}

pitch_fact-IsNumbered :
    (rows : Dict StagingRelayEvent) (appearances : List PlateAppearanceSummary) (p : PitchEvent)
    (frame : ReplayFrame) (o : Option PlateContext)
    → lookup p.base.identity.event_id rows ≡ some (StagingRelayEvent.pitch p)
    → lookup p.base.identity.event_id (plate_contexts rows appearances []) ≡ o
    → IsNumbered rows appearances (pitch_fact o p frame)
unfolding AllNumbered
pitch_fact-IsNumbered rows appearances p frame none own e =
    let k = p.base.identity.event_id in
    let absent = plate_contexts-some rows k appearances [] (rw own refl) in
    inl (ground (arith, e, absent), refl, refl, refl)
pitch_fact-IsNumbered rows appearances p frame (some c) own e =
    let k = p.base.identity.event_id in
    let (i, a, at, n) =
      plate_contexts-AllNumbered rows (Numbers rows appearances) appearances
        (λ i a at k c n. (i, a, at, n)) [] (λ k c h. cc) k c e in
    inr (i, a, at, pitch_fact-HasNumbers rows a c p frame own n)

-- In a ledger whose rows have distinct identifiers, the fact of a pitch that is among the rows of a
-- plate appearance bears the identifier of such an appearance, and its numbers there are one more
-- than the number of pitch rows, and of actual pitches, in front of it, the second one for an actual
-- pitch only. The fact of a pitch that is in no appearance has none of these.
pub compile_pitch_facts-IsNumbered :
    (events : List StagingRelayEvent) (appearances : List PlateAppearanceSummary)
    (frames : List ReplayFrame)
    → ((k : EventId) → occurrences k (map event_id_of events) ≤ 1)
    → All
        (IsNumbered (index_events events []) appearances)
        (compile_pitch_facts events appearances frames)
unfolding compile_pitch_facts
compile_pitch_facts-IsNumbered events appearances frames distinct =
    let rows = index_events events [] in
    facts_of_rows-All (λ e. lookup (event_id_of e) rows ≡ some e) (IsNumbered rows appearances)
      (plate_contexts rows appearances []) (index_frames frames [])
      (λ p frame own. pitch_fact-IsNumbered rows appearances p frame _ own refl) events
      (index_events-finds events [] distinct)

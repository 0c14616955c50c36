-- ===== src/Facts/PitchLaws.antt =====
-- The pitch facts against the rows of the ledger and the rule of counts.
use kbo_workbench.Prelude.{
  All, List, Option, Option-cases, [], arith, contains, inl, inr, is_some, map, refl, true, ◌||◌,
  ◌∷◌, ◌≡◌,
}
use kbo_workbench.Collections.Dict.{Dict, insert, lookup, lookup-insert}
use kbo_workbench.Compiler.Ledger.{walk_document}
use kbo_workbench.Compiler.PlayIndex.{index_events}
use kbo_workbench.Compiler.Replay.{ReplayFrame}
use kbo_workbench.Compiler.Timeline.{walk_document-frames}
use kbo_workbench.Contracts.Document.{StagingGameDocumentV2}
use kbo_workbench.Contracts.Event.{EventId, PitchEvent, StagingRelayEvent, event_id_of}
use kbo_workbench.Facts.Pitch.{
  CompiledPitchFact, PlateContext, compile_pitch_facts, facts_of_row, facts_of_rows, index_frames,
  is_actual_pitch, is_called_strike, is_swing, is_whiff, pitch_fact, plate_contexts,
}
use kbo_workbench.Game.State.{PlateAppearanceSummary}
use kbo_workbench.Rules.Counts.{apply_pitch_call}

-- A fact and the count rule of its call agree on what a pitch and what a strike is.
abbrev pub AgreesWithCount : CompiledPitchFact → Type 0
AgreesWithCount f =
    let next = apply_pitch_call f.before.balls f.before.strikes f.call in
    (f.actual ≡ next.is_actual_pitch)
    × (f.strike ≡ next.is_pitching_strike)
    × (f.csw ≡ true → f.strike ≡ true)

pitch_fact-agrees :
    (context : Option PlateContext) (p : PitchEvent) (frame : ReplayFrame)
    → AgreesWithCount (pitch_fact context p frame)
unfolding is_actual_pitch is_called_strike is_swing is_whiff apply_pitch_call
pitch_fact-agrees context p frame = ground arith

-- What holds of the fact of each pitch row, where the rows are as `Q` says.
module _ (Q : StagingRelayEvent → Type 0) (P : CompiledPitchFact → Type 0) where
  pub facts_of_rows-All :
      (contexts : Dict PlateContext) (frames : Dict ReplayFrame)
      → ((p : PitchEvent) (frame : ReplayFrame)
          → Q (StagingRelayEvent.pitch p)
          → P (pitch_fact (lookup p.base.identity.event_id contexts) p frame))
      → (es : List StagingRelayEvent) → All Q es
      → All P (facts_of_rows contexts frames es)
  unfolding facts_of_rows facts_of_row
  facts_of_rows-All contexts frames h [] q = tt
  facts_of_rows-All contexts frames h (StagingRelayEvent.pitch p ∷ es) q =
      elim (Option-cases (lookup p.base.identity.event_id frames)) [
        | inl e ↦ rw (e, facts_of_row) (facts_of_rows-All contexts frames h es q.1)
        | inr (frame, e) ↦
            rw (e, facts_of_row) (h p frame q.0, facts_of_rows-All contexts frames h es q.1)
      ]
  facts_of_rows-All contexts frames h (_ ∷ es) q = facts_of_rows-All contexts frames h es q.1

All-Unit : (es : List StagingRelayEvent) → All (λ e. Unit {0}) es
All-Unit [] = tt
All-Unit (e ∷ es) = (tt, All-Unit es)

-- Every pitch fact agrees with the count rule of its call: it is an actual pitch, and a strike,
-- exactly when the rule says so; and a called strike or a whiff is a strike.
pub compile_pitch_facts-AgreesWithCount :
    (events : List StagingRelayEvent) (appearances : List PlateAppearanceSummary)
    (frames : List ReplayFrame)
    → All AgreesWithCount (compile_pitch_facts events appearances frames)
unfolding compile_pitch_facts
compile_pitch_facts-AgreesWithCount events appearances frames =
    let contexts = plate_contexts (index_events events []) appearances [] in
    facts_of_rows-All (λ e. Unit) AgreesWithCount contexts (index_frames frames [])
      (λ p frame q. pitch_fact-agrees (lookup p.base.identity.event_id contexts) p frame) events
      (All-Unit events)

-- The identifiers of the pitch rows.
abbrev pitch_ids : List StagingRelayEvent → List EventId
pitch_ids [] = []
pitch_ids (StagingRelayEvent.pitch p ∷ es) = p.base.identity.event_id ∷ pitch_ids es
pitch_ids (_ ∷ es) = pitch_ids es

index_frames-lookup :
    (k : EventId) (fs : List ReplayFrame) (d : Dict ReplayFrame)
    → contains k (map (λ f. f.event_id) fs) || is_some (lookup k d) ≡ true
    → is_some (lookup k (index_frames fs d)) ≡ true
index_frames-lookup k [] d h = h
index_frames-lookup k (f ∷ fs) d h =
    index_frames-lookup k fs (insert f.event_id f d)
      (rw (lookup-insert k f.event_id f d) (ground arith))

facts_of_rows-ids :
    (contexts : Dict PlateContext) (frames : Dict ReplayFrame) (es : List StagingRelayEvent)
    → All (λ e. is_some (lookup (event_id_of e) frames) ≡ true) es
    → map (λ f. f.pitch_id) (facts_of_rows contexts frames es) ≡ pitch_ids es
unfolding facts_of_rows facts_of_row
facts_of_rows-ids contexts frames [] h = refl
facts_of_rows-ids contexts frames (StagingRelayEvent.pitch p ∷ es) h =
    elim (Option-cases (lookup p.base.identity.event_id frames)) [
      | inl e ↦ cc
      | inr (frame, e) ↦ rw (e, facts_of_row, facts_of_rows-ids contexts frames es h.1) refl
    ]
facts_of_rows-ids contexts frames (StagingRelayEvent.half_inning_start _ ∷ es) h =
    facts_of_rows-ids contexts frames es h.1
facts_of_rows-ids contexts frames (_ ∷ es) h = facts_of_rows-ids contexts frames es h.1

contains-All :
    (P : EventId → Type 0) (es : List StagingRelayEvent)
    → ((k : EventId) → contains k (map event_id_of es) ≡ true → P k)
    → All (λ e. P (event_id_of e)) es
contains-All P [] h = tt
contains-All P (e ∷ es) h =
    (h (event_id_of e) (ground arith), contains-All P es (λ k found. h k (ground arith)))

-- For every document, the pitch facts behind the walk are, in order and one for one, the pitch
-- rows of the ledger: none is dropped for want of a frame.
pub compile_pitch_facts-ids :
    (document : StagingGameDocumentV2) (appearances : List PlateAppearanceSummary)
    → map
        (λ f. f.pitch_id)
        (compile_pitch_facts document.events appearances (walk_document document).frames)
      ≡ pitch_ids document.events
unfolding compile_pitch_facts
compile_pitch_facts-ids document appearances =
    let frames = (walk_document document).frames in
    facts_of_rows-ids (plate_contexts (index_events document.events []) appearances [])
      (index_frames frames []) document.events
      (contains-All (λ k. is_some (lookup k (index_frames frames [])) ≡ true) document.events
        (λ k found.
          index_frames-lookup k frames [] (rw (walk_document-frames document) (ground arith))))

-- ===== src/Facts/Pitch.antt =====
-- `compilePitchFacts` of packages/game-core/src/compiler/derived-facts.ts. The speed and the type of
-- a pitch are copied for display and are left out, as in the rows.
use mathlib.Core.Option
use kbo_workbench.Prelude.{
  Bool, List, Option, [], false, if◌then◌else◌, none, or_option, some, suc, true, ℕ, ◌++◌, ◌||◌,
  ◌∷◌,
}
use kbo_workbench.Collections.Dict.{Dict, insert, lookup}
use kbo_workbench.Compiler.PlayIndex.{index_events}
use kbo_workbench.Compiler.Replay.{ReplayFrame}
use kbo_workbench.Contracts.Event.{
  EventId, Half, PitchCall, PitchEvent, PlayerId, StagingRelayEvent,
}
use kbo_workbench.Game.State.{GameState, PlateAppearance, PlateAppearanceSummary}

-- `CompiledPitchFact`
pub record CompiledPitchFact : Type 0 where
  pub pitch_id : EventId
  pub sequence : ℕ
  pub inning : ℕ
  pub half : Half
  pub plate_appearance_event_id : Option EventId
  pub pitch_event_number : Option ℕ
  pub actual_pitch_number : Option ℕ
  pub batter_id : Option PlayerId
  pub pitcher_id : Option PlayerId
  pub source_pitch_id : Option ℕ
  pub call : PitchCall
  pub actual : Bool
  pub ball : Bool
  pub called_strike : Bool
  pub swing : Bool
  pub whiff : Bool
  pub foul : Bool
  pub in_play : Bool
  pub strike : Bool
  pub csw : Bool
  pub before : GameState
  pub after : GameState

-- The entries of `plateContext`.
pub record PlateContext : Type 0 where
  pub plate_appearance_event_id : EventId
  pub pitch_event_number : ℕ
  pub actual_pitch_number : Option ℕ

unfoldable pub is_actual_pitch : PitchCall → Bool
is_actual_pitch PitchCall.automatic_ball = false
is_actual_pitch PitchCall.automatic_strike = false
is_actual_pitch PitchCall.no_pitch = false
is_actual_pitch _ = true

pub is_ball : PitchCall → Bool
is_ball PitchCall.ball = true
is_ball _ = false

unfoldable pub is_called_strike : PitchCall → Bool
is_called_strike PitchCall.called_strike = true
is_called_strike _ = false

unfoldable pub is_swing : PitchCall → Bool
is_swing PitchCall.swinging_strike = true
is_swing PitchCall.foul = true
is_swing PitchCall.foul_bunt = true
is_swing PitchCall.foul_tip = true
is_swing PitchCall.in_play = true
is_swing _ = false

unfoldable pub is_whiff : PitchCall → Bool
is_whiff PitchCall.swinging_strike = true
is_whiff _ = false

pub is_foul : PitchCall → Bool
is_foul PitchCall.foul = true
is_foul PitchCall.foul_bunt = true
is_foul PitchCall.foul_tip = true
is_foul _ = false

pub is_in_play : PitchCall → Bool
is_in_play PitchCall.in_play = true
is_in_play _ = false

abbrev pub pitch_of : Option StagingRelayEvent → Option PitchEvent
pitch_of (some (StagingRelayEvent.pitch p)) = some p
pitch_of _ = none

-- `actual ? actualPitchNumber : null`, the number counted with this pitch.
abbrev pub plate_context : EventId → ℕ → ℕ → PitchEvent → PlateContext
plate_context start events actual p = record {
  plate_appearance_event_id = start;
  pitch_event_number = events;
  actual_pitch_number = if is_actual_pitch p.payload.call then some actual else none;
}

abbrev pub next_actual : ℕ → PitchEvent → ℕ
next_actual n p = if is_actual_pitch p.payload.call then suc n else n

-- The inner loop: the rows of one plate appearance, with the numbers reached so far.
unfoldable pub number_pitches :
    Dict StagingRelayEvent → EventId → ℕ → ℕ → List EventId → Dict PlateContext → Dict PlateContext
number_pitches rows start n m [] contexts = contexts
number_pitches rows start n m (e ∷ es) contexts = elim (pitch_of (lookup e rows)) [
  | none ↦ number_pitches rows start n m es contexts
  | some p ↦
      number_pitches rows start (suc n) (next_actual m p) es
        (insert e (plate_context start (suc n) (next_actual m p) p) contexts)
]

-- The outer loop over the plate appearances.
unfoldable pub plate_contexts :
    Dict StagingRelayEvent → List PlateAppearanceSummary → Dict PlateContext → Dict PlateContext
unfolding number_pitches
plate_contexts rows [] contexts = contexts
plate_contexts rows (a ∷ rest) contexts =
    plate_contexts rows rest (number_pitches rows a.start_event_id 0 0 a.event_ids contexts)

-- `new Map(frames.map((frame) => [frame.eventId, frame]))`
abbrev pub index_frames : List ReplayFrame → Dict ReplayFrame → Dict ReplayFrame
index_frames [] d = d
index_frames (f ∷ fs) d = index_frames fs (insert f.event_id f d)

abbrev current_batter : Option PlateAppearance → Option PlayerId
current_batter o = Option.map (λ a. a.current_batter_id) o

abbrev current_pitcher : Option PlateAppearance → Option PlayerId
current_pitcher o = Option.map (λ a. a.current_pitcher_id) o

abbrev pub pitch_fact : Option PlateContext → PitchEvent → ReplayFrame → CompiledPitchFact
pitch_fact context p frame =
    let call = p.payload.call in
    let appearance = frame.before.active_plate_appearance in
    record {
      pitch_id = p.base.identity.event_id;
      sequence = p.base.sequence;
      inning = p.base.inning;
      half = p.base.half;
      plate_appearance_event_id = Option.map (λ c. c.plate_appearance_event_id) context;
      pitch_event_number = Option.map (λ c. c.pitch_event_number) context;
      actual_pitch_number = elim context [ none ↦ none | some c ↦ c.actual_pitch_number ];
      batter_id = or_option p.payload.batter_id (current_batter appearance);
      pitcher_id = or_option p.payload.pitcher_id (current_pitcher appearance);
      source_pitch_id = p.payload.source_pitch_id;
      call = call;
      actual = is_actual_pitch call;
      ball = is_ball call;
      called_strike = is_called_strike call;
      swing = is_swing call;
      whiff = is_whiff call;
      foul = is_foul call;
      in_play = is_in_play call;
      strike = is_called_strike call || is_swing call;
      csw = is_called_strike call || is_whiff call;
      before = frame.before;
      after = frame.after;
    }

-- The facts of one row: at most one.
unfoldable pub facts_of_row :
    Dict PlateContext → Dict ReplayFrame → StagingRelayEvent → List CompiledPitchFact
facts_of_row contexts frames (StagingRelayEvent.pitch p) =
    elim (lookup p.base.identity.event_id frames) [
      | none ↦ []
      | some frame ↦ pitch_fact (lookup p.base.identity.event_id contexts) p frame ∷ []
    ]
facts_of_row contexts frames _ = []

unfoldable pub facts_of_rows :
    Dict PlateContext → Dict ReplayFrame → List StagingRelayEvent → List CompiledPitchFact
unfolding facts_of_row
facts_of_rows contexts frames [] = []
facts_of_rows contexts frames (e ∷ es) =
    facts_of_row contexts frames e ++ facts_of_rows contexts frames es

unfoldable pub compile_pitch_facts :
    List StagingRelayEvent → List PlateAppearanceSummary → List ReplayFrame → List CompiledPitchFact
unfolding plate_contexts facts_of_rows
compile_pitch_facts events appearances frames =
    facts_of_rows (plate_contexts (index_events events []) appearances []) (index_frames frames [])
      events

-- ===== src/Compiler/Ledger.antt =====
-- The walk over the ledger in `compileStagingGameDocumentV2` of packages/game-core/src/reducer.ts.
use kbo_workbench.Prelude.{
  Bool, List, [], drop, false, if◌then◌else◌, length, none, some, true, ◌++◌, ◌∷◌,
}
use kbo_workbench.Collections.Dict.{Dict, insert, lookup}
use kbo_workbench.Compiler.Context.{CompileContext}
use kbo_workbench.Compiler.EventTransition.{apply_ledger_event}
use kbo_workbench.Compiler.Headers.{find_batter_headers_confirmed_by_substitution}
use kbo_workbench.Compiler.PlatePlay.{Applied, EventApplication, relay_texts_of}
use kbo_workbench.Compiler.Replay.{
  AttachedPlay, CompiledPlay, ReplayFrame, bunt_strikeout_pitch_ids,
  hit_by_pitch_terminal_pitch_ids,
}
use kbo_workbench.Compiler.Reviews.{build_play_index}
use kbo_workbench.Compiler.RowChecks.{Links, attached_rows, compare_row, local_context, row_applied}
use kbo_workbench.Compiler.State.{initial_state, player_sides}
use kbo_workbench.Contracts.Document.{StagingGameDocumentV2}
use kbo_workbench.Contracts.Event.{EventId, StagingRelayEvent, base_of, event_id_of, kind_of}
use kbo_workbench.Game.State.{GameState}

-- What the walk changes.
pub record Run : Type 0 where
  pub state : GameState
  pub context : CompileContext
  pub frames : List ReplayFrame
  pub plays : List CompiledPlay
  pub attached : Dict AttachedPlay

-- The context behind a row: all that the row changed, or its findings alone.
abbrev commit_context : Bool → CompileContext → CompileContext → CompileContext
commit_context true context local = record context {
  plate_appearances = local.plate_appearances;
  batter_lines = local.batter_lines;
  pitcher_lines = local.pitcher_lines;
  observation_mismatch_fields = local.observation_mismatch_fields;
  uncertain_rbi_batter_ids = local.uncertain_rbi_batter_ids;
  findings = local.findings;
}
commit_context false context local = record context { findings = local.findings }

-- What one row does: whether it was applied, its play, and the state and context behind it.
pub record RowOutcome : Type 0 where
  pub applied : Bool
  pub application : EventApplication
  pub state : GameState
  pub context : CompileContext

abbrev pub settle_row :
    Links → GameState → CompileContext → StagingRelayEvent → Applied → RowOutcome
settle_row links state context event a =
    let ok = row_applied event (drop (length context.findings) a.context.findings) in
    record {
      applied = ok;
      application = a.application;
      state = if ok then a.state else state;
      context =
          commit_context ok context
            (if ok then compare_row links state a.state event a.context else a.context);
    }

unfoldable pub apply_row : Links → GameState → CompileContext → StagingRelayEvent → RowOutcome
unfolding local_context row_applied compare_row
apply_row links state context event = settle_row links state context event (
    apply_ledger_event state event (attached_rows links (event_id_of event))
      (local_context links event context))

-- `[eventId]` where the application names no row.
abbrev rows_or_self {ℓ} : {A : Type ℓ} → List A → List A → List A
rows_or_self [] d = d
rows_or_self (x ∷ xs) d = x ∷ xs

abbrev play_rows : StagingRelayEvent → EventApplication → List EventId
play_rows event a = rows_or_self a.relay_event_ids (event_id_of event ∷ [])

abbrev pub play_of : StagingRelayEvent → GameState → RowOutcome → CompiledPlay
play_of event before o = record {
  play_id = event_id_of event;
  sequence = (base_of event).sequence;
  kind = kind_of event;
  inning = (base_of event).inning;
  half = (base_of event).half;
  relay_event_ids = play_rows event o.application;
  relay_texts = rows_or_self o.application.relay_texts (relay_texts_of (event ∷ []));
  before = before;
  after = o.state;
  applied = o.applied;
  movements = if o.applied then o.application.movements else [];
}

abbrev attached_play : CompiledPlay → AttachedPlay
attached_play p = record {
  play_id = p.play_id;
  before = p.before;
  after = p.after;
  applied = p.applied;
}

pub attach_play : List EventId → AttachedPlay → Dict AttachedPlay → Dict AttachedPlay
attach_play [] a d = d
attach_play (e ∷ es) a d = attach_play es a (insert e a d)

abbrev frame_of : StagingRelayEvent → AttachedPlay → ReplayFrame
frame_of event a = record {
  event_id = event_id_of event;
  sequence = (base_of event).sequence;
  kind = kind_of event;
  play_id = some a.play_id;
  before = a.before;
  after = a.after;
  applied = a.applied;
}

-- A row that a play has taken in gets the frame of that play.
abbrev pub attached_row : StagingRelayEvent → AttachedPlay → Run → Run
attached_row event a r = record r { frames = r.frames ++ frame_of event a ∷ [] }

abbrev pub own_row : StagingRelayEvent → RowOutcome → Run → Run
own_row event o r =
    let play = play_of event r.state o in
    record r {
      state = o.state;
      context = o.context;
      frames = r.frames ++ frame_of event (attached_play play) ∷ [];
      plays = r.plays ++ play ∷ [];
      attached = attach_play (drop 1 play.relay_event_ids) (attached_play play) r.attached;
    }

unfoldable pub walk_row : Links → StagingRelayEvent → Run → Run
unfolding apply_row attach_play
walk_row links event r = elim (lookup (event_id_of event) r.attached) [
  | none ↦ own_row event (apply_row links r.state r.context event) r
  | some a ↦ attached_row event a r
]

-- The `for` loop over the rows of the document.
unfoldable pub walk_rows : Links → List StagingRelayEvent → Run → Run
unfolding walk_row
walk_rows links [] r = r
walk_rows links (e ∷ es) r = walk_rows links es (walk_row links e r)

-- The context before the first row.
unfoldable pub initial_context : StagingGameDocumentV2 → CompileContext
unfolding player_sides find_batter_headers_confirmed_by_substitution
initial_context document = record {
  document = document;
  player_sides = player_sides document;
  findings = [];
  plate_appearances = [];
  batter_lines = [];
  pitcher_lines = [];
  batter_headers_confirmed_by_substitution = find_batter_headers_confirmed_by_substitution document;
  observation_mismatch_fields = [];
  uncertain_rbi_batter_ids = [];
}

unfoldable pub links_of : StagingGameDocumentV2 → Links
links_of document = record {
  index = build_play_index document;
  hit_by_pitch_pitches = hit_by_pitch_terminal_pitch_ids document.events;
  bunt_strikeout_pitches = bunt_strikeout_pitch_ids document.events;
}

unfoldable pub walk_document : StagingGameDocumentV2 → Run
unfolding walk_rows initial_context links_of initial_state
walk_document document = walk_rows (links_of document) document.events (record {
  state = initial_state;
  context = initial_context document;
  frames = [];
  plays = [];
  attached = [];
})

-- ===== src/Reducer/Compile.antt =====
-- `compileStagingGameDocumentV2` of packages/game-core/src/reducer.ts as a whole: the decoding of the
-- document, the ledger, the derived facts, the checks and the sorted output.
use kbo_workbench.Prelude.{List, [], ℕ, ◌∷◌}
use kbo_workbench.Collections.Sort.{sort_by}
use kbo_workbench.Compiler.Context.{CompileContext}
use kbo_workbench.Compiler.Finish.{compile_ledger}
use kbo_workbench.Compiler.Official.{compare_official_records}
use kbo_workbench.Compiler.Replay.{CompiledPlay, ReplayFrame}
use kbo_workbench.Contracts.Document.{StagingGameDocumentV2}
use kbo_workbench.Contracts.Semantics.{ContractIssue, validate_staging_game_document_v2_semantics}
use kbo_workbench.Facts.Baserunner.{BaserunnerLine, compile_baserunner_lines, values_of}
use kbo_workbench.Facts.Document.{pitch_facts_of}
use kbo_workbench.Facts.Pitch.{CompiledPitchFact}
use kbo_workbench.Game.Findings.{Finding}
use kbo_workbench.Game.Lines.{BatterLine, PitcherLine}
use kbo_workbench.Game.State.{GameState, PlateAppearanceSummary}
use kbo_workbench.Reducer.Order.{batter_le, finding_le, pitcher_le}
use kbo_workbench.Validation.Linked.{validate_tracking}

-- `earnedRuns: null` of every pitcher's line is a constant and is left out.
pub record ReplayResult : Type 0 where
  pub game_id : ℕ
  pub final_state : GameState
  pub frames : List ReplayFrame
  pub plays : List CompiledPlay
  pub plate_appearances : List PlateAppearanceSummary
  pub pitch_facts : List CompiledPitchFact
  pub batter_lines : List BatterLine
  pub pitcher_lines : List PitcherLine
  pub baserunner_lines : List BaserunnerLine
  pub findings : List Finding

-- The issues of a document that is thrown out, or the result.
pub data Compiled : Type 0 where
  thrown : List ContractIssue → Compiled
  compiled : ReplayResult → Compiled

-- The context behind the checks.
unfoldable pub checked_context : StagingGameDocumentV2 → CompileContext
unfolding compile_ledger validate_tracking compare_official_records pitch_facts_of
checked_context document =
    compare_official_records
      (validate_tracking document (pitch_facts_of document) (compile_ledger document).context)

unfoldable pub compile_document : StagingGameDocumentV2 → ReplayResult
unfolding compile_ledger checked_context pitch_facts_of compile_baserunner_lines finding_le
compile_document document =
    let r = compile_ledger document in
    let context = checked_context document in
    record {
      game_id = document.metadata.game_id;
      final_state = r.state;
      frames = r.frames;
      plays = r.plays;
      plate_appearances = context.plate_appearances;
      pitch_facts = pitch_facts_of document;
      batter_lines = sort_by batter_le (values_of context.batter_lines);
      pitcher_lines = sort_by pitcher_le (values_of context.pitcher_lines);
      baserunner_lines = compile_baserunner_lines r.plays context.player_sides;
      findings = sort_by finding_le context.findings;
    }

-- `parseStagingGameDocumentV2` throws on a document with issues.
unfoldable pub compile_staging_game_document_v2 : StagingGameDocumentV2 → Compiled
unfolding validate_staging_game_document_v2_semantics compile_document
compile_staging_game_document_v2 document =
    elim (validate_staging_game_document_v2_semantics document) [
      | [] ↦ compiled (compile_document document)
      | i ∷ is ↦ thrown (i ∷ is)
    ]

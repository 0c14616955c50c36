-- ===== src/Tests/Facts.antt =====
-- Witnesses for the derived facts.
use kbo_workbench.Prelude.{All, List, [], map, none, refl, true, ◌∷◌, ◌≡◌}
use kbo_workbench.Collections.Dict.{Dict}
use kbo_workbench.Collections.Distinct.{no_repeat_iff}
use kbo_workbench.Compiler.Finish.{compile_ledger}
use kbo_workbench.Compiler.Ledger.{walk_document}
use kbo_workbench.Compiler.PlayIndex.{index_events}
use kbo_workbench.Compiler.Replay.{CompiledPlay}
use kbo_workbench.Compiler.State.{initial_state}
use kbo_workbench.Contracts.Event.{
  Half, RunnerAdvanceReason, RunnerOutcome, Side, StagingRelayEventKind, event_id_of,
}
use kbo_workbench.Facts.Baserunner.{
  BaserunnerLine, compile_baserunner_lines, compile_baserunner_lines-totals, total,
}
use kbo_workbench.Facts.Numbers.{IsNumbered, compile_pitch_facts-IsNumbered}
use kbo_workbench.Facts.Pitch.{CompiledPitchFact, compile_pitch_facts}
use kbo_workbench.Facts.PitchLaws.{
  AgreesWithCount, compile_pitch_facts-AgreesWithCount, compile_pitch_facts-ids,
}
use kbo_workbench.Game.State.{CompiledRunnerMovement, GameState, MovementReason}
use kbo_workbench.Tests.Samples.{movement, sample_document}

abbrev sample_facts : List CompiledPitchFact
sample_facts =
    let r = compile_ledger sample_document in
    compile_pitch_facts sample_document.events r.context.plate_appearances r.frames

compile_pitch_facts-AgreesWithCount_example : All AgreesWithCount sample_facts
compile_pitch_facts-AgreesWithCount_example =
    compile_pitch_facts-AgreesWithCount sample_document.events
      (compile_ledger sample_document).context.plate_appearances
      (compile_ledger sample_document).frames

compile_pitch_facts-IsNumbered_example :
    All
      (IsNumbered
        (index_events sample_document.events [])
        (compile_ledger sample_document).context.plate_appearances)
      sample_facts
compile_pitch_facts-IsNumbered_example =
    compile_pitch_facts-IsNumbered sample_document.events
      (compile_ledger sample_document).context.plate_appearances
      (compile_ledger sample_document).frames
      ((no_repeat_iff (map event_id_of sample_document.events)).0 refl)

compile_pitch_facts-ids_example :
    map
      (λ f. f.pitch_id)
      (compile_pitch_facts sample_document.events [] (walk_document sample_document).frames)
    ≡ 102 ∷ 105 ∷ 106 ∷ []
compile_pitch_facts-ids_example = compile_pitch_facts-ids sample_document []

-- One play: a runner is sent home from third and another steals second.
abbrev stealing : CompiledRunnerMovement
stealing = record (movement 1 1 2 RunnerOutcome.safe none) {
  reason = MovementReason.advance RunnerAdvanceReason.stolen_base;
}

abbrev two_movements : List CompiledRunnerMovement
two_movements = movement 2 3 4 RunnerOutcome.scored none ∷ stealing ∷ []

abbrev one_play : GameState → CompiledPlay
one_play s = record {
  play_id = 7;
  sequence = 7;
  kind = StagingRelayEventKind.runner_advance;
  inning = 1;
  half = Half.top;
  relay_event_ids = 7 ∷ [];
  relay_texts = [];
  before = s;
  after = s;
  applied = true;
  movements = two_movements;
}

abbrev away_side : Dict Side
away_side = (1, Side.away) ∷ (2, Side.away) ∷ []

abbrev sample_lines : List BaserunnerLine
sample_lines = compile_baserunner_lines (one_play initial_state ∷ []) away_side

compile_baserunner_lines-totals_example :
    (total (λ l. l.runs) sample_lines ≡ 1)
    × (total (λ l. l.advances) sample_lines ≡ 2)
    × (total (λ l. l.stolen_bases) sample_lines ≡ 1)
compile_baserunner_lines-totals_example =
    compile_baserunner_lines-totals (one_play initial_state ∷ []) away_side

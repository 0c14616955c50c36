-- ===== src/Facts/Document.antt =====
-- The pitch facts of a compiled document, as packages/game-core/src/reducer.ts derives them.
use kbo_workbench.Prelude.{List}
use kbo_workbench.Compiler.Finish.{compile_ledger}
use kbo_workbench.Contracts.Document.{StagingGameDocumentV2}
use kbo_workbench.Facts.Pitch.{CompiledPitchFact, compile_pitch_facts}

unfoldable pub pitch_facts_of : StagingGameDocumentV2 → List CompiledPitchFact
unfolding compile_ledger compile_pitch_facts
pitch_facts_of document =
    let r = compile_ledger document in
    compile_pitch_facts document.events r.context.plate_appearances r.frames

-- ===== src/Compiler/Context.antt =====
-- `CompileContext` of packages/game-core/src/compiler/model.ts, and `addFinding` and `findingFor`
-- of compiler/findings.ts. A function that changes the context returns the new one, so the copies
-- that `cloneContext` and `cloneState` make are the values themselves.
use kbo_workbench.Prelude.{List, [], none, some, ◌++◌, ◌∷◌}
use kbo_workbench.Collections.Dict.{Dict}
use kbo_workbench.Contracts.Document.{StagingGameDocumentV2}
use kbo_workbench.Contracts.Event.{EventId, LedgerEventBase, PlayerId, Side}
use kbo_workbench.Game.Findings.{
  DetailField, DetailValue, Finding, FindingCategory, FindingCode, FindingDetail, FindingSeverity,
  ObservedField,
}
use kbo_workbench.Game.Lines.{BatterLine, PitcherLine}
use kbo_workbench.Game.State.{PlateAppearanceSummary}

pub record CompileContext : Type 0 where
  pub document : StagingGameDocumentV2
  pub player_sides : Dict Side
  pub findings : List Finding
  pub plate_appearances : List PlateAppearanceSummary
  pub batter_lines : Dict BatterLine
  pub pitcher_lines : Dict PitcherLine
  pub batter_headers_confirmed_by_substitution : List EventId
  pub observation_mismatch_fields : List ObservedField
  pub uncertain_rbi_batter_ids : List PlayerId

abbrev pub finding_for :
    CompileContext → LedgerEventBase → FindingCode → FindingCategory → List FindingDetail → Finding
finding_for context event c k details = record {
  code = c;
  category = k;
  severity = FindingSeverity.blocking;
  game_id = context.document.metadata.game_id;
  event_id = some event.identity.event_id;
  event_sequence = some event.sequence;
  record_identity = none;
  details = details;
}

abbrev pub push_finding : Finding → CompileContext → CompileContext
push_finding f context = record context { findings = context.findings ++ f ∷ [] }

abbrev pub add_finding :
    LedgerEventBase
    → FindingCode
    → FindingCategory
    → List FindingDetail
    → CompileContext
    → CompileContext
add_finding event c k details context = push_finding (finding_for context event c k details) context

-- A source finding and a domain finding without details.
abbrev pub source_finding : LedgerEventBase → FindingCode → CompileContext → CompileContext
source_finding event c = add_finding event c FindingCategory.source []

abbrev pub domain_finding : LedgerEventBase → FindingCode → CompileContext → CompileContext
domain_finding event c = add_finding event c FindingCategory.domain []

abbrev pub push_plate_appearance : PlateAppearanceSummary → CompileContext → CompileContext
push_plate_appearance pa context = record context {
  plate_appearances = context.plate_appearances ++ pa ∷ [];
}

-- `{ field, expected, actual }` with both values present.
abbrev pub detail : DetailField → DetailValue → DetailValue → FindingDetail
detail f e a = record { field = f; expected = some e; actual = some a }

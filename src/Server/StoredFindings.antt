-- ===== src/Server/StoredFindings.antt =====
-- `StoredFinding` of packages/contracts/src/workspace.ts, and mergePersistentSourceFindings,
-- storedFindingSnapshot and prepareCorrectionSnapshot of apps/server/src/correction-snapshot.ts. The hash of a document and the
-- canonical text of a finding are parameters.
use kbo_workbench.Prelude.{
  Bool, List, Option, String, [], any, contains, count, false, filter, if◌then◌else◌, map, none,
  not, or_else, some, true, ℕ, ◌&&◌, ◌++◌, ◌==◌, ◌∷◌,
}
use kbo_workbench.Contracts.Document.{StagingGameDocumentV2}
use kbo_workbench.Contracts.Event.{EventId, StagingRelayEvent, event_id_of}
use kbo_workbench.Game.Findings.{
  DetailField, DetailValue, Finding, FindingCategory, FindingDetail, FindingSeverity,
  RecordIdentity, is_blocking,
}
use kbo_workbench.Reducer.Compile.{ReplayResult}
use kbo_workbench.Reducer.Order.{code_text}

pub data FindingProducer : Type 0 where
  collection compiler correction migration : FindingProducer

pub data FindingLifecycle : Type 0 where
  persistent while_event_unresolved recomputed : FindingLifecycle

-- Messages are left out, as in `Finding`.
pub record StoredFinding : Type 0 where
  pub producer : FindingProducer
  pub lifecycle : FindingLifecycle
  pub code : String
  pub category : FindingCategory
  pub severity : FindingSeverity
  pub game_id : Option ℕ
  pub event_id : Option EventId
  pub endpoint : Option String
  pub event_sequence : Option ℕ
  pub record_identity : Option RecordIdentity
  pub details : List FindingDetail

-- What hashing and canonicalStringify give: numbers that stand for the texts.
pub record CanonicalText : Type 0 where
  pub document_hash : StagingGameDocumentV2 → ℕ
  pub finding_key : StoredFinding → ℕ

abbrev is_unresolved : StagingRelayEvent → Bool
is_unresolved (StagingRelayEvent.unresolved e) = true
is_unresolved _ = false

abbrev pub should_retain_stored_finding : StagingGameDocumentV2 → StoredFinding → Bool
should_retain_stored_finding d f = elim f.lifecycle [
  | FindingLifecycle.persistent ↦ true
  | FindingLifecycle.while_event_unresolved ↦ elim f.event_id [
    | none ↦ false
    | some k ↦ any (λ e. event_id_of e == k && is_unresolved e) d.events
  ]
  | FindingLifecycle.recomputed ↦ false
]

abbrev pub recomputed_finding : Finding → StoredFinding
recomputed_finding f = record {
  producer = FindingProducer.compiler;
  lifecycle = FindingLifecycle.recomputed;
  code = code_text f.code;
  category = f.category;
  severity = f.severity;
  game_id = none;
  event_id = f.event_id;
  endpoint = none;
  event_sequence = f.event_sequence;
  record_identity = f.record_identity;
  details = f.details;
}

-- The first finding of each key.
unfoldable pub first_of_each :
    (StoredFinding → ℕ) → List ℕ → List StoredFinding → List StoredFinding
first_of_each key seen [] = []
first_of_each key seen (f ∷ fs) =
    if contains (key f) seen
    then first_of_each key seen fs
    else f ∷ first_of_each key (key f ∷ seen) fs

unfoldable pub merge_persistent_source_findings :
    CanonicalText → List StoredFinding → List Finding → StagingGameDocumentV2 → List StoredFinding
unfolding first_of_each
merge_persistent_source_findings text stored current d =
    first_of_each text.finding_key []
      (filter (should_retain_stored_finding d) stored ++ map recomputed_finding current)

abbrev pub is_blocking_stored : StoredFinding → Bool
is_blocking_stored f = is_blocking f.severity

-- `CorrectionFinding`, what a client is shown of a finding. Messages are left out, as in `Finding`.
pub record CorrectionFinding : Type 0 where
  pub code : String
  pub category : FindingCategory
  pub severity : FindingSeverity
  pub game_id : ℕ
  pub event_id : Option EventId
  pub event_sequence : Option ℕ
  pub record_identity : Option RecordIdentity
  pub details : List FindingDetail

-- The endpoint of a finding as a detail in front of the others.
abbrev endpoint_details : Option String → List FindingDetail
endpoint_details none = []
endpoint_details (some e) =
    record { field = DetailField.endpoint; expected = none; actual = some (DetailValue.text e) }
    ∷ []

-- `storedFindingSnapshot`
unfoldable pub stored_finding_snapshot : ℕ → StoredFinding → CorrectionFinding
stored_finding_snapshot game_id f = record {
  code = f.code;
  category = f.category;
  severity = f.severity;
  game_id = or_else f.game_id game_id;
  event_id = f.event_id;
  event_sequence = f.event_sequence;
  record_identity = f.record_identity;
  details = endpoint_details f.endpoint ++ f.details;
}

-- `PreparedCorrectionSnapshot`; the contexts of the rows and the lines, which are copied from the
-- result, are left out.
pub record PreparedCorrectionSnapshot : Type 0 where
  pub draft_document_hash : ℕ
  pub draft_document : StagingGameDocumentV2
  pub stored_findings : List CorrectionFinding
  pub findings : List CorrectionFinding
  pub blocking_count : ℕ
  pub warning_count : ℕ

unfoldable pub prepare_correction_snapshot :
    CanonicalText
    → StagingGameDocumentV2
    → ReplayResult
    → List StoredFinding
    → PreparedCorrectionSnapshot
unfolding merge_persistent_source_findings stored_finding_snapshot
prepare_correction_snapshot text d r stored =
    let current = merge_persistent_source_findings text stored r.findings d in
    record {
      draft_document_hash = text.document_hash d;
      draft_document = d;
      stored_findings = map (stored_finding_snapshot d.metadata.game_id) stored;
      findings = map (stored_finding_snapshot d.metadata.game_id) current;
      blocking_count = count is_blocking_stored current;
      warning_count = count (λ f. not (is_blocking_stored f)) current;
    }

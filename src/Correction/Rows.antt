-- ===== src/Correction/Rows.antt =====
-- The corrections of the ledger's rows in packages/correction/src/commands.ts: insertEvent, moveEvent,
-- withEvents, requiredIndex and the array calls that they make; and the decoding of a draft,
-- parseStagingGameDocumentV2 of packages/contracts/src/game-document.ts. A row that has been decoded at the
-- entry of a command is a row of the model, and decoding it once more changes nothing.
use kbo_workbench.Prelude.{
  Bool, List, Option, [], any, false, get_elem?, if◌then◌else◌, is_value, none, not, refl, some,
  suc, true, zero, ℕ, ◌++◌, ◌==◌, ◌∷◌, ◌≡◌,
}
use kbo_workbench.Contracts.Document.{StagingGameDocumentV2}
use kbo_workbench.Contracts.Event.{
  EventId, IdentityKind, LedgerEvent, LedgerEventBase, PlayerId, StagingRelayEvent, base_of,
  event_id_of,
}
use kbo_workbench.Contracts.Semantics.{ContractIssue, validate_staging_game_document_v2_semantics}

pub data CorrectionError : Type 0 where
  event_not_found : EventId → CorrectionError
  event_id_exists : EventId → CorrectionError
  source_identity_added observed_state_of_manual_row : CorrectionError
  tracking_not_found : ℕ → CorrectionError
  link_not_pitch own_duplicate nothing_to_reconcile : CorrectionError
  roster_player_not_found : PlayerId → CorrectionError
  roster_player_id_changed record_player_id_changed : CorrectionError
  invalid_document : List ContractIssue → CorrectionError

-- A draft, or the error that is thrown.
pub data Corrected {ℓ} (D : Type ℓ) : Type ℓ where
  thrown : CorrectionError → Corrected D
  draft : D → Corrected D

infixl 5 ◌>>=◌
abbrev pub ◌>>=◌ {ℓ κ} : {D : Type ℓ} {T : Type κ} → Corrected D → (D → Corrected T) → Corrected T
thrown e >>= next = thrown e
draft d >>= next = next d

-- A correction that gives a draft has come through its first step.
pub corrected_chain {ℓ κ} :
    {D : Type ℓ} {T : Type κ} (step : Corrected D) (next : D → Corrected T) {t : T}
    → (step >>= next) ≡ draft t
    → (d : D) × (step ≡ draft d) × (next d ≡ draft t)
corrected_chain (thrown e) next h = cc
corrected_chain (draft d) next h = (d, refl, h)

pub draft-injective {ℓ} : {D : Type ℓ} {a b : D} → draft a ≡ draft b → a ≡ b
draft-injective h = cc

-- `parseStagingGameDocumentV2` of a draft: what its schema asks of a document is in the types of the
-- model, its times are normal already, and its issues are thrown.
unfoldable pub parse_document : StagingGameDocumentV2 → Corrected StagingGameDocumentV2
unfolding validate_staging_game_document_v2_semantics
parse_document d = elim (validate_staging_game_document_v2_semantics d) [
  | [] ↦ draft d
  | i ∷ is ↦ thrown (CorrectionError.invalid_document (i ∷ is))
]

module _ {ℓ} {D : Type ℓ} where
  -- `xs.splice(i, 0, x)`
  abbrev pub insert_at : ℕ → D → List D → List D
  insert_at zero x xs = x ∷ xs
  insert_at (suc i) x [] = x ∷ []
  insert_at (suc i) x (y ∷ ys) = y ∷ insert_at i x ys

  -- `xs.splice(i, 1)`
  abbrev pub remove_at : ℕ → List D → List D
  remove_at i [] = []
  remove_at zero (y ∷ ys) = ys
  remove_at (suc i) (y ∷ ys) = y ∷ remove_at i ys

  -- `xs[i] = x`, at an index of the array.
  abbrev pub replace_at : ℕ → D → List D → List D
  replace_at i x [] = []
  replace_at zero x (y ∷ ys) = x ∷ ys
  replace_at (suc i) x (y ∷ ys) = y ∷ replace_at i x ys

abbrev pub is_row : EventId → StagingRelayEvent → Bool
is_row id e = event_id_of e == id

-- `events.findIndex(...)`, counted from `i`.
unfoldable pub index_of : ℕ → EventId → List StagingRelayEvent → Option ℕ
index_of i id [] = none
index_of i id (e ∷ es) = if is_row id e then some i else index_of (suc i) id es

unfoldable pub required_index : List StagingRelayEvent → EventId → Corrected ℕ
unfolding index_of
required_index events id = elim (index_of 0 id events) [
  | none ↦ thrown (CorrectionError.event_not_found id)
  | some i ↦ draft i
]

abbrev change_row :
    {P : Type 0} → (LedgerEventBase → LedgerEventBase) → LedgerEvent P → LedgerEvent P
change_row f e = record e { base = f e.base }

-- The row with the fields that all rows share changed by `f`.
abbrev pub with_base : (LedgerEventBase → LedgerEventBase) → StagingRelayEvent → StagingRelayEvent
with_base f (StagingRelayEvent.half_inning_start b) = StagingRelayEvent.half_inning_start (f b)
with_base f (StagingRelayEvent.batter_start e) = StagingRelayEvent.batter_start (change_row f e)
with_base f (StagingRelayEvent.pitch e) = StagingRelayEvent.pitch (change_row f e)
with_base f (StagingRelayEvent.plate_result e) = StagingRelayEvent.plate_result (change_row f e)
with_base f (StagingRelayEvent.runner_advance e) = StagingRelayEvent.runner_advance (change_row f e)
with_base f (StagingRelayEvent.substitution e) = StagingRelayEvent.substitution (change_row f e)
with_base f (StagingRelayEvent.review e) = StagingRelayEvent.review (change_row f e)
with_base f (StagingRelayEvent.administrative e) = StagingRelayEvent.administrative (change_row f e)
with_base f (StagingRelayEvent.unresolved e) = StagingRelayEvent.unresolved (change_row f e)

abbrev pub set_sequence : ℕ → StagingRelayEvent → StagingRelayEvent
set_sequence n e = with_base (λ b. record b { sequence = n }) e

-- `events.map((event, sequence) => ({ ...event, sequence }))`, counted from `i`.
unfoldable pub number_rows : ℕ → List StagingRelayEvent → List StagingRelayEvent
number_rows i [] = []
number_rows i (e ∷ es) = set_sequence i e ∷ number_rows (suc i) es

unfoldable pub with_events : StagingGameDocumentV2 → List StagingRelayEvent → StagingGameDocumentV2
unfolding number_rows
with_events document events = record document { events = number_rows 0 events }

abbrev is_manual : IdentityKind → Bool
is_manual IdentityKind.manual = true
is_manual _ = false

-- `result.push(event)`, or `splice` before a row that must exist.
unfoldable pub place_row :
    List StagingRelayEvent → StagingRelayEvent → Option EventId → Corrected (List StagingRelayEvent)
unfolding required_index
place_row events e none = draft (events ++ e ∷ [])
place_row events e (some before) =
    required_index events before >>= λ i. draft (insert_at i e events)

unfoldable pub insert_row :
    List StagingRelayEvent → StagingRelayEvent → Option EventId → Corrected (List StagingRelayEvent)
unfolding place_row
insert_row events e before =
    if not (is_manual (base_of e).identity.kind)
    then thrown CorrectionError.source_identity_added
    else if any (is_row (event_id_of e)) events
    then thrown (CorrectionError.event_id_exists (event_id_of e))
    else place_row events e before

abbrev row_at : List StagingRelayEvent → EventId → ℕ → Corrected StagingRelayEvent
row_at events id i = elim (get_elem? events i) [
  | none ↦ thrown (CorrectionError.event_not_found id)
  | some e ↦ draft e
]

-- The row with an identifier, and where it stands.
unfoldable pub required_row : List StagingRelayEvent → EventId → Corrected (ℕ × StagingRelayEvent)
unfolding required_index
required_row events id = required_index events id >>= λ i. row_at events id i >>= λ e. draft (i, e)

unfoldable pub move_row :
    List StagingRelayEvent → EventId → Option EventId → Corrected (List StagingRelayEvent)
unfolding required_row place_row
move_row events id before =
    if is_value before id
    then draft events
    else (required_row events id >>= λ r. place_row (remove_at r.0 events) r.1 before)

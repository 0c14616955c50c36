-- ===== src/Compiler/Timeline.antt =====
-- The order of the plays and frames, and what a refused row leaves behind.
use mathlib.Core.List.{append-nil, append_assoc, map-append}
use kbo_workbench.Prelude.{
  List, Option-cases, [], arith, false, inl, inr, map, none, refl, some, sym, ◌++◌, ◌∙◌, ◌∷◌, ◌≡◌,
}
use kbo_workbench.Collections.Dict.{lookup}
use kbo_workbench.Compiler.Context.{CompileContext}
use kbo_workbench.Compiler.Ledger.{
  Run, apply_row, attached_row, links_of, own_row, play_of, walk_document, walk_row, walk_rows,
}
use kbo_workbench.Compiler.Replay.{AttachedPlay, CompiledPlay, ReplayFrame}
use kbo_workbench.Compiler.RowChecks.{Links, row_applied}
use kbo_workbench.Compiler.State.{initial_state}
use kbo_workbench.Contracts.Document.{StagingGameDocumentV2}
use kbo_workbench.Contracts.Event.{EventId, StagingRelayEvent, event_id_of}
use kbo_workbench.Game.State.{GameState}

-- The plays lead from one state to another without a gap, and a play that is not applied leaves
-- the state as it is and moves no runner.
abbrev pub Chain : GameState → List CompiledPlay → GameState → Type 0
Chain s [] t = s ≡ t
Chain s (p ∷ ps) t =
    (p.before ≡ s)
    × (p.applied ≡ false → (p.after ≡ p.before) × (p.movements ≡ []))
    × Chain p.after ps t

Chain-append :
    (ps : List CompiledPlay) (p : CompiledPlay) (s t : GameState)
    → Chain s ps t
    → p.before ≡ t
    → (p.applied ≡ false → (p.after ≡ p.before) × (p.movements ≡ []))
    → Chain s (ps ++ p ∷ []) p.after
Chain-append [] p s t h b f = (b ∙ sym h, f, refl)
Chain-append (q ∷ qs) p s t h b f = (h.0, h.1, Chain-append qs p q.after t h.2 b f)

apply_row_refused :
    (links : Links) (s : GameState) (c : CompileContext) (e : StagingRelayEvent)
    → (apply_row links s c e).applied ≡ false
    → (apply_row links s c e).state ≡ s
unfolding apply_row row_applied
apply_row_refused links s c e h = ground arith

walk_row_own :
    (links : Links) (e : StagingRelayEvent) (r : Run)
    → lookup (event_id_of e) r.attached ≡ none
    → walk_row links e r ≡ own_row e (apply_row links r.state r.context e) r
unfolding walk_row
walk_row_own links e r h = rw (h, walk_row)

walk_row_taken :
    (links : Links) (e : StagingRelayEvent) (r : Run) (a : AttachedPlay)
    → lookup (event_id_of e) r.attached ≡ some a
    → walk_row links e r ≡ attached_row e a r
unfolding walk_row
walk_row_taken links e r a h = rw (h, walk_row)

own_row-Chain :
    (links : Links) (e : StagingRelayEvent) (r : Run) (s : GameState)
    → Chain s r.plays r.state
    → let q = own_row e (apply_row links r.state r.context e) r in Chain s q.plays q.state
own_row-Chain links e r s h =
    let o = apply_row links r.state r.context e in
    Chain-append r.plays (play_of e r.state o) s r.state h refl
      (λ refused. ground (arith, apply_row_refused links r.state r.context e refused))

walk_row-Chain :
    (links : Links) (e : StagingRelayEvent) (r : Run) (s : GameState)
    → Chain s r.plays r.state
    → Chain s (walk_row links e r).plays (walk_row links e r).state
walk_row-Chain links e r s h = elim (Option-cases (lookup (event_id_of e) r.attached)) [
  | inl own ↦ rw (walk_row_own links e r own) (own_row-Chain links e r s h)
  | inr (a, taken) ↦ rw (walk_row_taken links e r a taken) h
]

walk_rows-Chain :
    (links : Links) (es : List StagingRelayEvent) (r : Run) (s : GameState)
    → Chain s r.plays r.state
    → Chain s (walk_rows links es r).plays (walk_rows links es r).state
unfolding walk_rows
walk_rows-Chain links [] r s h = h
walk_rows-Chain links (e ∷ es) r s h =
    walk_rows-Chain links es (walk_row links e r) s (walk_row-Chain links e r s h)

-- For every document, the plays lead from the first state to the last without a gap: each begins
-- in the state that the one before it left, and a play that is not applied leaves its state as it
-- is and moves no runner.
pub walk_document-Chain :
    (document : StagingGameDocumentV2)
    → Chain initial_state (walk_document document).plays (walk_document document).state
unfolding walk_document
walk_document-Chain document =
    walk_rows-Chain (links_of document) document.events _ initial_state refl

abbrev frame_event : ReplayFrame → EventId
frame_event f = f.event_id

walk_row-frames :
    (links : Links) (e : StagingRelayEvent) (r : Run)
    → map frame_event (walk_row links e r).frames ≡ map frame_event r.frames ++ event_id_of e ∷ []
walk_row-frames links e r = elim (Option-cases (lookup (event_id_of e) r.attached)) [
  | inl own ↦ rw (walk_row_own links e r own) (map-append frame_event r.frames _)
  | inr (a, taken) ↦ rw (walk_row_taken links e r a taken) (map-append frame_event r.frames _)
]

walk_rows-frames :
    (links : Links) (es : List StagingRelayEvent) (r : Run)
    → map frame_event (walk_rows links es r).frames ≡ map frame_event r.frames ++ map event_id_of es
unfolding walk_rows
walk_rows-frames links [] r = sym (append-nil _)
walk_rows-frames links (e ∷ es) r =
    walk_rows-frames links es (walk_row links e r) ∙ rw (walk_row-frames links e r, append_assoc)

-- For every document, the walk makes exactly one frame for each row, in the order of the rows.
pub walk_document-frames :
    (document : StagingGameDocumentV2)
    → map frame_event (walk_document document).frames ≡ map event_id_of document.events
unfolding walk_document
walk_document-frames document = walk_rows-frames (links_of document) document.events _

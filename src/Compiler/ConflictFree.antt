-- ===== src/Compiler/ConflictFree.antt =====
-- The walk over the ledger reports no conflict between tracking candidates: only the tracking
-- checks do.
use kbo_workbench.Prelude.{
  Bool, List, Option-cases, [], any, arith, inl, inr, not, refl, true, ◌&&◌, ◌++◌, ◌∷◌, ◌≡◌,
}
use kbo_workbench.Compiler.Context.{CompileContext}
use kbo_workbench.Compiler.EventHandlers.{apply_batter_start, apply_half_start}
use kbo_workbench.Compiler.EventTransition.{apply_pitch, apply_substitution}
use kbo_workbench.Compiler.Statistics.{pitcher_line}
use kbo_workbench.Contracts.Event.{BatterStartEvent, LedgerEventBase, PitchEvent, SubstitutionEvent}
use kbo_workbench.Game.Findings.{Finding, is_conflict_code}
use kbo_workbench.Game.State.{GameState}

pub conflict_free : List Finding → Bool
conflict_free [] = true
conflict_free (f ∷ fs) = not (is_conflict_code f.code) && conflict_free fs

pub conflict_free-append :
    (xs ys : List Finding) → conflict_free (xs ++ ys) ≡ conflict_free xs && conflict_free ys
unfolding conflict_free
conflict_free-append [] ys = refl
conflict_free-append (x ∷ xs) ys = ground (arith, conflict_free-append xs ys)

pub conflict_free-push :
    (xs : List Finding) (f : Finding)
    → conflict_free (xs ++ f ∷ []) ≡ conflict_free xs && not (is_conflict_code f.code)
unfolding conflict_free
conflict_free-push xs f = ground (arith, conflict_free-append xs (f ∷ []))

abbrev pub IsConflictFree : CompileContext → Type 0
IsConflictFree c = conflict_free c.findings ≡ true

pub apply_pitch-IsConflictFree :
    (s : GameState) (e : PitchEvent) (c : CompileContext)
    → IsConflictFree c
    → IsConflictFree (apply_pitch s e c).1
unfolding apply_pitch pitcher_line
apply_pitch-IsConflictFree s e c h = elim (Option-cases s.active_plate_appearance) [
  | inl idle ↦ rw idle (grind (arith, conflict_free-push))
  | inr (pa, active) ↦ rw active (grind (arith, conflict_free-push))
]

pub apply_substitution-IsConflictFree :
    (s : GameState) (e : SubstitutionEvent) (c : CompileContext)
    → IsConflictFree c
    → IsConflictFree (apply_substitution s e c).1
unfolding apply_substitution
apply_substitution-IsConflictFree s e c h = grind (arith, conflict_free-push)

pub apply_batter_start-IsConflictFree :
    (s : GameState) (e : BatterStartEvent) (c : CompileContext)
    → IsConflictFree c
    → IsConflictFree (apply_batter_start s e c).1
unfolding apply_batter_start
apply_batter_start-IsConflictFree s e c h = elim (Option-cases s.active_plate_appearance) [
  | inl idle ↦ rw idle (grind (arith, conflict_free-push))
  | inr (pa, active) ↦ rw active (grind (arith, conflict_free-push))
]

pub apply_half_start-IsConflictFree :
    (s : GameState) (b : LedgerEventBase) (c : CompileContext)
    → IsConflictFree c
    → IsConflictFree (apply_half_start s b c).1
unfolding apply_half_start
apply_half_start-IsConflictFree s b c h = grind (arith, conflict_free-push)

pub conflict_free_nil : conflict_free [] ≡ true
unfolding conflict_free
conflict_free_nil = refl

pub conflict_free-any :
    (fs : List Finding) → conflict_free fs ≡ not (any (λ f. is_conflict_code f.code) fs)
unfolding conflict_free
conflict_free-any [] = refl
conflict_free-any (f ∷ fs) = ground (arith, conflict_free-any fs)

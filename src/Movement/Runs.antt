-- ===== src/Movement/Runs.antt =====
-- Which runs of a play count.
use kbo_workbench.Prelude.{
  Bool, List, Option, [], arith, false, filter, get_elem?, if◌then◌else◌, leb, length, none, refl,
  some, suc, true, ℕ, ◌&&◌, ◌++◌, ◌+◌, ◌<◌, ◌∙◌, ◌∷◌, ◌≡◌, ◌≤◌,
}
use kbo_workbench.Contracts.Event.{RunnerOutKind, is_out, is_scored}
use kbo_workbench.Correction.Preview.{minus}
use kbo_workbench.Game.State.{CompiledRunnerMovement}
use kbo_workbench.Movement.Placement.{
  MovementState, MovementSuccess, batter_outs, index_of_third_out, movement_outs, natural_third_out,
  ok, outs_added_by, reaches_third, result_outs,
}
use kbo_workbench.Movement.Transition.{
  appealed_base, cancelling_out, fourth_out_indexes, scored_runs, selected_out,
  transition_movements,
}
use kbo_workbench.Movement.TransitionLaws.{transition-Settled}
use kbo_workbench.Rules.Results.{third_out_cancels_every_run}

abbrev pub crosses_home : CompiledRunnerMovement → Bool
crosses_home m = is_scored m.outcome

filter_cong {ℓ} :
    {A : Type ℓ} (p q : A → Bool) (xs : List A) → ((x : A) → p x ≡ q x) → filter p xs ≡ filter q xs
filter_cong p q [] h = refl
filter_cong p q (x ∷ xs) h = ground (arith, h x, filter_cong p q xs h)

filter_none {ℓ} :
    {A : Type ℓ} (p : A → Bool) (xs : List A) → ((x : A) → p x ≡ false) → filter p xs ≡ []
filter_none p [] h = refl
filter_none p (x ∷ xs) h = rw (h x) (filter_none p xs h)

scored_runs_cancelled :
    (selected : Option CompiledRunnerMovement) (ms : List CompiledRunnerMovement)
    → cancelling_out selected ≡ true
    → scored_runs true selected ms ≡ []
unfolding scored_runs
scored_runs_cancelled selected ms c = filter_none _ ms (λ m. ground arith)

scored_runs_open :
    (selected : Option CompiledRunnerMovement) (ms : List CompiledRunnerMovement) (reaches : Bool)
    → (reaches && cancelling_out selected) ≡ false
    → appealed_base selected ms ≡ none
    → scored_runs reaches selected ms ≡ filter crosses_home ms
unfolding scored_runs
scored_runs_open selected ms reaches c a = rw (c, a) (filter_cong _ _ ms (λ m. ground arith))

-- While the half goes on, every runner who crosses home scores.
pub transition_runs_before_third_out :
    (s : MovementState) (ps : List CompiledRunnerMovement) (direct : Option ℕ)
    (ms : List CompiledRunnerMovement) {r : MovementSuccess}
    → r.outs < 3
    → transition_movements s ps direct ms ≡ ok r
    → r.scored ≡ filter crosses_home ms
unfolding selected_out cancelling_out appealed_base
transition_runs_before_third_out s ps direct ms lt h =
    let (placed, checked, located, settled) = transition-Settled s ps direct ms h in
    let e : reaches_third s.outs (outs_added_by direct ms) ≡ false = ground (arith, settled) in
    settled.scored_lem ∙ rw e (scored_runs_open none ms false refl refl)

-- The outs that let no run of the play count when they are the third.
pub data VoidsRuns : RunnerOutKind → Type 0 where
  forced : VoidsRuns RunnerOutKind.force
  appealed : VoidsRuns RunnerOutKind.appeal_force
  short_of_first : VoidsRuns RunnerOutKind.batter_runner_before_first
  struck_out : VoidsRuns RunnerOutKind.strikeout

VoidsRuns-third_out : (k : RunnerOutKind) → VoidsRuns k → third_out_cancels_every_run k ≡ true
unfolding third_out_cancels_every_run
VoidsRuns-third_out _ VoidsRuns.forced = refl
VoidsRuns-third_out _ VoidsRuns.appealed = refl
VoidsRuns-third_out _ VoidsRuns.short_of_first = refl
VoidsRuns-third_out _ VoidsRuns.struck_out = refl

-- The out that comes third is found where it stands.
third_out_at :
    (i plus minus : ℕ) (before : List CompiledRunnerMovement) (m : CompiledRunnerMovement)
    (later : List CompiledRunnerMovement)
    → plus + movement_outs before ≡ 2 + minus
    → is_out m.outcome ≡ true
    → index_of_third_out i plus minus (before ++ m ∷ later) ≡ some (i + length before)
unfolding index_of_third_out
third_out_at i plus minus [] m later two out = ground arith
third_out_at i plus minus (b ∷ before) m later two out =
    let outs = if is_out b.outcome then plus + 1 else plus in
    let left : outs + movement_outs before ≡ 2 + minus = ground arith in
    let found = third_out_at (suc i) outs minus before m later left out in
    let early : leb (3 + minus) outs ≡ false = ground arith in ground (arith, found, early)

element_at {ℓ} :
    {A : Type ℓ} (before : List A) (x : A) (later : List A)
    → get_elem? (before ++ x ∷ later) (length before) ≡ some x
element_at [] x later = refl
element_at (b ∷ before) x later = element_at before x later

movement_outs-split :
    (before : List CompiledRunnerMovement) (m : CompiledRunnerMovement)
    (later : List CompiledRunnerMovement)
    → is_out m.outcome ≡ true
    → movement_outs before + 1 ≤ movement_outs (before ++ m ∷ later)
movement_outs-split [] m later out = ground arith
movement_outs-split (b ∷ before) m later out =
    ground (arith, movement_outs-split before m later out)

-- In a play that succeeds and marks no apparent fourth out, let a runner be out when the outs before
-- the play, those that no movement records and those of the movements in front come to two. When
-- this out is a force, an appeal at a forced base, the batter before first base or a strikeout, the
-- play ends the half and no run of it counts.
pub transition_force_cancels_runs :
    (s : MovementState) (ps : List CompiledRunnerMovement) (direct : Option ℕ)
    (before : List CompiledRunnerMovement) (m : CompiledRunnerMovement)
    (later : List CompiledRunnerMovement) {r : MovementSuccess} {k : RunnerOutKind}
    → s.outs < 3
    → fourth_out_indexes 0 (before ++ m ∷ later) ≡ []
    → transition_movements s ps direct (before ++ m ∷ later) ≡ ok r
    → s.outs + result_outs direct (before ++ m ∷ later) + movement_outs before
      ≡ 2 + batter_outs (before ++ m ∷ later)
    → is_out m.outcome ≡ true
    → m.out_kind ≡ some k
    → VoidsRuns k
    → (r.outs ≡ 3) × (r.scored ≡ [])
unfolding selected_out cancelling_out natural_third_out
transition_force_cancels_runs s ps direct before m later {r} {k} lt unmarked h two out kind c =
    let ms = before ++ m ∷ later in
    let (placed, checked, located, settled) = transition-Settled s ps direct ms h in
    let counted = movement_outs-split before m later out in
    let e : reaches_third s.outs (outs_added_by direct ms) ≡ true = ground (arith, counted, two) in
    let natural : natural_third_out s.outs direct ms ≡ some (length before) = ground (
      arith,
      third_out_at 0 (s.outs + result_outs direct ms) (batter_outs ms) before m later two out,
    ) in
    let at = element_at before m later in
    let cancels : cancelling_out (some m) ≡ true = rw kind (VoidsRuns-third_out k c) in
    (
      ground (arith, settled, e),
      settled.scored_lem
          ∙ rw (e, unmarked, natural, at) (scored_runs_cancelled (some m) ms cancels),
    )

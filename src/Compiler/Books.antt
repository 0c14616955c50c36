-- ===== src/Compiler/Books.antt =====
-- The accounts of the record lines: what each count of `statistics.ts` adds to the sums over all
-- batters and all pitchers.
use kbo_workbench.Prelude.{
  List, Option, [], ap, arith, length, none, refl, some, sym, ℕ, ◌∙◌, ◌∷◌, ◌≡◌,
}
use kbo_workbench.Compiler.Context.{CompileContext}
use kbo_workbench.Compiler.EventTransition.{count_pitch}
use kbo_workbench.Compiler.PlayMovements.{count_outs, count_run, count_runs}
use kbo_workbench.Compiler.Statistics.{
  batter_line, count_for_batter, count_for_pitcher, note_uncertain_rbi, pitcher_line,
  update_completed_lines,
}
use kbo_workbench.Compiler.Sums.{
  Sums, add_run_to_batter, add_run_to_pitcher, batter_sums, batter_sums-count,
  batter_sums-pitcher_line, batter_sums-run, batter_totals, more_results, more_runs, pitcher_sums,
  pitcher_sums-batter_line, pitcher_sums-count, pitcher_sums-runs, pitcher_totals,
}
use kbo_workbench.Contracts.Event.{PlateResultPayload, PlayerId}
use kbo_workbench.Game.State.{CompiledRunnerMovement}
use kbo_workbench.Rules.Counts.{CountTransition}

-- The sums of the fields that batters and pitchers share.

pub record BothSums (c : CompileContext) (b p : Sums) : Type 0 where
  pub batters : batter_sums c ≡ b
  pub pitchers : pitcher_sums c ≡ p

-- A counted run adds one to both sides.
count_run-BothSums :
    (m : CompiledRunnerMovement) (c : CompileContext)
    → BothSums (count_run m c) (more_runs 1 (batter_sums c)) (more_runs 1 (pitcher_sums c))
count_run-BothSums m c =
    let c' = batter_line m.runner_id add_run_to_batter c in
    record {
      batters =
          batter_sums-pitcher_line m.responsible_pitcher_id add_run_to_pitcher c'
          ∙ batter_sums-run m.runner_id c;
      pitchers =
          pitcher_sums-runs m.responsible_pitcher_id 1 add_run_to_pitcher c' (λ l. refl)
            (λ l. omega arith)
          ∙ ap (more_runs 1) (pitcher_sums-batter_line m.runner_id add_run_to_batter c);
    }

more_runs_zero : (s : Sums) → s ≡ more_runs 0 s
more_runs_zero s = ground arith

-- Counting the runs of a play adds their number to both sides.
pub count_runs-BothSums :
    (ms : List CompiledRunnerMovement) (c : CompileContext)
    → BothSums
        (count_runs ms c)
        (more_runs (length ms) (batter_sums c))
        (more_runs (length ms) (pitcher_sums c))
unfolding count_runs
count_runs-BothSums [] c = record { batters = more_runs_zero _; pitchers = more_runs_zero _ }
count_runs-BothSums (m ∷ ms) c =
    ground (arith, count_runs-BothSums ms (count_run m c), count_run-BothSums m c)

-- Counting outs or pitches leaves the shared fields alone.
pub count_outs-BothSums :
    (o : Option PlayerId) (n : ℕ) (c : CompileContext)
    → BothSums (count_outs o n c) (batter_sums c) (pitcher_sums c)
count_outs-BothSums none n c = record { batters = refl; pitchers = refl }
count_outs-BothSums (some p) n c = record {
  batters = batter_sums-pitcher_line p _ c;
  pitchers =
      pitcher_sums-runs p 0 _ c (λ l. omega arith) (λ l. omega arith) ∙ sym (more_runs_zero _);
}

pub count_pitch-BothSums :
    (p : PlayerId) (t : CountTransition) (c : CompileContext)
    → BothSums (pitcher_line p (count_pitch t) c) (batter_sums c) (pitcher_sums c)
count_pitch-BothSums p t c = record {
  batters = batter_sums-pitcher_line p (count_pitch t) c;
  pitchers =
      pitcher_sums-runs p 0 (count_pitch t) c (λ l. omega arith) (λ l. omega arith)
      ∙ sym (more_runs_zero _);
}

note_uncertain_rbi-BothSums :
    (p : PlayerId) (rbi : Option ℕ) (runs : ℕ) (c : CompileContext)
    → BothSums (note_uncertain_rbi p rbi runs c) (batter_sums c) (pitcher_sums c)
unfolding note_uncertain_rbi batter_totals pitcher_totals
note_uncertain_rbi-BothSums p rbi runs c = ground arith

-- A completed result adds the same to the batters as to the pitchers.
pub update_completed_lines-BothSums :
    (e : PlateResultPayload) (b p : PlayerId) (runs : ℕ) (c : CompileContext)
    → BothSums
        (update_completed_lines e b p runs c)
        (more_results e.result (batter_sums c))
        (more_results e.result (pitcher_sums c))
unfolding update_completed_lines
update_completed_lines-BothSums e b p runs c =
    let credit = count_for_batter e.result e.credited_rbi in
    let batted = batter_line b credit c in
    let pitched = pitcher_line p (count_for_pitcher e.result) batted in
    let noted = note_uncertain_rbi-BothSums b e.credited_rbi runs pitched in
    record {
      batters =
          noted.batters
          ∙ batter_sums-pitcher_line p (count_for_pitcher e.result) batted
          ∙ batter_sums-count b e.result e.credited_rbi c;
      pitchers =
          noted.pitchers
          ∙ pitcher_sums-count p e.result batted
          ∙ ap (more_results e.result) (pitcher_sums-batter_line b credit c);
    }

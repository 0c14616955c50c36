-- ===== src/Compiler/Appearances.antt =====
-- The player lines and the plate appearances of a context change apart from each other.
use kbo_workbench.Prelude.{List, Option, [], arith, none, refl, some, ℕ, ◌∷◌, ◌≡◌}
use kbo_workbench.Compiler.Context.{CompileContext}
use kbo_workbench.Compiler.PlayMovements.{count_outs, count_run, count_runs}
use kbo_workbench.Compiler.Statistics.{batter_line, pitcher_line, update_completed_lines}
use kbo_workbench.Contracts.Event.{PlateResultPayload, PlayerId}
use kbo_workbench.Game.Lines.{PitcherLine}
use kbo_workbench.Game.State.{CompiledRunnerMovement}

-- Changes of the lines leave the plate appearances alone.
pub pitcher_line-plate_appearances :
    (p : PlayerId) (f : PitcherLine → PitcherLine) (c : CompileContext)
    → (pitcher_line p f c).plate_appearances ≡ c.plate_appearances
unfolding pitcher_line
pitcher_line-plate_appearances p f c = refl

pub count_runs-plate_appearances :
    (ms : List CompiledRunnerMovement) (c : CompileContext)
    → (count_runs ms c).plate_appearances ≡ c.plate_appearances
unfolding count_runs batter_line pitcher_line
count_runs-plate_appearances [] c = refl
count_runs-plate_appearances (m ∷ ms) c = count_runs-plate_appearances ms (count_run m c)

pub count_outs-plate_appearances :
    (o : Option PlayerId) (n : ℕ) (c : CompileContext)
    → (count_outs o n c).plate_appearances ≡ c.plate_appearances
unfolding pitcher_line
count_outs-plate_appearances none n c = refl
count_outs-plate_appearances (some p) n c = refl

pub update_completed_lines-plate_appearances :
    (e : PlateResultPayload) (b p : PlayerId) (runs : ℕ) (c : CompileContext)
    → (update_completed_lines e b p runs c).plate_appearances ≡ c.plate_appearances
unfolding update_completed_lines
update_completed_lines-plate_appearances e b p runs c = ground arith

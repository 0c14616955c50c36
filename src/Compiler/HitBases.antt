-- ===== src/Compiler/HitBases.antt =====
-- The bases of a result, in the rules of packages/game-core/src/rules.ts and in the lines of
-- packages/game-core/src/compiler/statistics.ts.
use kbo_workbench.Prelude.{
  Option, arith, false, inl, inr, none, refl, some, true, ℕ, ◌*◌, ◌+◌, ◌≡◌, ◌⊎◌,
}
use kbo_workbench.Compiler.Statistics.{count_for_batter}
use kbo_workbench.Contracts.Event.{PlateResult}
use kbo_workbench.Game.Lines.{BatterLine}
use kbo_workbench.Rules.Results.{is_at_bat, is_hit, required_batter_destination}

-- Total bases, as the rules of scoring have them: one for a hit, and those beyond first base.
abbrev pub total_bases : BatterLine → ℕ
total_bases line = line.hits + line.doubles + 2 * line.triples + 3 * line.home_runs

-- What a completed result adds to the total bases of the batter's line is the number of the base to
-- which the rules send the batter, where the result is a hit, which is an at bat too. Any other
-- result adds no base to the line, and sends the batter nowhere or to first base.
pub count_for_batter-total_bases :
    (r : PlateResult) (rbi : Option ℕ) (line : BatterLine)
    → let next = count_for_batter r rbi line in
      ((is_hit r ≡ true)
        × (next.at_bats ≡ line.at_bats + 1)
        × ((n : ℕ) × (required_batter_destination r ≡ some n)
            × (total_bases next ≡ total_bases line + n)))
      ⊎ ((is_hit r ≡ false)
          × (total_bases next ≡ total_bases line)
          × ((required_batter_destination r ≡ none) ⊎ (required_batter_destination r ≡ some 1)))
unfolding is_hit is_at_bat required_batter_destination count_for_batter
count_for_batter-total_bases PlateResult.single rbi line = inl (refl, refl, (1, refl, omega arith))
count_for_batter-total_bases PlateResult.double rbi line = inl (refl, refl, (2, refl, omega arith))
count_for_batter-total_bases PlateResult.triple rbi line = inl (refl, refl, (3, refl, omega arith))
count_for_batter-total_bases PlateResult.home_run rbi line =
    inl (refl, refl, (4, refl, omega arith))
count_for_batter-total_bases r rbi line = inr (ground arith)

-- ===== src/Reducer/Output.antt =====
-- What every result of `compileStagingGameDocumentV2` shows, whatever its findings.
use kbo_workbench.Prelude.{Bool, ap, arith, count, false, leb, sym, true, ℕ, ◌+◌, ◌∙◌, ◌≡◌}
use kbo_workbench.Collections.Dict.{sum_of}
use kbo_workbench.Collections.Sort.{IsSortedBy, count-sort_by, sort_by-IsSorted}
use kbo_workbench.Compiler.Finish.{compile_ledger}
use kbo_workbench.Compiler.Outcome.{compile_ledger-IsSound}
use kbo_workbench.Compiler.Sums.{batter_totals, pitcher_totals}
use kbo_workbench.Contracts.Document.{StagingGameDocumentV2}
use kbo_workbench.Facts.Baserunner.{total, total-sort_by, total-values_of, values_of}
use kbo_workbench.Facts.Document.{pitch_facts_of}
use kbo_workbench.Game.Findings.{Finding}
use kbo_workbench.Game.Lines.{BatterLine, PitcherLine}
use kbo_workbench.Reducer.Compile.{ReplayResult, checked_context, compile_document}
use kbo_workbench.Reducer.Order.{batter_le, finding_le, finding_le-total, pitcher_le}
use kbo_workbench.Validation.Adds.{Adds-trans}
use kbo_workbench.Validation.Linked.{validate_tracking}
use kbo_workbench.Validation.OfficialAgreement.{Adds-official_records}
use kbo_workbench.Validation.Single.{Adds-validate_tracking}

player_le-either : (m n : ℕ) → leb m n ≡ false → leb n m ≡ true
player_le-either m n h = ground arith

-- The lists of a result are sorted, and what was counted and reported is in them.
pub record IsReport (d : StagingGameDocumentV2) (r : ReplayResult) : Type 0 where
  pub batters_sorted : IsSortedBy batter_le r.batter_lines
  pub pitchers_sorted : IsSortedBy pitcher_le r.pitcher_lines
  pub findings_sorted : IsSortedBy finding_le r.findings
  pub findings_kept :
      (p : Finding → Bool) → count p r.findings ≡ count p (checked_context d).findings
  pub batters_score :
      total (λ l. l.runs) r.batter_lines ≡ r.final_state.away_score + r.final_state.home_score
  pub pitchers_score :
      total (λ l. l.runs) r.pitcher_lines ≡ r.final_state.away_score + r.final_state.home_score
  pub turns :
      total (λ l. l.plate_appearances) r.batter_lines ≡ total (λ l. l.batters_faced) r.pitcher_lines
  pub hits : total (λ l. l.hits) r.batter_lines ≡ total (λ l. l.hits) r.pitcher_lines

checked_lines :
    (d : StagingGameDocumentV2)
    → ((checked_context d).batter_lines ≡ (compile_ledger d).context.batter_lines)
      × ((checked_context d).pitcher_lines ≡ (compile_ledger d).context.pitcher_lines)
unfolding checked_context
checked_lines d =
    let c = (compile_ledger d).context in
    let tracked = Adds-validate_tracking d (pitch_facts_of d) c in
    let checked =
      Adds-trans tracked (Adds-official_records (validate_tracking d (pitch_facts_of d) c)) in
    (checked.batters, checked.pitchers)

total-batters :
    (d : StagingGameDocumentV2) (g : BatterLine → ℕ)
    → total g (compile_document d).batter_lines ≡ sum_of g (compile_ledger d).context.batter_lines
unfolding compile_document
total-batters d g =
    total-sort_by batter_le g (values_of (checked_context d).batter_lines)
    ∙ total-values_of g (checked_context d).batter_lines
    ∙ ap (sum_of g) (checked_lines d).0

total-pitchers :
    (d : StagingGameDocumentV2) (g : PitcherLine → ℕ)
    → total g (compile_document d).pitcher_lines ≡ sum_of g (compile_ledger d).context.pitcher_lines
unfolding compile_document
total-pitchers d g =
    total-sort_by pitcher_le g (values_of (checked_context d).pitcher_lines)
    ∙ total-values_of g (checked_context d).pitcher_lines
    ∙ ap (sum_of g) (checked_lines d).1

-- The result of every document lists the batters and the pitchers by player and the findings by row
-- and code, and has each finding of the checks as often as it was reported. The runs of its batters
-- and those of its pitchers are the score of the last state, and the two sides agree on turns at
-- bat and on hits.
pub compile_document-IsReport : (d : StagingGameDocumentV2) → IsReport d (compile_document d)
unfolding compile_document batter_totals pitcher_totals
compile_document-IsReport d =
    let balance = (compile_ledger-IsSound d).balanced in
    let context = checked_context d in
    record {
      batters_sorted =
          sort_by-IsSorted batter_le (λ a b. player_le-either a.player_id b.player_id)
            (values_of context.batter_lines);
      pitchers_sorted =
          sort_by-IsSorted pitcher_le (λ a b. player_le-either a.player_id b.player_id)
            (values_of context.pitcher_lines);
      findings_sorted = sort_by-IsSorted finding_le finding_le-total context.findings;
      findings_kept = λ p. count-sort_by finding_le p context.findings;
      batters_score = total-batters d (λ l. l.runs) ∙ balance.scored;
      pitchers_score =
          total-pitchers d (λ l. l.runs) ∙ sym (ap (λ s. s.runs) balance.agree) ∙ balance.scored;
      turns =
          total-batters d (λ l. l.plate_appearances)
          ∙ ap (λ s. s.turns) balance.agree
          ∙ sym (total-pitchers d (λ l. l.batters_faced));
      hits =
          total-batters d (λ l. l.hits)
          ∙ ap (λ s. s.hits) balance.agree
          ∙ sym (total-pitchers d (λ l. l.hits));
    }

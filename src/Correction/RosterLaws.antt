-- ===== src/Correction/RosterLaws.antt =====
-- What a correction of a roster or of an official record gives when it succeeds: a rule for each of
-- the four functions, for whatever is asked of the document behind it.
use mathlib.Core.Path.{subst}
use kbo_workbench.Prelude.{
  Bool-cases, List, Option-cases, String, arith, find, inl, inr, some, ℕ, ◌==◌, ◌≡◌,
}
use kbo_workbench.Contracts.Document.{StagingGameDocumentV2, roster_of}
use kbo_workbench.Contracts.Event.{PlayerId, Side}
use kbo_workbench.Contracts.Records.{OfficialBatterRecord, OfficialPitcherRecord, RosterPlayer}
use kbo_workbench.Correction.Rosters.{
  has_id, index_where, put_record, update_batter_record, update_pitcher_record,
  update_roster_player, update_roster_position, with_players,
}
use kbo_workbench.Correction.Rows.{CorrectionError, draft, draft-injective, replace_at, thrown}

module _ (P : StagingGameDocumentV2 → Type 0) (d : StagingGameDocumentV2) where
  pub update_roster_player_cases :
      (side : Side) (id : PlayerId) (p : RosterPlayer) {n : StagingGameDocumentV2}
      → ((i : ℕ)
          → index_where (has_id (λ q. q.player_id) id) (roster_of side d.rosters).players ≡ some i
          → p.player_id ≡ id
          → P (with_players d side (replace_at i p (roster_of side d.rosters).players)))
      → update_roster_player d side id p ≡ draft n
      → P n
  unfolding update_roster_player
  update_roster_player_cases side id p {n} placed h =
      let players = (roster_of side d.rosters).players in
      elim (Bool-cases (p.player_id == id)) [
        | inl same ↦ elim (Option-cases (index_where (has_id (λ q. q.player_id) id) players)) [
          | inl gone ↦
              let failed : thrown (CorrectionError.roster_player_not_found id) ≡ draft n =
                rw gone at (rw same at h) in
              cc
          | inr (i, found) ↦
              let made : draft (with_players d side (replace_at i p players)) ≡ draft n =
                rw found at (rw same at h) in
              subst P (draft-injective made) (placed i found (ground arith))
        ]
        | inr other ↦
            let failed : thrown CorrectionError.roster_player_id_changed ≡ draft n =
              rw other at h in
            cc
      ]

  pub update_batter_record_cases :
      (id : PlayerId) (r : OfficialBatterRecord) {n : StagingGameDocumentV2}
      → (r.player_id ≡ id
          → P (record d {
            official_records = record d.official_records {
              batters =
                  put_record r d.official_records.batters
                    (index_where (has_id (λ b. b.player_id) id) d.official_records.batters);
            };
          }))
      → update_batter_record d id r ≡ draft n
      → P n
  unfolding update_batter_record
  update_batter_record_cases id r {n} placed h = elim (Bool-cases (r.player_id == id)) [
    | inl same ↦ subst P (draft-injective (rw same at h)) (placed (ground arith))
    | inr other ↦
        let failed : thrown CorrectionError.record_player_id_changed ≡ draft n = rw other at h in cc
  ]

  pub update_pitcher_record_cases :
      (id : PlayerId) (r : OfficialPitcherRecord) {n : StagingGameDocumentV2}
      → (r.player_id ≡ id
          → P (record d {
            official_records = record d.official_records {
              pitchers =
                  put_record r d.official_records.pitchers
                    (index_where (has_id (λ p. p.player_id) id) d.official_records.pitchers);
            };
          }))
      → update_pitcher_record d id r ≡ draft n
      → P n
  unfolding update_pitcher_record
  update_pitcher_record_cases id r {n} placed h = elim (Bool-cases (r.player_id == id)) [
    | inl same ↦ subst P (draft-injective (rw same at h)) (placed (ground arith))
    | inr other ↦
        let failed : thrown CorrectionError.record_player_id_changed ≡ draft n = rw other at h in cc
  ]

pub update_roster_position_cases :
    (P : StagingGameDocumentV2 → Type 0) (d : StagingGameDocumentV2) (side : Side) (id : PlayerId)
    (positions : List String) {n : StagingGameDocumentV2}
    → ((p : RosterPlayer) (i : ℕ)
        → index_where (has_id (λ q. q.player_id) id) (roster_of side d.rosters).players ≡ some i
        → p.player_id ≡ id
        → P (with_players d side (replace_at i p (roster_of side d.rosters).players)))
    → update_roster_position d side id positions ≡ draft n
    → P n
unfolding update_roster_position
update_roster_position_cases P d side id positions {n} placed h =
    elim (Option-cases (find (has_id (λ q. q.player_id) id) (roster_of side d.rosters).players)) [
      | inl gone ↦
          let failed : thrown (CorrectionError.roster_player_not_found id) ≡ draft n =
            rw gone at h in
          cc
      | inr (p, found) ↦
          let moved : RosterPlayer = record p { positions = positions } in
          update_roster_player_cases P d side id moved {n = n} (placed moved) (rw found at h)
    ]

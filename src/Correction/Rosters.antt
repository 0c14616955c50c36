-- ===== src/Correction/Rosters.antt =====
-- The corrections of rosters and of official records in packages/correction/src/commands.ts:
-- updateRosterPlayer, updateRosterPosition, updateBatterRecord and updatePitcherRecord.
use mathlib.Core.Option
use kbo_workbench.Prelude.{
  Bool, List, Option, String, [], find, if◌then◌else◌, none, some, suc, ℕ, ◌++◌, ◌==◌, ◌∷◌,
}
use kbo_workbench.Contracts.Document.{StagingGameDocumentV2, roster_of, set_roster}
use kbo_workbench.Contracts.Event.{PlayerId, Side}
use kbo_workbench.Contracts.Records.{OfficialBatterRecord, OfficialPitcherRecord, RosterPlayer}
use kbo_workbench.Correction.Rows.{Corrected, CorrectionError, draft, replace_at, thrown}

-- `xs.findIndex(p)`
abbrev pub index_where {ℓ} : {D : Type ℓ} → (D → Bool) → List D → Option ℕ
index_where p [] = none
index_where p (x ∷ xs) = if p x then some 0 else Option.map suc (index_where p xs)

abbrev pub has_id {ℓ} : {D : Type ℓ} → (D → PlayerId) → PlayerId → D → Bool
has_id key id x = key x == id

abbrev pub with_players : StagingGameDocumentV2 → Side → List RosterPlayer → StagingGameDocumentV2
with_players d side players = record d {
  rosters = set_roster side (record (roster_of side d.rosters) { players = players }) d.rosters;
}

abbrev place_player :
    StagingGameDocumentV2
    → Side
    → PlayerId
    → RosterPlayer
    → Option ℕ
    → Corrected StagingGameDocumentV2
place_player d side id player none = thrown (CorrectionError.roster_player_not_found id)
place_player d side id player (some i) =
    draft (with_players d side (replace_at i player (roster_of side d.rosters).players))

unfoldable pub update_roster_player :
    StagingGameDocumentV2 → Side → PlayerId → RosterPlayer → Corrected StagingGameDocumentV2
update_roster_player d side id player =
    if player.player_id == id
    then place_player d side id player
        (index_where (has_id (λ p. p.player_id) id) (roster_of side d.rosters).players)
    else thrown CorrectionError.roster_player_id_changed

abbrev moved_player :
    StagingGameDocumentV2
    → Side
    → PlayerId
    → List String
    → Option RosterPlayer
    → Corrected StagingGameDocumentV2
moved_player d side id positions none = thrown (CorrectionError.roster_player_not_found id)
moved_player d side id positions (some p) =
    update_roster_player d side id (record p { positions = positions })

unfoldable pub update_roster_position :
    StagingGameDocumentV2 → Side → PlayerId → List String → Corrected StagingGameDocumentV2
unfolding update_roster_player
update_roster_position d side id positions =
    moved_player d side id positions
      (find (has_id (λ p. p.player_id) id) (roster_of side d.rosters).players)

-- The record of the player, or a new one behind the others.
abbrev pub put_record {ℓ} : {D : Type ℓ} → D → List D → Option ℕ → List D
put_record r rs none = rs ++ r ∷ []
put_record r rs (some i) = replace_at i r rs

unfoldable pub update_batter_record :
    StagingGameDocumentV2 → PlayerId → OfficialBatterRecord → Corrected StagingGameDocumentV2
update_batter_record d id r =
    let rs = d.official_records.batters in
    if r.player_id == id
    then draft (record d {
      official_records = record d.official_records {
        batters = put_record r rs (index_where (has_id (λ b. b.player_id) id) rs);
      };
    })
    else thrown CorrectionError.record_player_id_changed

unfoldable pub update_pitcher_record :
    StagingGameDocumentV2 → PlayerId → OfficialPitcherRecord → Corrected StagingGameDocumentV2
update_pitcher_record d id r =
    let rs = d.official_records.pitchers in
    if r.player_id == id
    then draft (record d {
      official_records = record d.official_records {
        pitchers = put_record r rs (index_where (has_id (λ p. p.player_id) id) rs);
      };
    })
    else thrown CorrectionError.record_player_id_changed

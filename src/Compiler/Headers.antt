-- ===== src/Compiler/Headers.antt =====
-- `findBatterHeadersConfirmedBySubstitution` of
-- packages/game-core/src/compiler/play-index.ts: a batter row whose batter a substitution brings
-- in, next to it on either side.
use kbo_workbench.Prelude.{
  Bool, List, [], add_new, false, if◌then◌else◌, not, true, ◌&&◌, ◌==◌, ◌||◌, ◌∷◌,
}
use kbo_workbench.Compiler.PlayIndex.{same_play_half}
use kbo_workbench.Contracts.Document.{StagingGameDocumentV2}
use kbo_workbench.Contracts.Event.{
  BatterStartEvent, EventId, PlayerId, StagingRelayEvent, SubstitutionRole, base_of,
}

abbrev is_batter_role : SubstitutionRole → Bool
is_batter_role SubstitutionRole.batter = true
is_batter_role _ = false

-- The rows that the search passes over.
abbrev is_passed_over : StagingRelayEvent → Bool
is_passed_over (StagingRelayEvent.administrative e) = true
is_passed_over (StagingRelayEvent.review e) = true
is_passed_over (StagingRelayEvent.substitution e) = not (is_batter_role e.payload.role)
is_passed_over _ = false

abbrev brings_in : PlayerId → StagingRelayEvent → Bool
brings_in p (StagingRelayEvent.substitution e) =
    is_batter_role e.payload.role && e.payload.incoming_player_id == p
brings_in p _ = false

-- One of the two inner loops, over the rows in the direction of the search.
confirmed_by : BatterStartEvent → List StagingRelayEvent → Bool
confirmed_by event [] = false
confirmed_by event (e ∷ es) =
    let rest = confirmed_by event es in
    if not (same_play_half (base_of e) event.base)
    then false
    else if is_passed_over e
    then rest
    else brings_in event.payload.batter_id e

-- `before` holds the rows already passed, the nearest first.
confirmed_headers : List StagingRelayEvent → List StagingRelayEvent → List EventId → List EventId
unfolding confirmed_by
confirmed_headers before [] found = found
confirmed_headers before (StagingRelayEvent.batter_start e ∷ es) found =
    confirmed_headers (StagingRelayEvent.batter_start e ∷ before) es (
      if confirmed_by e before || confirmed_by e es
      then add_new e.base.identity.event_id found
      else found)
confirmed_headers before (e ∷ es) found = confirmed_headers (e ∷ before) es found

unfoldable pub find_batter_headers_confirmed_by_substitution : StagingGameDocumentV2 → List EventId
unfolding confirmed_headers
find_batter_headers_confirmed_by_substitution document = confirmed_headers [] document.events []

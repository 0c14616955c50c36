-- ===== src/Compiler/Observed.antt =====
-- packages/game-core/src/compiler/observed-state-validation.ts: the comparison of the compiler's
-- state with what the source observed. A mismatch of a field is reported once, and again only
-- after the field has agreed.
use kbo_workbench.Prelude.{
  Bool, List, Option, [], all, any, drop, false, filter, if◌then◌else◌, is_some, leb, ltb, map,
  none, not, some, true, ℕ, ◌&&◌, ◌++◌, ◌+◌, ◌==◌, ◌∷◌,
}
use kbo_workbench.Compiler.Context.{CompileContext, add_finding, detail}
use kbo_workbench.Contracts.Document.{GameStatus, StagingGameDocumentV2}
use kbo_workbench.Contracts.Event.{
  Half, LedgerEventBase, ObservedBase, ObservedBases, ObservedState, PlateResultEvent,
  RunnerAdvanceEvent, is_non_state, same_half,
}
use kbo_workbench.Game.Findings.{
  DetailField, DetailValue, FindingCategory, FindingCode, FindingDetail, ObservedField,
}
use kbo_workbench.Game.State.{BaseOccupant, Bases, GameState}
use kbo_workbench.Movement.Placement.{runner_value}

pub record CompareOptions : Type 0 where
  pub include_count : Bool
  pub include_balls : Bool
  pub include_strikes : Bool
  pub include_bases : Bool
  pub include_outs : Bool
  pub include_score : Bool

-- One compared field: what was observed, what was computed, and whether they agree.
pub record Observation : Type 0 where
  pub field : ObservedField
  pub expected : DetailValue
  pub actual : DetailValue
  pub matches : Bool

abbrev field_index : ObservedField → ℕ
field_index ObservedField.balls = 0
field_index ObservedField.strikes = 1
field_index ObservedField.outs = 2
field_index ObservedField.away_score = 3
field_index ObservedField.home_score = 4
field_index ObservedField.base_1 = 5
field_index ObservedField.base_2 = 6
field_index ObservedField.base_3 = 7

abbrev same_field : ObservedField → ObservedField → Bool
same_field a b = field_index a == field_index b

-- `set.has(f)`, `set.delete(f)` and `set.add(f)` on a set of fields.
abbrev has_field : ObservedField → List ObservedField → Bool
has_field f fs = any (same_field f) fs

abbrev delete_field : ObservedField → List ObservedField → List ObservedField
delete_field f fs = filter (λ g. not (same_field f g)) fs

abbrev add_field : ObservedField → List ObservedField → List ObservedField
add_field f fs = if has_field f fs then fs else fs ++ f ∷ []

-- `appendObservedNumberMismatch` with the test that adds the field to `comparedFields`.
observe_number : Bool → ObservedField → Option ℕ → ℕ → List Observation
observe_number false f o actual = []
observe_number true f none actual = []
observe_number true f (some e) actual =
    record {
      field = f;
      expected = DetailValue.number e;
      actual = DetailValue.number actual;
      matches = e == actual;
    }
    ∷ []

abbrev base_value : ObservedBase → DetailValue
base_value (ObservedBase.occupied b) = DetailValue.flag b
base_value (ObservedBase.runner p) = DetailValue.identifier p
base_value ObservedBase.vacant = DetailValue.null

base_matches : ObservedBase → Option BaseOccupant → Bool
base_matches (ObservedBase.occupied true) o = is_some o
base_matches (ObservedBase.occupied false) o = not (is_some o)
base_matches ObservedBase.vacant o = not (is_some o)
base_matches (ObservedBase.runner p) none = false
base_matches (ObservedBase.runner p) (some o) = p == o.runner_id

abbrev observe_base : ObservedField → ObservedBase → Option BaseOccupant → Observation
observe_base f e o = record {
  field = f;
  expected = base_value e;
  actual = runner_value o;
  matches = base_matches e o;
}

observe_bases : Bool → Option ObservedBases → Bases → List Observation
unfolding base_matches
observe_bases false e b = []
observe_bases true none b = []
observe_bases true (some e) b =
    observe_base ObservedField.base_1 e.first b.first_base
    ∷ observe_base ObservedField.base_2 e.second b.second_base
    ∷ observe_base ObservedField.base_3 e.third b.third_base
    ∷ []

pub observations : CompareOptions → ObservedState → GameState → List Observation
unfolding observe_number observe_bases
observations o e s =
    observe_number (o.include_count && o.include_balls) ObservedField.balls e.balls s.balls
    ++ (observe_number (o.include_count && o.include_strikes) ObservedField.strikes e.strikes
          s.strikes
        ++ (observe_number o.include_outs ObservedField.outs e.outs s.outs
            ++ (observe_number o.include_score ObservedField.away_score e.away_score s.away_score
                ++ (observe_number o.include_score ObservedField.home_score e.home_score
                      s.home_score
                    ++ observe_bases o.include_bases e.bases s.bases))))

abbrev detail_of : Observation → FindingDetail
detail_of o = detail (DetailField.observed o.field) o.expected o.actual

-- The fields that agree leave the set of reported mismatches. A field is compared once.
clear_matched : List Observation → List ObservedField → List ObservedField
clear_matched [] fs = fs
clear_matched (o ∷ os) fs = clear_matched os (if o.matches then delete_field o.field fs else fs)

-- The mismatches that are not yet reported.
newly_mismatched : List ObservedField → List Observation → List Observation
newly_mismatched fs os = filter (λ o. not o.matches && not (has_field o.field fs)) os

add_fields : List Observation → List ObservedField → List ObservedField
add_fields [] fs = fs
add_fields (o ∷ os) fs = add_fields os (add_field o.field fs)

abbrev pub report : LedgerEventBase → List Observation → CompileContext → CompileContext
report event [] context = context
report event (o ∷ os) context =
    add_finding event FindingCode.source_observation_mismatch FindingCategory.source
      (map detail_of (o ∷ os)) context

unfoldable pub compare_observations :
    LedgerEventBase → List Observation → CompileContext → CompileContext
unfolding clear_matched newly_mismatched add_fields
compare_observations event os context =
    let cleared = clear_matched os context.observation_mismatch_fields in
    let fresh = newly_mismatched cleared os in
    report event fresh (record context { observation_mismatch_fields = add_fields fresh cleared })

unfoldable pub compare_observed_state :
    GameState → LedgerEventBase → CompareOptions → CompileContext → CompileContext
unfolding observations compare_observations
compare_observed_state s event options context = elim event.observed_state_after [
  | none ↦ context
  | some e ↦ compare_observations event (observations options e s) context
]

abbrev pub is_final : GameStatus → Bool
is_final GameStatus.final = true
is_final _ = false

-- The game is over by a walk-off: only rows that change no state follow.
pub is_final_walk_off : GameState → LedgerEventBase → StagingGameDocumentV2 → Bool
is_final_walk_off s event document =
    is_final document.metadata.status
    && same_half s.half Half.bottom
    && leb document.metadata.scheduled_innings s.inning
    && ltb s.away_score s.home_score
    && all is_non_state (drop (event.sequence + 1) document.events)

abbrev bases_settled : GameState → LedgerEventBase → CompileContext → Bool
bases_settled s event context = ltb s.outs 3 && not (is_final_walk_off s event context.document)

abbrev pub all_options : CompareOptions
all_options = record {
  include_count = true;
  include_balls = true;
  include_strikes = true;
  include_bases = true;
  include_outs = true;
  include_score = true;
}

abbrev pub plate_options : GameState → LedgerEventBase → CompileContext → CompareOptions
plate_options s event context = record all_options {
  include_count = false;
  include_bases = bases_settled s event context;
}

abbrev pub independent_options : GameState → LedgerEventBase → CompileContext → CompareOptions
independent_options s event context = record all_options {
  include_bases = bases_settled s event context;
}

-- `linkedRunners.at(-1) ?? result`
abbrev pub last_row : List RunnerAdvanceEvent → LedgerEventBase → LedgerEventBase
last_row [] b = b
last_row (e ∷ es) b = last_row es e.base

unfoldable pub compare_plate_play_observed_state :
    GameState → PlateResultEvent → List RunnerAdvanceEvent → CompileContext → CompileContext
unfolding compare_observed_state is_final_walk_off
compare_plate_play_observed_state s result linked context =
    let event = last_row linked result.base in
    compare_observed_state s event (plate_options s event context) context

-- The group of an independent play always holds its leader, whose row stands for an empty group.
unfoldable pub compare_independent_play_observed_state :
    GameState → RunnerAdvanceEvent → List RunnerAdvanceEvent → CompileContext → CompileContext
unfolding compare_observed_state is_final_walk_off
compare_independent_play_observed_state s leader runners context =
    let event = last_row runners leader.base in
    compare_observed_state s event (independent_options s event context) context

-- ===== src/Rules/Counts.antt =====
-- `applyPitchCall` and `isWalkTransferredToPreviousPitcher` of packages/game-core/src/rules.ts.
use kbo_workbench.Prelude.{
  Bool, List, [], arith, count, false, if◌then◌else◌, ltb, min, true, ℕ, ◌&&◌, ◌+◌, ◌<◌, ◌==◌, ◌||◌,
  ◌↔◌, ◌∷◌, ◌≡◌, ◌≤◌,
}
use kbo_workbench.Contracts.Event.{PitchCall}

pub record CountTransition : Type 0 where
  pub balls : ℕ
  pub strikes : ℕ
  pub is_actual_pitch : Bool
  pub is_pitching_strike : Bool

abbrev transition_to : ℕ → ℕ → Bool → Bool → CountTransition
transition_to b s actual strike = record {
  balls = b;
  strikes = s;
  is_actual_pitch = actual;
  is_pitching_strike = strike;
}

unfoldable pub apply_pitch_call : ℕ → ℕ → PitchCall → CountTransition
apply_pitch_call balls strikes PitchCall.no_pitch = transition_to balls strikes false false
apply_pitch_call balls strikes PitchCall.automatic_ball =
    transition_to (balls + 1) strikes false false
apply_pitch_call balls strikes PitchCall.automatic_strike =
    transition_to balls (strikes + 1) false false
apply_pitch_call balls strikes PitchCall.ball = transition_to (balls + 1) strikes true false
apply_pitch_call balls strikes PitchCall.hit_by_pitch = transition_to balls strikes true false
apply_pitch_call balls strikes PitchCall.foul =
    transition_to balls (if ltb strikes 2 then strikes + 1 else strikes) true true
apply_pitch_call balls strikes PitchCall.called_strike = transition_to balls (strikes + 1) true true
apply_pitch_call balls strikes PitchCall.swinging_strike =
    transition_to balls (strikes + 1) true true
apply_pitch_call balls strikes PitchCall.foul_bunt = transition_to balls (strikes + 1) true true
apply_pitch_call balls strikes PitchCall.foul_tip = transition_to balls (strikes + 1) true true
apply_pitch_call balls strikes PitchCall.in_play = transition_to balls strikes true true

pub is_walk_transferred_to_previous_pitcher : ℕ → ℕ → Bool
is_walk_transferred_to_previous_pitcher balls strikes =
    (balls == 2 && (strikes == 0 || strikes == 1))
    || (balls == 3 && (strikes == 0 || strikes == 1 || strikes == 2))

-- The count behind a sequence of calls, as the pitches of a plate appearance make it.
abbrev pub count_after : ℕ → ℕ → List PitchCall → ℕ × ℕ
count_after balls strikes [] = (balls, strikes)
count_after balls strikes (c ∷ cs) =
    let next = apply_pitch_call balls strikes c in count_after next.balls next.strikes cs

abbrev pub adds_ball : PitchCall → Bool
adds_ball PitchCall.ball = true
adds_ball PitchCall.automatic_ball = true
adds_ball _ = false

-- The calls that are a strike at any count.
abbrev pub adds_strike : PitchCall → Bool
adds_strike PitchCall.called_strike = true
adds_strike PitchCall.swinging_strike = true
adds_strike PitchCall.foul_bunt = true
adds_strike PitchCall.foul_tip = true
adds_strike PitchCall.automatic_strike = true
adds_strike _ = false

abbrev pub is_foul_call : PitchCall → Bool
is_foul_call PitchCall.foul = true
is_foul_call _ = false

-- How a number of strikes `s` became `t` along calls, with `k` strikes above two before them.
abbrev StrikesFollow : ℕ → ℕ → List PitchCall → ℕ → Type 0
StrikesFollow k s cs t =
    (s + count adds_strike cs ≤ t)
    × (t ≤ 2 + k + count adds_strike cs)
    × (t ≤ s + count adds_strike cs + count is_foul_call cs)
    × (min 2 t ≡ min 2 (s + count adds_strike cs + count is_foul_call cs))

count_after-follows :
    (balls strikes k : ℕ) (cs : List PitchCall)
    → strikes ≤ 2 + k
    → ((count_after balls strikes cs).0 ≡ balls + count adds_ball cs)
      × StrikesFollow k strikes cs (count_after balls strikes cs).1
unfolding apply_pitch_call
count_after-follows balls strikes k [] h = ground arith
count_after-follows balls strikes k (c ∷ cs) h =
    let next = apply_pitch_call balls strikes c in
    let rest =
      count_after-follows next.balls next.strikes (k + count adds_strike (c ∷ [])) cs
        (ground arith) in
    ground (arith, rest)

-- From a count of at most two strikes, after whatever calls: the balls have gone up by the number of
-- balls and automatic balls. The strikes have gone up by at least the number of calls that are a
-- strike at any count and by at most that number and the fouls together; fouls alone lead no further
-- than two, so that there are at most two strikes and these calls; and up to two, the strikes are
-- the number of both kinds of calls.
pub count_of_calls :
    (balls strikes : ℕ) (cs : List PitchCall)
    → strikes ≤ 2
    → let (b, s) = count_after balls strikes cs in
      (b ≡ balls + count adds_ball cs)
      × (strikes + count adds_strike cs ≤ s)
      × (s ≤ 2 + count adds_strike cs)
      × (s ≤ strikes + count adds_strike cs + count is_foul_call cs)
      × (min 2 s ≡ min 2 (strikes + count adds_strike cs + count is_foul_call cs))
count_of_calls balls strikes cs h = ground (arith, count_after-follows balls strikes 0 cs h)

-- A pitcher who leaves keeps the walk exactly when the count is 2-0, 2-1, 3-0, 3-1 or 3-2: at
-- least two balls, more balls than strikes, and both below the count that ends the appearance.
pub walk_transferred_iff :
    (balls strikes : ℕ)
    → balls ≤ 3
    → strikes ≤ 2
    → (is_walk_transferred_to_previous_pitcher balls strikes ≡ true)
      ↔ ((2 ≤ balls) × (strikes < balls))
unfolding is_walk_transferred_to_previous_pitcher
walk_transferred_iff balls strikes hb hs = ground arith

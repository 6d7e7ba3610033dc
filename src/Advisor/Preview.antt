-- ===== src/Advisor/Preview.antt =====
-- The live preview of a leg and of a coupon in services/advisor/domain.py: `period_score_now`,
-- `period_goals_now`, `live_leg_progress`, `live_coupon_progress` and `_period_finished`.
pub mod Laws
use predictor.Prelude.{
  ℕ, Bool, true, false, Option, none, some, List, [], ◌∷◌, if◌then◌else◌, is_in, is_some, any, all,
  ◌||◌, ◌&&◌, String,
}
use predictor.Prelude.Int.{ℤ, pos, ◌+ℤ◌, ◌-ℤ◌, ltb_ℤ}
use predictor.Prelude.Result.{Result, ok, value_error}
use predictor.Advisor.Domain.{
  Period, regulation, extra_time, LiveProgress, LiveScore, irregular_fixture_statuses,
  regulation_ended, extra_time_ended, regulation_statuses, extra_time_statuses, in_play_pause, pair,
}

abbrev signed : Option (ℕ × ℕ) → Option (ℤ × ℤ)
signed none = none
signed (some (home, away)) = some (pos home, pos away)

-- the live board less the score at full time; a correction of the feed can make it negative
abbrev since_fulltime : Option (ℕ × ℕ) → Option (ℕ × ℕ) → Option (ℤ × ℤ)
since_fulltime (some (lh, la)) (some (fh, fa)) = some (pos lh -ℤ pos fh, pos la -ℤ pos fa)
since_fulltime _ _ = none

regulation_score : LiveScore → Option (ℕ × ℕ)
unfolding pair
regulation_score score =
    let fulltime = pair score.fulltime_home score.fulltime_away in
    let live = pair score.goals_home score.goals_away in
    let paused = is_in score.status_short in_play_pause in
    if is_in score.status_short regulation_ended
    then fulltime
    else if is_in score.status_short regulation_statuses || paused
    then (if paused && is_some fulltime then fulltime else live)
    else none

extra_time_score : LiveScore → Option (ℤ × ℤ)
unfolding pair ◌-ℤ◌
extra_time_score score = elim (pair score.extratime_home score.extratime_away) [
  | some (home, away) ↦ some (pos home, pos away)
  | none ↦
      if is_in score.status_short extra_time_statuses || is_in score.status_short in_play_pause
      then since_fulltime (pair score.goals_home score.goals_away)
          (pair score.fulltime_home score.fulltime_away)
      else none
]

unfoldable pub period_score_now : Period → LiveScore → Option (ℤ × ℤ)
unfolding regulation_score extra_time_score
period_score_now regulation score = signed (regulation_score score)
period_score_now extra_time score = extra_time_score score

abbrev sum_of : Option (ℤ × ℤ) → Option ℤ
sum_of none = none
sum_of (some (home, away)) = some (home +ℤ away)

unfoldable pub period_goals_now : Period → LiveScore → Option ℤ
unfolding period_score_now ◌+ℤ◌
period_goals_now period score = sum_of (period_score_now period score)

-- `_period_finished`
unfoldable pub period_finished : Period → String → Bool
period_finished regulation status_short = is_in status_short regulation_ended
period_finished extra_time status_short = is_in status_short extra_time_ended

abbrev board_progress : ℕ → Bool → Option ℤ → LiveProgress
board_progress n finished none = if finished then LiveProgress.lost else LiveProgress.unknown
board_progress n finished (some goals) =
    if ltb_ℤ (pos n) goals
    then LiveProgress.hit
    else if finished
    then LiveProgress.lost
    else LiveProgress.open_leg

unfoldable pub live_leg_progress : Period → ℕ → LiveScore → LiveProgress
unfolding period_goals_now period_finished
live_leg_progress period n score =
    if is_in score.status_short irregular_fixture_statuses
    then LiveProgress.void
    else board_progress n (period_finished period score.status_short)
        (period_goals_now period score)

abbrev is_lost_leg : LiveProgress → Bool
is_lost_leg LiveProgress.lost = true
is_lost_leg _ = false

abbrev is_unknown : LiveProgress → Bool
is_unknown LiveProgress.unknown = true
is_unknown _ = false

abbrev is_open : LiveProgress → Bool
is_open LiveProgress.open_leg = true
is_open _ = false

abbrev is_void_leg : LiveProgress → Bool
is_void_leg LiveProgress.void = true
is_void_leg _ = false

abbrev progress_outcomes : List LiveProgress → LiveProgress
progress_outcomes outcomes =
    if any is_lost_leg outcomes
    then LiveProgress.lost
    else if any is_unknown outcomes
    then LiveProgress.unknown
    else if any is_open outcomes
    then LiveProgress.open_leg
    else if all is_void_leg outcomes
    then LiveProgress.void
    else LiveProgress.hit

unfoldable pub live_coupon_progress : List LiveProgress → Result LiveProgress
live_coupon_progress [] = value_error
live_coupon_progress (outcome ∷ outcomes) = ok (progress_outcomes (outcome ∷ outcomes))

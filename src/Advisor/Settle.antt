-- ===== src/Advisor/Settle.antt =====
-- The settlement rules of services/advisor/domain.py: `settle_leg`, `settle_coupon` and their
-- helper `_final_goals`.
pub mod Laws
use predictor.Prelude.{
  ℕ, ◌+◌, Bool, true, false, not, Option, none, some, List, [], ◌∷◌, ltb, if◌then◌else◌, is_in, any,
  all,
}
use predictor.Prelude.Result.{Result, ok, value_error}
use predictor.Advisor.Domain.{
  Period, regulation, extra_time, Settlement, FinalScore, irregular_fixture_statuses,
  finished_fixture_statuses, pair,
}

-- the total of a score of which both sides are known
abbrev pub total_of : Option (ℕ × ℕ) → Option ℕ
total_of none = none
total_of (some (home, away)) = some (home + away)

-- `_final_goals`
unfoldable pub final_goals : Period → FinalScore → Option ℕ
unfolding pair
final_goals regulation score = total_of (pair score.fulltime_home score.fulltime_away)
final_goals extra_time score = total_of (pair score.extratime_home score.extratime_away)

abbrev settle_total : ℕ → Option ℕ → Settlement
settle_total n none = Settlement.manual
settle_total n (some total) = if ltb n total then Settlement.won else Settlement.lost

unfoldable pub settle_leg : Period → ℕ → FinalScore → Settlement
unfolding final_goals
settle_leg period n score =
    if is_in score.status_short irregular_fixture_statuses
    then Settlement.void
    else if not (is_in score.status_short finished_fixture_statuses)
    then (if score.awaiting_manual then Settlement.manual else Settlement.pending)
    else if not score.final_refreshed
    then Settlement.pending
    else settle_total n (final_goals period score)

abbrev pub is_won : Settlement → Bool
is_won Settlement.won = true
is_won _ = false

abbrev pub is_lost : Settlement → Bool
is_lost Settlement.lost = true
is_lost _ = false

abbrev pub is_manual : Settlement → Bool
is_manual Settlement.manual = true
is_manual _ = false

abbrev pub is_pending : Settlement → Bool
is_pending Settlement.pending = true
is_pending _ = false

abbrev pub is_void : Settlement → Bool
is_void Settlement.void = true
is_void _ = false

-- the tests of `settle_coupon` on a coupon that has legs
abbrev pub settle_outcomes : List Settlement → Settlement
settle_outcomes outcomes =
    if any is_lost outcomes
    then Settlement.lost
    else if any is_manual outcomes
    then Settlement.manual
    else if any is_pending outcomes
    then Settlement.pending
    else if all is_void outcomes
    then Settlement.void
    else Settlement.won

unfoldable pub settle_coupon : List Settlement → Result Settlement
settle_coupon [] = value_error
settle_coupon (outcome ∷ outcomes) = ok (settle_outcomes (outcome ∷ outcomes))

-- ===== src/Quota.antt =====
-- The budget of requests (services/quota.py): what live work holds back until midnight in UTC, and
-- what the rest of the day may be spent on. `Tiers` and `Fit` share the calls out, `Windows`
-- forecasts the matches of the day, `Plan` makes the plan, `Spend` spends by it. A fraction is exact
-- where Python has a float; the unit of time is a quarter of a microsecond, since a match is split at
-- a quarter.
mod Tiers
mod Fit
pub mod Windows
pub mod Plan
pub mod Spend
mod TierLaws
pub mod PlanLaws
mod DripLaws
pub mod CreditLaws
mod Tests
use predictor.Prelude.{ℕ, ◌+◌, ◌*◌, Bool, Option}
use predictor.Prelude.Ratio.{Ratio, ceil_div}
use predictor.Prelude.Time.{second}

abbrev pub quarter_seconds : ℕ
quarter_seconds = 4 * second

abbrev pub live_detail_refresh_seconds : ℕ
live_detail_refresh_seconds = 5 * 60

abbrev pub idle_score_poll_seconds : ℕ
idle_score_poll_seconds = 5 * 60

abbrev pub match_live_hours : ℕ
match_live_hours = 2

abbrev pub live_context_final_calls : ℕ
live_context_final_calls = 8

abbrev pub live_context_oneshot_calls : ℕ
live_context_oneshot_calls = 12

abbrev pub live_context_max_calls_per_tick : ℕ
live_context_max_calls_per_tick = 40 + live_context_final_calls + live_context_oneshot_calls

abbrev pub live_context_credit_ticks : ℕ
live_context_credit_ticks = 3

pub record LiveBudgetPlan : Type 0 where
  pub score_need : ℕ
  pub detail_need : ℕ
  pub odds_need : ℕ
  pub detail_refresh_seconds : ℕ
  pub oneshot_calls : ℕ
  pub score_poll_seconds : Ratio
  pub poll_odds : Bool
  pub relaxed_refresh_seconds : ℕ
  pub odds_refresh_seconds : ℕ
  pub overloaded : Bool
  pub safety_buffer : ℕ
  pub oneshot_reserve : ℕ
  pub max_context_calls : ℕ
  pub context_calls_per_tick : Ratio
  pub allowed_per_minute : Ratio

abbrev pub full_reserve : LiveBudgetPlan → ℕ
full_reserve plan = plan.score_need + plan.detail_need + plan.odds_need

abbrev pub reserved_calls : LiveBudgetPlan → ℕ
reserved_calls plan = full_reserve plan + plan.oneshot_reserve

-- The percentage is a fraction; a limit or a percentage of 0 keeps nothing.
unfoldable pub safety_buffer_requests : ℕ → Ratio → ℕ
unfolding ceil_div
safety_buffer_requests limit_day buffer_percent =
    ceil_div (limit_day * buffer_percent.num) (100 * buffer_percent.den)

-- `_Quality`
pub record Quality : Type 0 where
  pub interval : ℕ
  pub relaxed_interval : ℕ
  pub detail_need : ℕ
  pub odds_need : ℕ
  pub oneshot_calls : ℕ
  pub oneshot_reserve : ℕ
  pub odds_interval : ℕ
  pub overloaded : Bool

-- ===== src/Quota/Spend.antt =====
-- How the plan is spent, in services/quota.py: the gate on priorities, the credit of the live
-- context, the share of history, and the sleep between two polls. Numbers that the code clamps at 0
-- are natural numbers here.
use predictor.Prelude.{
  ℕ, ◌+◌, ◌-◌, ◌*◌, ◌/◌, min, max, Bool, true, false, ◌&&◌, ◌||◌, ltb, leb, ◌==◌, if◌then◌else◌,
}
use predictor.Prelude.Ratio.{Ratio, ceil_div, is_positive}
use predictor.Prelude.Time.{DateTime, second}
use predictor.Prelude.Result.{Result, ok, ◌>>=◌}
use predictor.Quota.{LiveBudgetPlan, full_reserve, live_context_credit_ticks}
use predictor.Quota.Windows.{utc}
use predictor.Quota.Plan.{time_left}

-- `quota_allows`, of the calls that remain
unfoldable pub quota_allows : ℕ → ℕ → LiveBudgetPlan → Bool
quota_allows priority remaining plan =
    if remaining == 0 || leb remaining plan.safety_buffer
    then false
    else if leb priority 2
    then true
    else if leb remaining (plan.safety_buffer + plan.score_need)
    then false
    else if priority == 3
    then is_positive plan.context_calls_per_tick
    else if plan.overloaded
    then false
    else if priority == 4
    then plan.poll_odds && ltb (plan.safety_buffer + plan.score_need + plan.detail_need) remaining
    else ltb (plan.safety_buffer + full_reserve plan) remaining

-- `ContextCredit`. Amounts are in parts of a call, `scale` of them a call; Python has a float.
pub record ContextCredit : Type 0 where
  pub balance : ℕ

abbrev credit_cap : ℕ → ℕ
credit_cap rate = rate * live_context_credit_ticks

-- `draw_context_credit`: the calls, and the credit afterwards
unfoldable pub draw_context_credit : ℕ → ContextCredit → ℕ → ℕ × ContextCredit
draw_context_credit scale credit rate =
    let balance = min (credit_cap rate) (credit.balance + rate) in
    let allowed = balance / scale in
    if rate == 0 then (0, credit) else (allowed, record { balance = balance - allowed * scale })

-- `refund_context_credit`
unfoldable pub refund_context_credit : ℕ → ContextCredit → ℕ → ℕ → ContextCredit
refund_context_credit scale credit unused rate =
    if unused == 0 || rate == 0
    then credit
    else record { balance = min (credit_cap rate) (credit.balance + unused * scale) }

-- `context_allowance`
unfoldable pub context_allowance : ℕ → ContextCredit → ℕ → ℕ → ℕ × ContextCredit
unfolding draw_context_credit refund_context_credit
context_allowance scale credit rate room =
    let (drawn, left) = draw_context_credit scale credit rate in
    let allowed = if leb drawn room then drawn else room in
    (allowed, refund_context_credit scale left (drawn - allowed) rate)

-- `queue_cycle_seconds`
abbrev pub queue_cycle : ℕ → ℕ → ℕ
queue_cycle sleep live_target = sleep

-- `history_call_allowance`; the two times are in the same unit
unfoldable pub history_call_allowance : ℕ → ℕ → ℕ → ℕ → ℕ
history_call_allowance surplus time_left cycle catch_up_cap =
    let paced = min surplus (ceil_div (surplus * cycle) (max cycle time_left)) in
    if surplus == 0 || time_left == 0 || cycle == 0
    then 0
    else if ltb 0 catch_up_cap
    then min paced catch_up_cap
    else paced

-- `seconds_until_utc_midnight`, in microseconds
abbrev pub time_until_utc_midnight : DateTime → Result ℕ
time_until_utc_midnight now = do now ← utc now; ok (time_left now)

-- the interval that `ticks` polls until midnight leave
abbrev stretched : ℕ → ℕ → ℕ → Ratio
stretched left ticks target =
    if leb left (target * second * ticks)
    then record { num = target; den = 1 }
    else record { num = left; den = ticks * second }

-- `live_poll_interval_seconds` at an instant in UTC
unfoldable pub poll_interval_at : ℕ → ℕ → ℕ → ℕ → Ratio
poll_interval_at remaining target left requests_per_tick =
    let cost = max 1 requests_per_tick in
    let until_midnight : Ratio = record { num = left; den = second } in
    if remaining == 0
    then until_midnight
    else if leb (left * cost) (remaining * target * second)
    then record { num = target; den = 1 }
    else if remaining / cost == 0
    then until_midnight
    else stretched left (remaining / cost) target

-- `live_poll_interval_seconds`, for a target above 0
unfoldable pub live_poll_interval_seconds : ℕ → ℕ → DateTime → ℕ → Result Ratio
unfolding poll_interval_at
live_poll_interval_seconds remaining target now requests_per_tick = do
  left ← time_until_utc_midnight now
  ok (poll_interval_at remaining target left requests_per_tick)

-- ===== src/Quota/PlanLaws.antt =====
-- A plan reserves no more than the calls above its safety buffer.
use predictor.Prelude.{
  ℕ, ◌+◌, ◌-◌, ◌≤◌, ◌<◌, ◌≡◌, refl, Bool, true, false, arith, ltb, leb, ◌==◌, if◌then◌else◌, subst,
}
use predictor.Prelude.Result.{ok, ok-injective, >>=-eq-ok}
use predictor.Quota.{
  LiveBudgetPlan, Quality, full_reserve, reserved_calls, safety_buffer_requests,
  live_detail_refresh_seconds, live_context_oneshot_calls,
}
use predictor.Quota.Fit.{Needs, reserve, fits, at_fast, tiered, fit_quality}
use predictor.Quota.TierLaws.{tiered_intervals-calls}
use predictor.Quota.Windows.{utc, windows_of, resolve_forecast}
use predictor.Quota.Plan.{
  Draft, scores_only, Day, Inputs, assemble_plan, stopped_plan, stretched_plan, fitted_draft,
  plan_day, day_from, midnight_after, plan_live_budget,
}
use predictor.Quota.Spend.{quota_allows}

-- what a choice costs
abbrev cost : Needs → Quality → ℕ
cost needs choice =
    needs.score_need + choice.detail_need + choice.odds_need + choice.oneshot_reserve

tiered-cost :
    (needs : Needs) → needs.score_need ≤ needs.usable → cost needs (tiered needs) ≤ needs.usable
unfolding tiered
tiered-cost needs h =
    let (calls, order) =
      tiered_intervals-calls needs.play needs.finishing (needs.usable - needs.score_need)
        needs.seconds_left in
    omega arith

if-cost :
    (needs : Needs) (test : Bool) (x y : Quality)
    → (test ≡ true → cost needs x ≤ needs.usable)
    → cost needs y ≤ needs.usable
    → cost needs (if test then x else y) ≤ needs.usable
if-cost needs true x y first second = first refl
if-cost needs false x y first second = second

fast-cost :
    (needs : Needs) (odds cap reserved : ℕ) (overloaded : Bool)
    → fits needs needs.detail_at_fast odds reserved ≡ true
    → cost needs (at_fast needs odds cap reserved overloaded) ≤ needs.usable
fast-cost needs odds cap reserved overloaded e = ground arith

fit_quality-cost :
    (needs : Needs)
    → needs.score_need ≤ needs.usable
    → cost needs (fit_quality needs) ≤ needs.usable
unfolding fit_quality
fit_quality-cost needs h =
    let full = reserve needs.live_ticks live_context_oneshot_calls in
    let reduced = reserve needs.live_ticks 4 in
    if-cost needs _ _ _
      (λ e. fast-cost needs needs.ideal_odds live_context_oneshot_calls full false e)
      (if-cost needs _ _ _ (λ e. fast-cost needs needs.ideal_odds 4 reduced false e)
        (if-cost needs _ _ _ (λ e. fast-cost needs needs.ideal_odds 0 0 false e)
          (if-cost needs _ _ _ (λ e. fast-cost needs 0 0 0 (ltb 0 needs.ideal_odds) e)
            (tiered-cost needs h))))

-- The plan reserves at most these calls and keeps this buffer.
abbrev pub IsWithin : ℕ → ℕ → LiveBudgetPlan → Type 0
IsWithin usable buffer plan = (reserved_calls plan ≤ usable) × (plan.safety_buffer ≡ buffer)

assemble_plan-IsWithin :
    (d : Draft) (usable : ℕ)
    → d.score_need + d.detail_need + d.odds_need + d.oneshot_reserve ≤ usable
    → IsWithin usable d.buffer (assemble_plan d)
unfolding assemble_plan
assemble_plan-IsWithin d usable h = (h, refl)

if-IsWithin :
    (usable buffer : ℕ) (test : Bool) (x y : LiveBudgetPlan)
    → IsWithin usable buffer x
    → (test ≡ false → IsWithin usable buffer y)
    → IsWithin usable buffer (if test then x else y)
if-IsWithin usable buffer true x y first second = first
if-IsWithin usable buffer false x y first second = second refl

stretched_plan-IsWithin : (day : Day) → IsWithin day.needs.usable day.buffer (stretched_plan day)
unfolding assemble_plan
stretched_plan-IsWithin day = (omega arith, refl)

covers :
    (day : Day)
    → day.needs.score_need ≡ day.score
    → ltb day.needs.usable day.score ≡ false
    → day.needs.score_need ≤ day.needs.usable
covers day same enough = ground arith

plan_day-IsWithin :
    (day : Day)
    → day.needs.score_need ≡ day.score
    → IsWithin day.needs.usable day.buffer (plan_day day)
unfolding plan_day stopped_plan
plan_day-IsWithin day same =
    let usable = day.needs.usable in
    let stopped =
      scores_only 0 live_detail_refresh_seconds day.seconds_left day.in_play day.buffer in
    if-IsWithin usable day.buffer (usable == 0) (assemble_plan stopped) _
      (assemble_plan-IsWithin stopped usable (omega arith))
      (λ _.
        if-IsWithin usable day.buffer (ltb usable day.score) (stretched_plan day) _
          (stretched_plan-IsWithin day)
          (λ enough.
            assemble_plan-IsWithin (fitted_draft day (fit_quality day.needs)) usable
              (fit_quality-cost day.needs (covers day same enough))))

-- A plan that `plan_live_budget` returns reserves, for scores, detail, odds and one-shot calls
-- together, at most the calls that remain above its safety buffer, and its buffer is the configured
-- percentage of the daily limit.
pub plan_live_budget-IsWithin :
    (i : Inputs) (plan : LiveBudgetPlan)
    → plan_live_budget i ≡ ok plan
    → (reserved_calls plan ≤ i.remaining - plan.safety_buffer)
      × (plan.safety_buffer ≡ safety_buffer_requests i.limit_day i.buffer_percent)
unfolding plan_live_budget
plan_live_budget-IsWithin i plan e =
    let (now, at, rest) = >>=-eq-ok (utc i.now) _ e in
    let (windows, at_windows, done) =
      >>=-eq-ok
        (windows_of now (midnight_after now) i.live_matches
          (resolve_forecast i.forecast i.matches_left_today now))
        _ rest in
    let (calls, buffer) =
      subst (IsWithin _ _) (ok-injective done) (plan_day-IsWithin (day_from i now windows) refl) in
    rw buffer (calls, refl)

-- what the gate keeps from a priority
abbrev pub kept_from : LiveBudgetPlan → ℕ → ℕ
kept_from plan priority =
    if leb priority 2
    then plan.safety_buffer
    else if leb priority 3
    then plan.safety_buffer + plan.score_need
    else if leb priority 4
    then plan.safety_buffer + plan.score_need + plan.detail_need
    else plan.safety_buffer + full_reserve plan

pub quota_allows-kept :
    (priority remaining : ℕ) (plan : LiveBudgetPlan)
    → quota_allows priority remaining plan ≡ true
    → kept_from plan priority < remaining
unfolding quota_allows
quota_allows-kept priority remaining plan e = ground arith

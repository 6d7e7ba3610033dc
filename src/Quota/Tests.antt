-- ===== src/Quota/Tests.antt =====
-- The plan and its spending on concrete days.
use predictor.Prelude.{
  ℕ, ◌+◌, ◌-◌, ◌*◌, ◌≤◌, ◌≡◌, refl, true, false, none, some, List, [], ◌∷◌, arith,
}
use predictor.Prelude.Ratio.{whole, ceil_div}
use predictor.Prelude.Time.{aware, second}
use predictor.Prelude.Result.{ok}
use predictor.Quota.{LiveBudgetPlan, reserved_calls, safety_buffer_requests}
use predictor.Quota.Fit.{reserve, fit_quality}
use predictor.Quota.Tiers.{detail_calls}
use predictor.Quota.Windows.{
  resolve_forecast, windows_of, segments_of, match_time, integrated_polls,
}
use predictor.Quota.Plan.{Inputs, plan_day, assemble_plan, plan_live_budget}
use predictor.Quota.PlanLaws.{plan_live_budget-IsWithin}
use predictor.Quota.CreditLaws.{allowances, paid, lost, expected, allowances-exact}
use predictor.Quota.DripLaws.{drip, total, AllAtMost, drip-spends}

-- an evening: 20:00, two live matches and four of an unknown kickoff, 5,000 of 7,500 calls left
abbrev evening : Inputs
evening = record {
  live_matches = 2;
  remaining = 5000;
  now = aware (20 * 3600 * second);
  target_seconds = 60;
  matches_left_today = some 4;
  forecast = none;
  finishing_matches = 1;
  limit_day = 7500;
  buffer_percent = whole 5;
}

abbrev plan : LiveBudgetPlan
plan = record {
  score_need = 144;
  detail_need = 145;
  odds_need = 120;
  detail_refresh_seconds = 300;
  oneshot_calls = 12;
  score_poll_seconds = whole 60;
  poll_odds = true;
  relaxed_refresh_seconds = 300;
  odds_refresh_seconds = 60;
  overloaded = false;
  safety_buffer = 375;
  oneshot_reserve = 1440;
  max_context_calls = 12;
  context_calls_per_tick = record { num = 5443200000; den = 432000000 };
  allowed_per_minute = record { num = 352512000000; den = 25920000000 };
}

planned : plan_live_budget evening ≡ ok plan
unfolding plan_live_budget windows_of resolve_forecast plan_day safety_buffer_requests
    integrated_polls segments_of assemble_plan fit_quality detail_calls match_time reserve
planned = refl

plan_live_budget-IsWithin_example :
    (reserved_calls plan ≤ 5000 - 375) × (375 ≡ safety_buffer_requests 7500 (whole 5))
plan_live_budget-IsWithin_example = plan_live_budget-IsWithin evening plan planned

drip-spends_example : (total (drip 3 100 60 0) ≡ 100) × AllAtMost (ceil_div 100 3) (drip 3 100 60 0)
drip-spends_example = drip-spends 2 100 60 (omega arith)

-- two ticks of one call and three fifths; the room of the second cuts it
abbrev ticks : List (ℕ × ℕ)
ticks = (16, 5) ∷ (16, 0) ∷ (16, 5) ∷ []

allowances-exact_example :
    ((allowances 10 (record { balance = 0 }) ticks).0 ≡ expected 10 (record { balance = 0 }) ticks)
    × ((allowances 10 (record { balance = 0 }) ticks).1.balance
          + (allowances 10 (record { balance = 0 }) ticks).0 * 10
          + lost 10 (record { balance = 0 }) ticks
        ≡ 0 + paid ticks)
allowances-exact_example = allowances-exact 10 (record { balance = 0 }) ticks

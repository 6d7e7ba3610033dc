-- ===== src/Advisor/Budget/Tests.antt =====
-- Two sandbox calls of one day against a share of 70.
use predictor.Prelude.{ℕ, ◌+◌, ◌≤◌, ◌≡◌, refl, sym, ◌∙◌, List, [], ◌∷◌, arith}
use predictor.Prelude.Decimal.{round_half_up}
use predictor.Prelude.Result.{ok, ok-injective}
use predictor.Advisor.Budget.{
  AdvisorSettings, completion, call_cost, estimate_tokens, estimate_call_cost, budget_cap,
  budget_allows, spent_today, utc_day_bounds, run_locked,
}
use predictor.Advisor.Budget.Laws.{Turn, Fits, spent_on, run_turns, run_turns_within}

abbrev settings : AdvisorSettings
settings = record { llm_price_input = 10000; llm_price_output = 20000; advisor_daily_budget = 100 }

abbrev sandbox : ℕ → Turn
sandbox now = record {
  request = record { mode = "sandbox"; prompt = 400 };
  now = now;
  reply = completion (record { input = 100; output = 2000; thoughts = 0 }) "ok";
}

abbrev turns : List Turn
turns = sandbox 5 ∷ sandbox 9 ∷ []

cap_of : budget_cap "sandbox" 100 ≡ ok 70
unfolding budget_cap round_half_up
cap_of = refl

fits : (now : ℕ) → Fits settings 70 0 (sandbox now)
unfolding estimate_call_cost estimate_tokens call_cost round_half_up
fits now = record {
  capped = λ c e. omega (arith, ok-injective (sym cap_of ∙ e));
  near = omega arith;
}

spent_twice : spent_on 0 (run_turns settings turns []) ≡ 41
unfolding run_locked spent_today utc_day_bounds budget_allows budget_cap round_half_up call_cost
    estimate_call_cost estimate_tokens
spent_twice = refl

run_turns_within_example : spent_on 0 (run_turns settings turns []) ≤ 70 + 0
run_turns_within_example =
    run_turns_within settings 70 0 0 turns [] (fits 5, (fits 9, tt)) (omega arith)

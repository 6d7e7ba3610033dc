-- ===== src/Advisor/Recommend/Tests.antt =====
-- The law of the strategies at a desk with a promoted and a paused strategy.
use predictor.Prelude.{◌≡◌, refl, [], ◌∷◌, arith}
use predictor.Prelude.Result.{ok}
use predictor.Advisor.Sandbox.Book.{portfolio_balance, coupon_rows, stake_after_wins, won_count}
use predictor.Advisor.Sandbox.Release.{funded, release_funded_strategies}
use predictor.Advisor.Recommend.Strategies.{Desk}
use predictor.Advisor.Recommend.StrategyLaws.{IsSound}
use predictor.Advisor.Recommend.ReachLaws.{here, after, releases, Reaches-IsSound}

abbrev desk_launched : Desk
desk_launched = record {
  strategies =
      record { id = 1; status = "promoted"; kind = "llm" }
      ∷ record { id = 2; status = "sandbox"; kind = "llm" }
      ∷ [];
  versions = [];
  coupons = [];
  events =
      record {
        strategy_id = 2;
        previous_status = "proposed";
        new_status = "sandbox";
        source = "operator";
        note = "launch";
      }
      ∷ [];
}

abbrev paused_now : Desk
paused_now = record desk_launched {
  strategies =
      record { id = 1; status = "promoted"; kind = "llm" }
      ∷ record { id = 2; status = "paused"; kind = "llm" }
      ∷ [];
}

paused_now-IsSound : IsSound paused_now.strategies
paused_now-IsSound = record { keyed = λ k. ground arith; single = omega arith }

-- a new book covers its first stake
released : release_funded_strategies [] [] paused_now.strategies ≡ ok desk_launched.strategies
unfolding release_funded_strategies funded portfolio_balance coupon_rows stake_after_wins won_count
released = refl

Reaches-IsSound_example : IsSound desk_launched.strategies
Reaches-IsSound_example =
    Reaches-IsSound paused_now desk_launched
      (after here (releases paused_now desk_launched.strategies released)) paused_now-IsSound

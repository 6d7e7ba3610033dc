-- ===== src/Advisor/Sandbox/Release.antt =====
-- `release_funded_strategies` of services/advisor/sandbox.py: a paused strategy runs again once its
-- book covers the next stake.
use predictor.Prelude.{ℕ, Bool, List, [], ◌∷◌, if◌then◌else◌, str_eq}
use predictor.Prelude.Int.{pos, leb_ℤ}
use predictor.Prelude.Result.{Result, ok, ◌>>=◌}
use predictor.Advisor.Sandbox.Book.{
  Strategy, Version, Coupon, portfolio_balance, coupon_rows, stake_after_wins, won_count,
}

-- whether the book of a strategy covers its next stake
unfoldable pub funded : List Version → List Coupon → ℕ → Result Bool
funded versions coupons strategy_id = do
  balance ← portfolio_balance (coupon_rows versions strategy_id coupons)
  ok (leb_ℤ (pos (stake_after_wins (won_count versions strategy_id coupons))) balance)

abbrev pub release_one : List Version → List Coupon → Strategy → Result Strategy
release_one versions coupons strategy =
    if str_eq strategy.status "paused"
    then (do
      covered ← funded versions coupons strategy.id
      ok (if covered then record strategy { status = "sandbox" } else strategy))
    else ok strategy

-- A book without a balance raises, and the transaction is rolled back.
unfoldable pub release_funded_strategies :
    List Version → List Coupon → List Strategy → Result (List Strategy)
release_funded_strategies versions coupons [] = ok []
release_funded_strategies versions coupons (strategy ∷ strategies) = do
  first ← release_one versions coupons strategy
  rest ← release_funded_strategies versions coupons strategies
  ok (first ∷ rest)

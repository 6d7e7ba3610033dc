-- ===== src/Advisor/Recommend.antt =====
-- The gates of services/advisor/recommend.py, and the changes of a strategy's status in
-- services/advisor/recommend_ops.py. A yield and a drawdown are in ten-thousandths.
mod Strategies
mod StrategyLaws
mod DeskLaws
mod ReachLaws
mod Tests
use predictor.Prelude.{
  ℕ, ◌+◌, ◌*◌, String, Bool, true, false, ◌||◌, Option, none, some, List, [], ◌∷◌, ltb, leb, ◌==◌,
  if◌then◌else◌,
}
use predictor.Prelude.Int.{ℤ, pos, negsuc, pos_part, ◌+ℤ◌, ◌-ℤ◌, ltb_ℤ, leb_ℤ}
use predictor.Prelude.Decimal.{round_half_up, round_difference}
use predictor.Advisor.Sandbox.Book.{sandbox_bankroll}

abbrev pub promotion_sample : ℕ
promotion_sample = 200

abbrev pub largest_drawdown : ℕ
largest_drawdown = 2500

abbrev ten_thousandths : ℤ → ℤ
ten_thousandths (pos n) = pos (n * 10000)
ten_thousandths (negsuc n) = pos 0 -ℤ pos ((n + 1) * 10000)

unfoldable pub net_yield : ℤ → ℕ → Option ℤ
unfolding round_difference ◌-ℤ◌
net_yield pnl stakes =
    if stakes == 0 then none else some (round_difference (ten_thousandths pnl) stakes)

-- the loop of `max_drawdown`: the equity, its peak, and the worst drop so far
unfoldable pub worst_drop : ℤ → ℤ → ℤ → List ℤ → ℤ
unfolding ◌+ℤ◌ ◌-ℤ◌
worst_drop equity peak worst [] = worst
worst_drop equity peak worst (pnl ∷ pnls) =
    let now = equity +ℤ pnl in
    let top = if ltb_ℤ peak now then now else peak in
    let drop = top -ℤ now in worst_drop now top (if ltb_ℤ worst drop then drop else worst) pnls

-- with the bankroll of the sandbox, which is not zero
unfoldable pub max_drawdown : List ℤ → ℕ
unfolding worst_drop round_half_up
max_drawdown pnls =
    round_half_up
      (pos_part (worst_drop (pos sandbox_bankroll) (pos sandbox_bankroll) (pos 0) pnls) * 10000)
      sandbox_bankroll

abbrev not_above : Option ℤ → ℤ → Bool
not_above none floor = true
not_above (some yield_net) floor = leb_ℤ yield_net floor

abbrev not_better : Option ℤ → Option ℤ → Bool
not_better yield_net none = true
not_better yield_net (some baseline) = not_above yield_net baseline

unfoldable pub promotion_block : ℕ → Option ℤ → Option ℤ → ℕ → Option String
promotion_block settled yield_net baseline_yield drawdown =
    if ltb settled promotion_sample
    then some "sample"
    else if not_above yield_net (pos 0)
    then some "yield"
    else if not_better yield_net baseline_yield
    then some "baseline"
    else if ltb largest_drawdown drawdown
    then some "drawdown"
    else none

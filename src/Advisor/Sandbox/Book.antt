-- ===== src/Advisor/Sandbox/Book.antt =====
-- The rows that services/advisor/sandbox.py reads and writes (models/advisor.py), its balance and
-- its count of wins. Money is in hundredths.
use predictor.Prelude.{
  ℕ, ◌+◌, ◌*◌, String, Bool, false, ◌&&◌, Option, none, some, List, [], ◌∷◌, if◌then◌else◌, ◌==◌,
  str_eq,
}
use predictor.Prelude.Int.{ℤ, pos, ◌+ℤ◌, ◌-ℤ◌}
use predictor.Prelude.Result.{Result, ok, value_error, ◌>>=◌}
use predictor.Advisor.Domain.{Settlement}
use predictor.Advisor.Odds.{settled_pnl}

pub record Strategy : Type 0 where
  pub id : ℕ
  pub status : String
  pub kind : String

pub record Version : Type 0 where
  pub id : ℕ
  pub strategy_id : ℕ

pub record Coupon : Type 0 where
  pub id : ℕ
  pub mode : String
  pub strategy_version_id : ℕ
  pub cycle_id : Option ℕ
  pub status : String
  pub stake : ℕ
  pub combined_odd : Option ℕ
  pub proposed_combined_odd : Option ℕ
  pub payout_keep : ℕ

pub record Leg : Type 0 where
  pub coupon_id : ℕ
  pub strategy_id : ℕ
  pub fixture_id : ℕ
  pub mode : String
  pub period : String
  pub n : ℕ
  pub odd : ℕ
  pub goals_home : ℕ
  pub goals_away : ℕ
  pub status : String

-- New rows go to the end of a table. The sequence of coupon ids is not rolled back.
pub record Db : Type 0 where
  pub strategies : List Strategy
  pub versions : List Version
  pub coupons : List Coupon
  pub legs : List Leg
  pub next_coupon : ℕ

abbrev pub sandbox_bankroll : ℕ
sandbox_bankroll = 20000

-- `stake_after_wins` of constants.py: 21.00, and 0.10 more for each win
unfoldable pub stake_after_wins : ℕ → ℕ
stake_after_wins wins = 2100 + 10 * wins

-- stake, combined odd, kept share, status
abbrev pub Row : Type 0
Row = ℕ × Option ℕ × ℕ × String

abbrev win : ℤ → ℕ → Option ℕ → ℕ → Result ℤ
win balance stake none keep = value_error
win balance stake (some odd) keep = do
  pnl ← settled_pnl stake odd Settlement.won keep
  ok (balance +ℤ pnl)

-- one turn of the loop of `portfolio_balance`
abbrev pub add_row : ℤ → Row → Result ℤ
add_row balance (stake, odd, keep, status) =
    if str_eq status "open"
    then ok (balance -ℤ pos stake)
    else if str_eq status "won"
    then win balance stake odd keep
    else if str_eq status "lost"
    then ok (balance -ℤ pos stake)
    else ok balance

unfoldable pub balance_from : ℤ → List Row → Result ℤ
unfolding settled_pnl ◌+ℤ◌ ◌-ℤ◌
balance_from balance [] = ok balance
balance_from balance (row ∷ rows) = do next ← add_row balance row; balance_from next rows

-- every term is in hundredths, so the final `quantize` changes nothing
unfoldable pub portfolio_balance : List Row → Result ℤ
unfolding balance_from
portfolio_balance rows = balance_from (pos sandbox_bankroll) rows

-- `session.get(AdvisorStrategyVersion, ...)` and the select of one strategy
unfoldable pub find_version : List Version → ℕ → Option Version
find_version [] k = none
find_version (version ∷ versions) k =
    if version.id == k then some version else find_version versions k

unfoldable pub find_strategy : List Strategy → ℕ → Option Strategy
find_strategy [] k = none
find_strategy (strategy ∷ strategies) k =
    if strategy.id == k then some strategy else find_strategy strategies k

-- the join on the version, and the test on the mode
unfoldable pub belongs : List Version → ℕ → Coupon → Bool
unfolding find_version
belongs versions strategy_id coupon = elim (find_version versions coupon.strategy_version_id) [
  | none ↦ false
  | some version ↦ version.strategy_id == strategy_id && str_eq coupon.mode "sandbox"
]

-- `_coupon_rows`
unfoldable pub coupon_rows : List Version → ℕ → List Coupon → List Row
unfolding belongs
coupon_rows versions strategy_id [] = []
coupon_rows versions strategy_id (coupon ∷ coupons) =
    let rest = coupon_rows versions strategy_id coupons in
    if belongs versions strategy_id coupon
    then (coupon.stake, coupon.combined_odd, coupon.payout_keep, coupon.status) ∷ rest
    else rest

-- `_won_count`
unfoldable pub won_count : List Version → ℕ → List Coupon → ℕ
unfolding belongs
won_count versions strategy_id [] = 0
won_count versions strategy_id (coupon ∷ coupons) =
    let rest = won_count versions strategy_id coupons in
    if belongs versions strategy_id coupon && str_eq coupon.status "won" then 1 + rest else rest

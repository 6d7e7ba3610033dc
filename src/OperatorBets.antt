-- ===== src/OperatorBets.antt =====
-- The ledger of the operator's next-goal bets, services/operator_bets.py and models/operator_bets.py:
-- a bet and its profit or loss. An odd and a payout share are in thousandths, a stake in hundredths.
mod Goals
mod Store
mod History
mod GoalLaws
mod StoreLaws
mod ManualLaws
mod HistoryLaws
mod Tests
use predictor.Prelude.{ℕ, ◌+◌, ◌*◌, String, Option, str_eq, if◌then◌else◌}
use predictor.Prelude.Int.{ℤ, pos, ◌-ℤ◌}
use predictor.Prelude.Decimal.{round_difference}

pub record OperatorBet : Type 0 where
  pub id : ℕ
  pub fixture_id : ℕ
  pub odd : ℕ
  pub stake : ℕ
  pub status : String
  pub placed_at : ℕ
  pub settled_at : Option ℕ
  pub league : String
  pub home_name : String
  pub away_name : String
  pub goals_home : ℕ
  pub goals_away : ℕ
  pub elapsed : Option ℕ
  pub status_short : Option String
  pub payout_keep : ℕ

-- in hundredths
unfoldable pub row_pnl : OperatorBet → ℤ
unfolding round_difference ◌-ℤ◌
row_pnl bet =
    if str_eq bet.status "won"
    then round_difference (pos (bet.stake * bet.odd * bet.payout_keep) -ℤ pos (bet.stake * 1000000))
        1000000
    else if str_eq bet.status "lost"
    then pos 0 -ℤ pos bet.stake
    else pos 0

-- `stake_after_wins` of constants.py
unfoldable pub stake_after_wins : ℕ → ℕ
stake_after_wins wins = 2100 + 10 * wins

-- ===== src/OperatorBets/History.antt =====
-- `build_history` of services/operator_bets.py: the rows with their running balance, and the
-- metrics. The hit rates, which are floats, are left out; a sum of amounts in hundredths is exact,
-- so `money` keeps it.
use predictor.Prelude.{
  ℕ, suc, ◌+◌, String, Bool, ◌&&◌, ◌||◌, Option, none, some, List, [], ◌∷◌, ltb, ◌==◌, str_eq,
  is_in, length, if◌then◌else◌,
}
use predictor.Prelude.Int.{ℤ, pos, ◌+ℤ◌}
use predictor.Prelude.Decimal.{round_half_up}
use predictor.OperatorBets.{OperatorBet, row_pnl, stake_after_wins}

pub record BetHistoryRow : Type 0 where
  pub id : ℕ
  pub fixture_id : ℕ
  pub placed_at : ℕ
  pub settled_at : Option ℕ
  pub league : String
  pub home : String
  pub away : String
  pub odd : ℕ
  pub stake : ℕ
  pub status : String
  pub pnl : ℤ
  pub saldo : ℤ

pub record BetMetrics : Type 0 where
  pub n : ℕ
  pub wins : ℕ
  pub losses : ℕ
  pub voids : ℕ
  pub open_count : ℕ
  pub saldo : ℤ
  pub current_stake : ℕ
  pub avg_odd : Option ℕ
  pub staked : ℕ

-- the variables of the loop
pub record Tally : Type 0 where
  pub saldo : ℤ
  pub wins : ℕ
  pub losses : ℕ
  pub voids : ℕ
  pub open_count : ℕ
  pub odd_sum : ℕ
  pub staked : ℕ

abbrev pub no_bets : Tally
no_bets = record {
  saldo = pos 0;
  wins = 0;
  losses = 0;
  voids = 0;
  open_count = 0;
  odd_sum = 0;
  staked = 0;
}

abbrev pub placed_before : OperatorBet → OperatorBet → Bool
placed_before a b = ltb a.placed_at b.placed_at || a.placed_at == b.placed_at && ltb a.id b.id

abbrev pub insert_bet : OperatorBet → List OperatorBet → List OperatorBet
insert_bet bet [] = bet ∷ []
insert_bet bet (first ∷ bets) =
    let behind = insert_bet bet bets in
    if placed_before bet first then bet ∷ first ∷ bets else first ∷ behind

unfoldable pub sort_bets : List OperatorBet → List OperatorBet
sort_bets [] = []
sort_bets (bet ∷ bets) = insert_bet bet (sort_bets bets)

abbrev pub add_status : String → Tally → Tally
add_status status t =
    if str_eq status "won"
    then record t { wins = suc t.wins }
    else if str_eq status "lost"
    then record t { losses = suc t.losses }
    else if str_eq status "void"
    then record t { voids = suc t.voids }
    else record t { open_count = suc t.open_count }

-- one round of the loop
unfoldable pub count_bet : OperatorBet → Tally → Tally
count_bet bet t =
    let settled = is_in bet.status ("won" ∷ "lost" ∷ "void" ∷ []) in
    add_status bet.status (record t {
      saldo = if settled then t.saldo +ℤ row_pnl bet else t.saldo;
      staked = t.staked + bet.stake;
      odd_sum = t.odd_sum + bet.odd;
    })

abbrev history_row : OperatorBet → ℤ → BetHistoryRow
history_row bet saldo = record {
  id = bet.id;
  fixture_id = bet.fixture_id;
  placed_at = bet.placed_at;
  settled_at = bet.settled_at;
  league = bet.league;
  home = bet.home_name;
  away = bet.away_name;
  odd = bet.odd;
  stake = bet.stake;
  status = bet.status;
  pnl = row_pnl bet;
  saldo = saldo;
}

unfoldable pub history_loop : List OperatorBet → Tally → List BetHistoryRow × Tally
history_loop [] t = ([], t)
history_loop (bet ∷ bets) t =
    let t' = count_bet bet t in
    let (rows, end) = history_loop bets t' in (history_row bet t'.saldo ∷ rows, end)

abbrev pub metrics_of : ℕ → Tally → BetMetrics
metrics_of n t = record {
  n = n;
  wins = t.wins;
  losses = t.losses;
  voids = t.voids;
  open_count = t.open_count;
  saldo = t.saldo;
  current_stake = stake_after_wins t.wins;
  avg_odd = if n == 0 then none else some (round_half_up t.odd_sum n);
  staked = t.staked;
}

unfoldable pub build_history : List OperatorBet → List BetHistoryRow × BetMetrics
unfolding history_loop
build_history bets =
    let (rows, t) = history_loop (sort_bets bets) no_bets in
    (rows, metrics_of (length (sort_bets bets)) t)

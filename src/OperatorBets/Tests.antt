-- ===== src/OperatorBets/Tests.antt =====
-- The laws of the ledger at a small table.
use predictor.Prelude.{
  String, ℕ, ◌<◌, ◌≤◌, ◌+◌, ◌≡◌, ◌↔◌, ◌⊎◌, refl, true, false, none, some, List, [], ◌∷◌, ◌++◌, any,
  str_eq,
}
use predictor.Prelude.Codes.{is_code_in, upper}
use predictor.OperatorBets.{OperatorBet}
use predictor.OperatorBets.Goals.{
  FixtureEvent, short_of, leave_open, finished_no_goal, goal_since, event_side,
  has_counting_goal_since_snapshot, resolve_auto_outcome,
}
use predictor.OperatorBets.Store.{
  settle_row, settle_outcome, find_bet, is_open, settle_bet_manual, bet_error, LiveMatch, Fixture,
  place_bet, new_bet, open_on, current_stake, settle_open_tickets, auto_outcome, events_of,
}
use predictor.OperatorBets.History.{build_history}
use predictor.OperatorBets.GoalLaws.{score, has_counting_goal_iff, resolve_auto_outcome_iff}
use predictor.OperatorBets.StoreLaws.{
  IsOpenOnce, Settles, place_bet-IsOpenOnce, settle_open_tickets-Settles,
}
use predictor.OperatorBets.ManualLaws.{settle_bet_manual-again}
use predictor.OperatorBets.HistoryLaws.{
  total_pnl, total_stake, with_status, unsettled, build_history-metrics,
}

abbrev derby : LiveMatch
derby = record {
  fixture_id = 7;
  league = "Poland · Ekstraklasa";
  home = "Lech";
  away = "Legia";
  goals_home = some 1;
  goals_away = none;
  elapsed = some 55;
  status_short = some "2H";
}

abbrev bet_one : OperatorBet
bet_one = new_bet 1 100 derby 1500 2100

abbrev won_before : OperatorBet
won_before = record bet_one { id = 0; fixture_id = 3; status = "won"; settled_at = some 90 }

abbrev table_now : List OperatorBet
table_now = won_before ∷ bet_one ∷ []

abbrev goal : ℕ → ℕ → FixtureEvent
goal id minute = record {
  id = id;
  fixture_id = 7;
  event_type = "Goal";
  team_id = some 20;
  detail = some "Normal Goal";
  minute = some minute;
  minute_extra = none;
}

abbrev goals : List FixtureEvent
goals = goal 1 10 ∷ goal 2 60 ∷ []

abbrev fixture_row : Fixture
fixture_row = record {
  id = 7;
  home_team_id = 20;
  away_team_id = 30;
  goals_home = some 2;
  goals_away = some 0;
  status_short = some "2H";
}

run :
    settle_open_tickets (fixture_row ∷ []) goals 200 table_now
    ≡ (1, won_before ∷ record bet_one { status = "won"; settled_at = some 200 } ∷ [])
unfolding settle_open_tickets auto_outcome resolve_auto_outcome has_counting_goal_since_snapshot
    goal_since event_side events_of is_code_in upper
run = refl

has_counting_goal_iff_example :
    (has_counting_goal_since_snapshot goals 20 30 1 0 ≡ true)
    ↔ ((1 < (score 20 30 (0, 0) goals).0) ⊎ (0 < (score 20 30 (0, 0) goals).1))
has_counting_goal_iff_example = has_counting_goal_iff goals 20 30 1 0 (refl, (refl, tt))

resolve_auto_outcome_iff_example :
    ((resolve_auto_outcome 1 0 1 0 (some "FT") false ≡ some "won") ↔ (
      (false ≡ true)
      ⊎ ((1 ≤ 1)
          × (0 ≤ 0)
          × (is_code_in (short_of (some "FT")) leave_open ≡ false)
          × (is_code_in (short_of (some "FT")) finished_no_goal ≡ true)
          × (1 + 0 < 1 + 0))))
    × ((resolve_auto_outcome 1 0 1 0 (some "FT") false ≡ some "lost") ↔ (
        (false ≡ false)
        × (◌≡◌ {A = ℕ} 1 1)
        × (◌≡◌ {A = ℕ} 0 0)
        × (is_code_in (short_of (some "FT")) leave_open ≡ false)
        × (is_code_in (short_of (some "FT")) finished_no_goal ≡ true)))
    × ((outcome : String)
        → resolve_auto_outcome 1 0 1 0 (some "FT") false ≡ some outcome
        → (outcome ≡ "won") ⊎ (outcome ≡ "lost"))
resolve_auto_outcome_iff_example = resolve_auto_outcome_iff 1 0 1 0 (some "FT") false

abbrev placed_now : List OperatorBet
placed_now = won_before ∷ new_bet 1 100 derby 1500 2110 ∷ []

place_bet-IsOpenOnce_example :
    (any (open_on 7) (won_before ∷ []) ≡ false)
    × ((new_bet 1 100 derby 1500 2110).stake ≡ current_stake (won_before ∷ []))
    × (placed_now ≡ (won_before ∷ []) ++ new_bet 1 100 derby 1500 2110 ∷ [])
    × IsOpenOnce placed_now
unfolding place_bet
place_bet-IsOpenOnce_example =
    place_bet-IsOpenOnce 1 100 derby 1500 (won_before ∷ []) placed_now
      (new_bet 1 100 derby 1500 2110) (refl, tt) refl

settle_open_tickets-Settles_example :
    Settles
      (fixture_row ∷ [])
      goals
      200
      (settle_open_tickets (fixture_row ∷ []) goals 200 table_now).0
      table_now
      (settle_open_tickets (fixture_row ∷ []) goals 200 table_now).1
settle_open_tickets-Settles_example =
    settle_open_tickets-Settles (fixture_row ∷ []) goals 200 table_now

build_history-metrics_example :
    ((build_history table_now).1.saldo ≡ total_pnl table_now)
    × ((build_history table_now).1.staked ≡ total_stake table_now)
    × ((build_history table_now).1.n ≡ 2)
    × ((build_history table_now).1.wins ≡ with_status (λ s. str_eq s "won") table_now)
    × ((build_history table_now).1.losses ≡ with_status (λ s. str_eq s "lost") table_now)
    × ((build_history table_now).1.voids ≡ with_status (λ s. str_eq s "void") table_now)
    × ((build_history table_now).1.open_count ≡ with_status unsettled table_now)
build_history-metrics_example = build_history-metrics table_now

abbrev table_settled : List OperatorBet
table_settled = won_before ∷ settle_row "void" 250 bet_one ∷ []

settle_bet_manual-again_example :
    ((bet : OperatorBet) × (value : String) × (settle_outcome " Void " ≡ some value)
      × (find_bet 1 table_now ≡ some bet)
      × (is_open bet ≡ true)
      × (find_bet 1 table_settled ≡ some (settle_row value 250 bet)))
    × (settle_bet_manual 300 1 " Void " table_settled ≡ bet_error 409)
unfolding settle_bet_manual settle_outcome
settle_bet_manual-again_example =
    settle_bet_manual-again 250 300 1 " Void " table_now table_settled refl

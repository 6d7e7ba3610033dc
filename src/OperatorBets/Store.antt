-- ===== src/OperatorBets/Store.antt =====
-- The operations on the table of bets in services/operator_bets.py: `count_wins`, `current_stake`,
-- `place_bet`, `settle_bet_manual` and `settle_open_tickets`. The table is the list of its rows in
-- the order of their ids.
use predictor.Prelude.{
  ℕ, ◌+◌, String, Bool, true, false, ◌&&◌, ◌||◌, Option, none, some, List, [], ◌∷◌, ◌++◌, ltb, ◌==◌,
  str_eq, any, keep, length, or_zero, if◌then◌else◌,
}
use predictor.Prelude.Codes.{strip_lower, code_eq, codes}
use predictor.OperatorBets.{OperatorBet, stake_after_wins}
use predictor.OperatorBets.Goals.{
  FixtureEvent, has_counting_goal_since_snapshot, resolve_auto_outcome,
}

abbrev pub is_open : OperatorBet → Bool
is_open bet = str_eq bet.status "open"

abbrev count_wins : List OperatorBet → ℕ
count_wins bets = length (keep (λ bet. str_eq bet.status "won") bets)

unfoldable pub current_stake : List OperatorBet → ℕ
unfolding stake_after_wins
current_stake bets = stake_after_wins (count_wins bets)

-- what `place_bet` reads of a `LiveMatch`; `league` is the label of its country and league
pub record LiveMatch : Type 0 where
  pub fixture_id : ℕ
  pub league : String
  pub home : String
  pub away : String
  pub goals_home : Option ℕ
  pub goals_away : Option ℕ
  pub elapsed : Option ℕ
  pub status_short : Option String

-- `BetError` with its code
pub data BetResult (A : Type 0) : Type 0 where
  done : A → BetResult A
  bet_error : ℕ → BetResult A

abbrev pub open_on : ℕ → OperatorBet → Bool
open_on fixture_id bet = bet.fixture_id == fixture_id && is_open bet

abbrev pub new_bet : ℕ → ℕ → LiveMatch → ℕ → ℕ → OperatorBet
new_bet id now match_ odd stake = record {
  id = id;
  fixture_id = match_.fixture_id;
  odd = odd;
  stake = stake;
  status = "open";
  placed_at = now;
  settled_at = none;
  league = match_.league;
  home_name = match_.home;
  away_name = match_.away;
  goals_home = or_zero match_.goals_home;
  goals_away = or_zero match_.goals_away;
  elapsed = match_.elapsed;
  status_short = match_.status_short;
  payout_keep = 880;
}

-- The database gives the new row its id and its time.
unfoldable pub place_bet :
    ℕ → ℕ → LiveMatch → ℕ → List OperatorBet → BetResult (OperatorBet × List OperatorBet)
unfolding current_stake
place_bet id now match_ odd bets =
    if any (open_on match_.fixture_id) bets
    then bet_error 409
    else let bet = new_bet id now match_ odd (current_stake bets) in done (bet, bets ++ bet ∷ [])

abbrev pub find_bet : ℕ → List OperatorBet → Option OperatorBet
find_bet id [] = none
find_bet id (bet ∷ bets) = let rest = find_bet id bets in if bet.id == id then some bet else rest

abbrev pub settle_row : String → ℕ → OperatorBet → OperatorBet
settle_row value now bet = record bet { status = value; settled_at = some now }

abbrev pub update_bet : ℕ → (OperatorBet → OperatorBet) → List OperatorBet → List OperatorBet
update_bet id f [] = []
update_bet id f (bet ∷ bets) =
    let rest = update_bet id f bets in if bet.id == id then f bet ∷ rest else bet ∷ rest

-- the outcome that a text names, behind `strip` and `lower`
unfoldable pub settle_outcome : String → Option String
unfolding strip_lower code_eq
settle_outcome outcome =
    if code_eq (strip_lower outcome) (codes "won")
    then some "won"
    else if code_eq (strip_lower outcome) (codes "lost")
    then some "lost"
    else if code_eq (strip_lower outcome) (codes "void")
    then some "void"
    else none

abbrev pub settle_found :
    Option OperatorBet → String → ℕ → ℕ → List OperatorBet → BetResult (List OperatorBet)
settle_found none value now bet_id bets = bet_error 404
settle_found (some bet) value now bet_id bets =
    if is_open bet then done (update_bet bet_id (settle_row value now) bets) else bet_error 409

abbrev pub settle_value : Option String → ℕ → ℕ → List OperatorBet → BetResult (List OperatorBet)
settle_value none now bet_id bets = bet_error 400
settle_value (some value) now bet_id bets =
    settle_found (find_bet bet_id bets) value now bet_id bets

unfoldable pub settle_bet_manual : ℕ → ℕ → String → List OperatorBet → BetResult (List OperatorBet)
settle_bet_manual now bet_id outcome bets = settle_value (settle_outcome outcome) now bet_id bets

-- what `settle_open_tickets` reads of a fixture
pub record Fixture : Type 0 where
  pub id : ℕ
  pub home_team_id : ℕ
  pub away_team_id : ℕ
  pub goals_home : Option ℕ
  pub goals_away : Option ℕ
  pub status_short : Option String

abbrev pub find_fixture : ℕ → List Fixture → Option Fixture
find_fixture id [] = none
find_fixture id (row ∷ rows) =
    let rest = find_fixture id rows in if row.id == id then some row else rest

-- `asc().nulls_last()` of two minutes: whether the first stands before, and whether they tie
abbrev before : Option ℕ → Option ℕ → Bool
before none _ = false
before (some a) none = true
before (some a) (some b) = ltb a b

abbrev ties : Option ℕ → Option ℕ → Bool
ties a b = if before a b then false else if before b a then false else true

abbrev event_before : FixtureEvent → FixtureEvent → Bool
event_before a b =
    before a.minute b.minute
    || ties a.minute b.minute
      && (before a.minute_extra b.minute_extra
          || ties a.minute_extra b.minute_extra && ltb a.id b.id)

abbrev insert_event : FixtureEvent → List FixtureEvent → List FixtureEvent
insert_event event [] = event ∷ []
insert_event event (first ∷ rest) =
    let behind = insert_event event rest in
    if event_before event first then event ∷ first ∷ rest else first ∷ behind

-- the goal rows of a fixture, in the order of the query
unfoldable pub events_of : ℕ → List FixtureEvent → List FixtureEvent
events_of fixture_id [] = []
events_of fixture_id (event ∷ events) =
    let rest = events_of fixture_id events in
    if event.fixture_id == fixture_id && str_eq event.event_type "Goal"
    then insert_event event rest
    else rest

abbrev pub outcome_on : List FixtureEvent → OperatorBet → Option Fixture → Option String
outcome_on events bet none = none
outcome_on events bet (some fixture) =
    resolve_auto_outcome bet.goals_home bet.goals_away (or_zero fixture.goals_home)
      (or_zero fixture.goals_away) fixture.status_short
      (has_counting_goal_since_snapshot (events_of bet.fixture_id events) fixture.home_team_id
        fixture.away_team_id bet.goals_home bet.goals_away)

-- what the loop makes of one open bet
unfoldable pub auto_outcome : List Fixture → List FixtureEvent → OperatorBet → Option String
auto_outcome fixtures events bet = outcome_on events bet (find_fixture bet.fixture_id fixtures)

abbrev pub settle_with :
    Option String → ℕ → OperatorBet → ℕ × List OperatorBet → ℕ × List OperatorBet
settle_with none now bet (settled, bets) = (settled, bet ∷ bets)
settle_with (some outcome) now bet (settled, bets) =
    (settled + 1, settle_row outcome now bet ∷ bets)

unfoldable pub settle_open_tickets :
    List Fixture → List FixtureEvent → ℕ → List OperatorBet → ℕ × List OperatorBet
settle_open_tickets fixtures events now [] = (0, [])
settle_open_tickets fixtures events now (bet ∷ bets) =
    let (settled, rest) = settle_open_tickets fixtures events now bets in
    if is_open bet
    then settle_with (auto_outcome fixtures events bet) now bet (settled, rest)
    else (settled, bet ∷ rest)

-- ===== src/OperatorBets/ManualLaws.antt =====
-- What the operator's own settlement of a bet does.
use predictor.Prelude.{
  ℕ, ◌≡◌, ◌≢◌, refl, String, Bool, true, false, Option, none, some, List, [], ◌∷◌, arith, ◌==◌,
  Bool-cases, inl, inr, str_eq, if◌then◌else◌, ap, eq_iff,
}
use predictor.OperatorBets.{OperatorBet}
use predictor.OperatorBets.Store.{
  done, bet_error, is_open, find_bet, update_bet, settle_row, settle_outcome, settle_found,
  settle_value, settle_bet_manual,
}

outcome-closed :
    (outcome value : String) → settle_outcome outcome ≡ some value → str_eq value "open" ≡ false
unfolding settle_outcome
outcome-closed outcome value e = ground (arith, eq_iff value "open", won-open, lost-open, void-open)
  where
    won-open : ◌≢◌ {A = String} "won" "open"
    won-open e = ground (arith, eq_iff "won" "open")

    lost-open : ◌≢◌ {A = String} "lost" "open"
    lost-open e = ground (arith, eq_iff "lost" "open")

    void-open : ◌≢◌ {A = String} "void" "open"
    void-open e = ground (arith, eq_iff "void" "open")

first_found :
    (is : Bool) (b bet : OperatorBet) (rest : Option OperatorBet)
    → is ≡ true
    → (if is then some b else rest) ≡ some bet
    → b ≡ bet
first_found true b bet rest h e = cc
first_found false b bet rest h e = absurd (ground arith)

find-update :
    (id : ℕ) (value : String) (now : ℕ) (bets : List OperatorBet) (bet : OperatorBet)
    → find_bet id bets ≡ some bet
    → find_bet id (update_bet id (settle_row value now) bets) ≡ some (settle_row value now bet)
find-update id value now [] bet e = absurd (ground arith)
find-update id value now (b ∷ bets) bet e = elim (Bool-cases (b.id == id)) [
  | inl same ↦
      rw (same, same)
        (ap (λ x. some (settle_row value now x))
          (first_found (b.id == id) b bet (find_bet id bets) same e))
  | inr other ↦ rw (other, other) (find-update id value now bets bet (ground arith))
]

-- what a settlement that succeeds needs and does
found-settled :
    (found : Option OperatorBet) (value : String) (now id : ℕ) (bets bets' : List OperatorBet)
    → settle_found found value now id bets ≡ done bets'
    → (bet : OperatorBet) × (found ≡ some bet)
      × (is_open bet ≡ true)
      × (bets' ≡ update_bet id (settle_row value now) bets)
found-settled none value now id bets bets' e = cc
found-settled (some bet) value now id bets bets' e = (bet, refl, ground arith, ground arith)

value-settled :
    (value : Option String) (now id : ℕ) (bets bets' : List OperatorBet)
    → settle_value value now id bets ≡ done bets'
    → (v : String) × (value ≡ some v) × (settle_found (find_bet id bets) v now id bets ≡ done bets')
value-settled none now id bets bets' e = cc
value-settled (some v) now id bets bets' e = (v, refl, e)

-- A bet that the operator settles was there and open; behind it the row has the outcome, and
-- settling it again with the same outcome is refused as already settled, whenever it is tried.
pub settle_bet_manual-again :
    (now later id : ℕ) (outcome : String) (bets bets' : List OperatorBet)
    → settle_bet_manual now id outcome bets ≡ done bets'
    → ((bet : OperatorBet) × (value : String) × (settle_outcome outcome ≡ some value)
        × (find_bet id bets ≡ some bet)
        × (is_open bet ≡ true)
        × (find_bet id bets' ≡ some (settle_row value now bet)))
      × (settle_bet_manual later id outcome bets' ≡ bet_error 409)
unfolding settle_bet_manual
settle_bet_manual-again now later id outcome bets bets' e =
    let (value, named, e1) = value-settled (settle_outcome outcome) now id bets bets' e in
    let (bet, found, is, same) = found-settled (find_bet id bets) value now id bets bets' e1 in
    let there : find_bet id bets' ≡ some (settle_row value now bet) =
      rw same (find-update id value now bets bet found) in
    let closed = outcome-closed outcome value named in
    ((bet, value, named, found, is, there), rw (named, there, closed) refl)

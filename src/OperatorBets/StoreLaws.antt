-- ===== src/OperatorBets/StoreLaws.antt =====
-- What the operations on the table of bets keep: at most one open bet on a fixture, and settled
-- bets as they are.
use predictor.Prelude.{
  ℕ, ◌+◌, ◌≡◌, ◌⊎◌, inl, inr, refl, sym, ap, ◌∙◌, subst, String, Bool, true, false, ◌&&◌, none,
  some, List, [], ◌∷◌, ◌++◌, arith, Bool-cases, Option-cases, any, any-append, if◌then◌else◌,
}
use predictor.OperatorBets.{OperatorBet}
use predictor.OperatorBets.Goals.{FixtureEvent}
use predictor.OperatorBets.Store.{
  LiveMatch, done, bet_error, is_open, open_on, place_bet, new_bet, current_stake, settle_row,
  Fixture, auto_outcome, settle_open_tickets,
}

-- No fixture has two open bets.
abbrev pub IsOpenOnce : List OperatorBet → Type 0
IsOpenOnce [] = Unit
IsOpenOnce (bet ∷ bets) =
    ((is_open bet && any (open_on bet.fixture_id) bets) ≡ false) × IsOpenOnce bets

append-IsOpenOnce :
    (bets : List OperatorBet) (bet : OperatorBet)
    → any (open_on bet.fixture_id) bets ≡ false
    → IsOpenOnce bets
    → IsOpenOnce (bets ++ bet ∷ [])
append-IsOpenOnce [] bet e h = ground arith
append-IsOpenOnce (first ∷ bets) bet e h = (
  ground (arith, any-append (open_on first.fixture_id) bets (bet ∷ []), h.0),
  append-IsOpenOnce bets bet (ground arith) h.1,
)

placed :
    {A : Type 0} (taken : Bool) (r s : A)
    → (if taken then bet_error 409 else done r) ≡ done s
    → (taken ≡ false) × (r ≡ s)
placed true r s e = absurd (ground arith)
placed false r s e = (refl, ap (λ x. elim x [ done y ↦ y | bet_error _ ↦ r ]) e)

-- A bet is placed only on a fixture without an open bet, at the end of the table, with the stake of
-- the wins so far; and behind it, again, no fixture has two open bets.
pub place_bet-IsOpenOnce :
    (id now : ℕ) (live : LiveMatch) (odd : ℕ) (bets bets' : List OperatorBet) (bet : OperatorBet)
    → IsOpenOnce bets
    → place_bet id now live odd bets ≡ done (bet, bets')
    → (any (open_on live.fixture_id) bets ≡ false)
      × (bet.stake ≡ current_stake bets)
      × (bets' ≡ bets ++ bet ∷ [])
      × IsOpenOnce bets'
unfolding place_bet
place_bet-IsOpenOnce id now live odd bets bets' bet h e =
    let row = new_bet id now live odd (current_stake bets) in
    let (free, same) =
      placed (any (open_on live.fixture_id) bets) (row, bets ++ row ∷ []) (bet, bets') e in
    let is_row = ap (λ p. p.0) same in
    let is_table = ap (λ p. p.1) same in
    (
      free,
      sym (ap (λ b. b.stake) is_row),
      sym is_table ∙ ap (λ b. bets ++ b ∷ []) is_row,
      subst IsOpenOnce is_table (append-IsOpenOnce bets row free h),
    )

-- What the settlement may do to the rows, in their order: leave a row, or close one that is open
-- with the outcome found for it.
pub data Settles (fixtures : List Fixture) (events : List FixtureEvent) (now : ℕ)
    : ℕ → List OperatorBet → List OperatorBet → Type 0 where
  nothing : Settles fixtures events now 0 [] []
  leave :
      {n : ℕ} {bets bets' : List OperatorBet} (bet : OperatorBet)
      → (is_open bet ≡ false) ⊎ (auto_outcome fixtures events bet ≡ none)
      → Settles fixtures events now n bets bets'
      → Settles fixtures events now n (bet ∷ bets) (bet ∷ bets')
  close :
      {n : ℕ} {bets bets' : List OperatorBet} (bet : OperatorBet) (outcome : String)
      → is_open bet ≡ true
      → auto_outcome fixtures events bet ≡ some outcome
      → Settles fixtures events now n bets bets'
      → Settles fixtures events now (n + 1) (bet ∷ bets) (settle_row outcome now bet ∷ bets')

-- The settlement closes exactly the open bets for which it finds an outcome, with that outcome and
-- the time of the run, changes no other row, and returns how many it closed.
pub settle_open_tickets-Settles :
    (fixtures : List Fixture) (events : List FixtureEvent) (now : ℕ) (bets : List OperatorBet)
    → Settles fixtures events now
        (settle_open_tickets fixtures events now bets).0
        bets
        (settle_open_tickets fixtures events now bets).1
unfolding settle_open_tickets
settle_open_tickets-Settles fixtures events now [] = nothing
settle_open_tickets-Settles fixtures events now (bet ∷ bets) =
    let rest = settle_open_tickets-Settles fixtures events now bets in
    elim (Bool-cases (is_open bet)) [
      | inl is ↦ elim (Option-cases (auto_outcome fixtures events bet)) [
        | inl kept ↦ rw (is, kept) (leave bet (inr kept) rest)
        | inr (outcome, e) ↦ rw (is, e) (close bet outcome is e rest)
      ]
      | inr is ↦ rw is (leave bet (inl is) rest)
    ]

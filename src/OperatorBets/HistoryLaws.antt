-- ===== src/OperatorBets/HistoryLaws.antt =====
-- The metrics of the history are those of the whole table, in whatever order it lists the bets.
use predictor.Prelude.{
  ℕ, suc, ◌+◌, ◌≡◌, eq_iff, not, refl, sym, subst, ap, ◌∙◌, inl, inr, String, Bool, true, false,
  List, [], ◌∷◌, arith, Bool-cases, length, str_eq, is_in, if◌then◌else◌,
}
use predictor.Prelude.Int.{ℤ, pos, ◌+ℤ◌, int_laws}
use predictor.OperatorBets.{OperatorBet, row_pnl}
use predictor.OperatorBets.History.{
  Tally, no_bets, add_status, placed_before, insert_bet, sort_bets, count_bet, history_loop,
  build_history,
}

-- what a settled bet adds to the balance
abbrev balance_of : OperatorBet → ℤ
balance_of bet = if is_in bet.status ("won" ∷ "lost" ∷ "void" ∷ []) then row_pnl bet else pos 0

abbrev pub total_pnl : List OperatorBet → ℤ
total_pnl [] = pos 0
total_pnl (bet ∷ bets) = balance_of bet +ℤ total_pnl bets

abbrev pub total_stake : List OperatorBet → ℕ
total_stake [] = 0
total_stake (bet ∷ bets) = bet.stake + total_stake bets

insert-total_pnl :
    (bet : OperatorBet) (bets : List OperatorBet)
    → total_pnl (insert_bet bet bets) ≡ balance_of bet +ℤ total_pnl bets
insert-total_pnl bet [] = refl
insert-total_pnl bet (first ∷ bets) = elim (Bool-cases (placed_before bet first)) [
  | inl e ↦ rw e refl
  | inr e ↦ rw e (
      ap (λ x. balance_of first +ℤ x) (insert-total_pnl bet bets)
      ∙ +ℤ_swap (balance_of first) (balance_of bet) (total_pnl bets))
]
  where
    +ℤ_swap : (a b c : ℤ) → a +ℤ (b +ℤ c) ≡ b +ℤ (a +ℤ c)
    +ℤ_swap a b c = omega int_laws

sort-total_pnl : (bets : List OperatorBet) → total_pnl (sort_bets bets) ≡ total_pnl bets
unfolding sort_bets
sort-total_pnl [] = refl
sort-total_pnl (bet ∷ bets) =
    insert-total_pnl bet (sort_bets bets) ∙ ap (λ x. balance_of bet +ℤ x) (sort-total_pnl bets)

-- how many bets have a status
abbrev pub with_status : (String → Bool) → List OperatorBet → ℕ
with_status p [] = 0
with_status p (bet ∷ bets) = (if p bet.status then 1 else 0) + with_status p bets

abbrev pub unsettled : String → Bool
unsettled status = not (is_in status ("won" ∷ "lost" ∷ "void" ∷ []))

insert-with_status :
    (p : String → Bool) (bet : OperatorBet) (bets : List OperatorBet)
    → with_status p (insert_bet bet bets) ≡ (if p bet.status then 1 else 0) + with_status p bets
insert-with_status p bet [] = refl
insert-with_status p bet (first ∷ bets) = ground (arith, insert-with_status p bet bets)

sort-with_status :
    (p : String → Bool) (bets : List OperatorBet)
    → with_status p (sort_bets bets) ≡ with_status p bets
unfolding sort_bets
sort-with_status p [] = refl
sort-with_status p (bet ∷ bets) =
    let inserted = insert-with_status p bet (sort_bets bets) in
    let rest = sort-with_status p bets in omega arith

insert-total_stake :
    (bet : OperatorBet) (bets : List OperatorBet)
    → total_stake (insert_bet bet bets) ≡ bet.stake + total_stake bets
insert-total_stake bet [] = refl
insert-total_stake bet (first ∷ bets) = ground (arith, insert-total_stake bet bets)

sort-total_stake : (bets : List OperatorBet) → total_stake (sort_bets bets) ≡ total_stake bets
unfolding sort_bets
sort-total_stake [] = refl
sort-total_stake (bet ∷ bets) =
    let inserted = insert-total_stake bet (sort_bets bets) in
    let rest = sort-total_stake bets in omega arith

insert-length :
    (bet : OperatorBet) (bets : List OperatorBet) → length (insert_bet bet bets) ≡ suc (length bets)
insert-length bet [] = refl
insert-length bet (first ∷ bets) = ground (arith, insert-length bet bets)

sort-length : (bets : List OperatorBet) → length (sort_bets bets) ≡ length bets
unfolding sort_bets
sort-length [] = refl
sort-length (bet ∷ bets) =
    let inserted = insert-length bet (sort_bets bets) in let rest = sort-length bets in omega arith

abbrev one_if : Bool → ℕ
one_if test = if test then 1 else 0

-- each counter of a tally grows by its own bets
record IsTallied (won lost void open_ : ℕ) (t t' : Tally) : Type 0 where
  wins : t'.wins ≡ t.wins + won
  losses : t'.losses ≡ t.losses + lost
  voids : t'.voids ≡ t.voids + void
  open_count : t'.open_count ≡ t.open_count + open_

-- what a round adds
record IsCounted (bet : OperatorBet) (t t' : Tally) : Type 0 where
  saldo : t'.saldo ≡ t.saldo +ℤ balance_of bet
  staked : t'.staked ≡ t.staked + bet.stake
  tallied :
      IsTallied
        (one_if (str_eq bet.status "won"))
        (one_if (str_eq bet.status "lost"))
        (one_if (str_eq bet.status "void"))
        (one_if (unsettled bet.status))
        t
        t'

sum_if :
    (settled : Bool) (a p : ℤ)
    → (if settled then a +ℤ p else a) ≡ a +ℤ (if settled then p else pos 0)
sum_if true a p = refl
sum_if false a p = omega int_laws

add_status-saldo : (status : String) (t : Tally) → (add_status status t).saldo ≡ t.saldo
add_status-saldo status t = elim (Bool-cases (str_eq status "won")) [
  | inl e ↦ rw e refl
  | inr w ↦ elim (Bool-cases (str_eq status "lost")) [
    | inl e ↦ rw (w, e) refl
    | inr l ↦ elim (Bool-cases (str_eq status "void")) [
      | inl e ↦ rw (w, l, e) refl
      | inr v ↦ rw (w, l, v) refl
    ]
  ]
]

add_status-staked : (status : String) (t : Tally) → (add_status status t).staked ≡ t.staked
add_status-staked status t = ground arith

abbrev Grows : Tally → String → Type 0
Grows t status =
    IsTallied (one_if (str_eq status "won")) (one_if (str_eq status "lost"))
      (one_if (str_eq status "void")) (one_if (unsettled status)) t (add_status status t)

add_status-IsTallied : (status : String) (t : Tally) → Grows t status
add_status-IsTallied status t = elim (Bool-cases (str_eq status "won")) [
  | inl e ↦ subst (Grows t) (sym ((eq_iff status "won").0 e)) (record {
    wins = omega arith;
    losses = omega arith;
    voids = omega arith;
    open_count = omega arith;
  })
  | inr w ↦ elim (Bool-cases (str_eq status "lost")) [
    | inl e ↦ subst (Grows t) (sym ((eq_iff status "lost").0 e)) (record {
      wins = omega arith;
      losses = omega arith;
      voids = omega arith;
      open_count = omega arith;
    })
    | inr l ↦ elim (Bool-cases (str_eq status "void")) [
      | inl e ↦ subst (Grows t) (sym ((eq_iff status "void").0 e)) (record {
        wins = omega arith;
        losses = omega arith;
        voids = omega arith;
        open_count = omega arith;
      })
      | inr v ↦
          rw (w, l, v)
            (record {
              wins = omega arith;
              losses = omega arith;
              voids = omega arith;
              open_count = omega arith;
            })
    ]
  ]
]

count_bet-IsCounted : (bet : OperatorBet) (t : Tally) → IsCounted bet t (count_bet bet t)
unfolding count_bet
count_bet-IsCounted bet t =
    let settled = is_in bet.status ("won" ∷ "lost" ∷ "void" ∷ []) in
    let t' = record t {
      saldo = if settled then t.saldo +ℤ row_pnl bet else t.saldo;
      staked = t.staked + bet.stake;
      odd_sum = t.odd_sum + bet.odd;
    } in
    record {
      saldo = add_status-saldo bet.status t' ∙ sum_if settled t.saldo (row_pnl bet);
      staked = add_status-staked bet.status t';
      tallied =
          let m = add_status-IsTallied bet.status t' in
          record { wins = m.wins; losses = m.losses; voids = m.voids; open_count = m.open_count };
    }

-- what the loop adds
record IsTotal (bets : List OperatorBet) (t t' : Tally) : Type 0 where
  saldo : t'.saldo ≡ t.saldo +ℤ total_pnl bets
  staked : t'.staked ≡ t.staked + total_stake bets
  tallied :
      IsTallied
        (with_status (λ s. str_eq s "won") bets)
        (with_status (λ s. str_eq s "lost") bets)
        (with_status (λ s. str_eq s "void") bets)
        (with_status unsettled bets)
        t
        t'

IsTallied-trans :
    {a b c d a' b' c' d' : ℕ} {t t' t'' : Tally}
    → IsTallied a b c d t t'
    → IsTallied a' b' c' d' t' t''
    → IsTallied (a + a') (b + b') (c + c') (d + d') t t''
IsTallied-trans one two = record {
  wins = omega (arith, one.wins, two.wins);
  losses = omega (arith, one.losses, two.losses);
  voids = omega (arith, one.voids, two.voids);
  open_count = omega (arith, one.open_count, two.open_count);
}

history_loop-IsTotal :
    (bets : List OperatorBet) (t : Tally) → IsTotal bets t (history_loop bets t).1
unfolding history_loop
history_loop-IsTotal [] t = record {
  saldo = zero_right t.saldo;
  staked = omega arith;
  tallied = ground arith;
}
  where
    zero_right : (a : ℤ) → a ≡ a +ℤ pos 0
    zero_right a = omega int_laws
history_loop-IsTotal (bet ∷ bets) t =
    let one = count_bet-IsCounted bet t in
    let rest = history_loop-IsTotal bets (count_bet bet t) in
    record {
      saldo =
          rest.saldo
          ∙ (ap (λ x. x +ℤ total_pnl bets) one.saldo
              ∙ assoc t.saldo (balance_of bet) (total_pnl bets));
      staked = omega (arith, one.staked, rest.staked);
      tallied = IsTallied-trans one.tallied rest.tallied;
    }
  where
    assoc : (a b c : ℤ) → (a +ℤ b) +ℤ c ≡ a +ℤ (b +ℤ c)
    assoc a b c = omega int_laws

-- The metrics are those of the table, in whatever order it lists its bets: the balance is the sum of
-- the profits and losses of the settled bets, the staked amount is that of all bets, and each of the
-- four counters is the number of its own bets: won, lost, void, and with any other status.
pub build_history-metrics :
    (bets : List OperatorBet)
    → ((build_history bets).1.saldo ≡ total_pnl bets)
      × ((build_history bets).1.staked ≡ total_stake bets)
      × ((build_history bets).1.n ≡ length bets)
      × ((build_history bets).1.wins ≡ with_status (λ s. str_eq s "won") bets)
      × ((build_history bets).1.losses ≡ with_status (λ s. str_eq s "lost") bets)
      × ((build_history bets).1.voids ≡ with_status (λ s. str_eq s "void") bets)
      × ((build_history bets).1.open_count ≡ with_status unsettled bets)
unfolding build_history
build_history-metrics bets =
    let total = history_loop-IsTotal (sort_bets bets) no_bets in
    let n = sort-length bets in
    (
      total.saldo ∙ (zero_left (total_pnl (sort_bets bets)) ∙ sort-total_pnl bets),
      omega (arith, total.staked, sort-total_stake bets),
      n,
      omega (arith, total.tallied.wins, sort-with_status (λ s. str_eq s "won") bets),
      omega (arith, total.tallied.losses, sort-with_status (λ s. str_eq s "lost") bets),
      omega (arith, total.tallied.voids, sort-with_status (λ s. str_eq s "void") bets),
      omega (arith, total.tallied.open_count, sort-with_status unsettled bets),
    )
  where
    zero_left : (a : ℤ) → pos 0 +ℤ a ≡ a
    zero_left a = omega int_laws

-- ===== src/Advisor/Sandbox/BalanceLaws.antt =====
-- The balance of a portfolio, row by row.
use predictor.Prelude.{ℕ, ◌≡◌, refl, true, List, [], ◌∷◌, ◌++◌, Bool-cases, inl, inr}
use predictor.Prelude.Int.{ℤ, pos, ◌-ℤ◌}
use predictor.Prelude.Result.{Result, ok, value_error, ◌>>=◌}
use predictor.Advisor.Sandbox.Book.{
  Coupon, Version, Row, add_row, balance_from, portfolio_balance, coupon_rows, belongs,
}

bind_rows :
    (xs ys : List Row)
    → ((n : ℤ) → balance_from n (xs ++ ys) ≡ (do m ← balance_from n xs; balance_from m ys))
    → (r : Result ℤ)
    → (do n ← r; balance_from n (xs ++ ys))
      ≡ (do m ← (do n ← r; balance_from n xs); balance_from m ys)
bind_rows xs ys ih (ok n) = ih n
bind_rows xs ys ih value_error = refl

balance_from-append :
    (b : ℤ) (xs ys : List Row)
    → balance_from b (xs ++ ys) ≡ (do next ← balance_from b xs; balance_from next ys)
unfolding balance_from
balance_from-append b [] ys = refl
balance_from-append b (row ∷ xs) ys =
    bind_rows xs ys (λ n. balance_from-append n xs ys) (add_row b row)

coupon_rows-append :
    (vs : List Version) (k : ℕ) (xs : List Coupon) (c : Coupon)
    → belongs vs k c ≡ true
    → coupon_rows vs k (xs ++ c ∷ [])
      ≡ coupon_rows vs k xs ++ (c.stake, c.combined_odd, c.payout_keep, c.status) ∷ []
unfolding coupon_rows
coupon_rows-append vs k [] c h = rw h
coupon_rows-append vs k (x ∷ xs) c h = elim (Bool-cases (belongs vs k x)) [
  | inl e ↦ rw (e, coupon_rows-append vs k xs c h)
  | inr e ↦ rw (e, coupon_rows-append vs k xs c h)
]

-- A new open coupon takes its stake out of the balance, whatever else is booked.
pub balance-open :
    (vs : List Version) (k : ℕ) (xs : List Coupon) (c : Coupon) {b : ℤ}
    → belongs vs k c ≡ true
    → c.status ≡ "open"
    → portfolio_balance (coupon_rows vs k xs) ≡ ok b
    → portfolio_balance (coupon_rows vs k (xs ++ c ∷ [])) ≡ ok (b -ℤ pos c.stake)
unfolding portfolio_balance
balance-open vs k xs c {b} mine unsettled e =
    rw (coupon_rows-append vs k xs c mine, balance_from-append, e, unsettled)
      (unfold balance_from in refl)

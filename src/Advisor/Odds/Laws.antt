-- ===== src/Advisor/Odds/Laws.antt =====
-- What the price of a coupon is.
use native.Mathlib.Nat.{pow-suc}
use predictor.Prelude.{
  ℕ, zero, suc, ◌+◌, ◌*◌, ◌^◌, ◌≤◌, ◌<◌, ◌≡◌, Bool, List, [], ◌∷◌, arith, ltb, if◌then◌else◌,
  length, all,
}
use predictor.Prelude.Decimal.{round_half_up}
use predictor.Prelude.Decimal.Laws.{round_half_up_near}
use predictor.Prelude.Result.{Result, ok, value_error}
use predictor.Advisor.Odds.{multiply_odds, combined_odd}

-- the exact product, in thousandths to the power of the number of legs
abbrev pub product : List ℕ → ℕ
product [] = 1
product (odd ∷ odds) = odd * product odds

abbrev above_one : ℕ → Bool
above_one odd = ltb 1000 odd

multiply_odds-product :
    (total : ℕ) (odds : List ℕ)
    → multiply_odds total odds
      ≡ (if all above_one odds then ok (total * product odds) else value_error)
unfolding multiply_odds
multiply_odds-product total [] = ground arith
multiply_odds-product total (odd ∷ odds) = ground (arith, multiply_odds-product (total * odd) odds)

abbrev price : ℕ → List ℕ → ℕ
price odd odds = round_half_up (product (odd ∷ odds)) (1000 ^ length odds)

combined_odd-closed :
    (odd : ℕ) (odds : List ℕ)
    → combined_odd (odd ∷ odds)
      ≡ (if all above_one (odd ∷ odds) then ok (price odd odds) else value_error)
unfolding combined_odd
combined_odd-closed odd odds = ground (arith, multiply_odds-product 1 (odd ∷ odds))

-- the closed form, for an empty list too
abbrev closed : List ℕ → ℕ → ℕ → Bool → Result ℕ
closed odds zero total fair = value_error
closed odds (suc n) total fair = if fair then ok (round_half_up total (1000 ^ n)) else value_error

pow-pos : (n : ℕ) → 0 < 1000 ^ n
pow-pos zero = omega arith
pow-pos (suc n) = rw pow-suc (omega (arith, pow-pos n))

-- The price of a coupon is within half a thousandth of the exact product of its odds: with
-- D = 1000 ^ (legs - 1), the rounded price times D differs from the product by at most D / 2.
pub combined_odd_near :
    (odd : ℕ) (odds : List ℕ) {t : ℕ}
    → combined_odd (odd ∷ odds) ≡ ok t
    → let D = 1000 ^ length odds in
      (2 * (t * D) ≤ 2 * product (odd ∷ odds) + D) × (2 * product (odd ∷ odds) < 2 * (t * D) + D)
combined_odd_near odd odds {t} h =
    let e : price odd odds ≡ t = price_of in
    rw e at (round_half_up_near (product (odd ∷ odds)) (1000 ^ length odds) (pow-pos (length odds)))
  where
    price_of : price odd odds ≡ t
    price_of = ground (arith, combined_odd-closed odd odds)

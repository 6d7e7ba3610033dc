-- ===== src/Advisor/Odds.antt =====
-- Prices and pay-outs of services/advisor/domain.py: `combined_odd`, `coupon_within_limits`,
-- `active_combined_odd`, `settled_pnl` and `prompt_gate_misses`.
pub mod Laws
use predictor.Prelude.{
  ℕ, ◌+◌, ◌-◌, ◌*◌, ◌^◌, Bool, true, false, not, Option, none, some, List, [], ◌∷◌, ◌++◌, map, ltb,
  leb, if◌then◌else◌, length, keep, any, ◌||◌, ◌&&◌,
}
use predictor.Prelude.Int.{ℤ, pos, ◌-ℤ◌}
use predictor.Prelude.Decimal.{round_half_up, round_difference}
use predictor.Prelude.Result.{Result, ok, value_error, ◌>>=◌}
use predictor.Advisor.Domain.{
  Period, regulation, extra_time, Settlement, PromptGate, period_goals, favorite_odd, short_late,
}
use predictor.Advisor.Settle.{is_pending, is_manual, is_void}

-- the loop of `combined_odd`: the exact product so far, in thousandths to the power of the legs
unfoldable pub multiply_odds : ℕ → List ℕ → Result ℕ
multiply_odds total [] = ok total
multiply_odds total (odd ∷ odds) =
    let rest = multiply_odds (total * odd) odds in if leb odd 1000 then value_error else rest

unfoldable pub combined_odd : List ℕ → Result ℕ
unfolding multiply_odds round_half_up
combined_odd [] = value_error
combined_odd (odd ∷ odds) = do
  total ← multiply_odds 1 (odd ∷ odds)
  ok (round_half_up total (1000 ^ length odds))

abbrev reaches : ℕ → Result ℕ → Bool
reaches min_odd (ok total) = leb min_odd total
reaches min_odd value_error = false

unfoldable pub coupon_within_limits : List ℕ → ℕ → ℕ → Bool
unfolding combined_odd
coupon_within_limits [] min_odd max_legs = false
coupon_within_limits (odd ∷ odds) min_odd max_legs =
    if ltb max_legs (length (odd ∷ odds))
    then false
    else reaches min_odd (combined_odd (odd ∷ odds))

-- the odds of the legs that are not void
abbrev pub active_odds : List (ℕ × Settlement) → List ℕ
active_odds [] = []
active_odds ((odd, item) ∷ legs) =
    let rest = active_odds legs in if is_void item then rest else odd ∷ rest

abbrev price_active : List ℕ → Result (Option ℕ)
price_active [] = ok none
price_active (odd ∷ odds) = do total ← combined_odd (odd ∷ odds); ok (some total)

unfoldable pub active_combined_odd : List (ℕ × Settlement) → Result (Option ℕ)
unfolding combined_odd
active_combined_odd legs =
    if any (λ leg. is_pending leg.1 || is_manual leg.1) legs
    then ok none
    else price_active (active_odds legs)

-- The stake is in hundredths, the odd and the kept share in thousandths: the product is in
-- millionths of a hundredth.
unfoldable pub settled_pnl : ℕ → ℕ → Settlement → ℕ → Result ℤ
unfolding round_difference ◌-ℤ◌
settled_pnl stake odd Settlement.won keep =
    ok (round_difference (pos (stake * odd * keep) -ℤ pos (stake * 1000000)) 1000000)
settled_pnl stake odd Settlement.lost keep = ok (pos 0 -ℤ pos stake)
settled_pnl stake odd Settlement.void keep = ok (pos 0)
settled_pnl stake odd _ keep = value_error

abbrev pub payout_keep : ℕ
payout_keep = 880

abbrev pub llm_max_period_goals : ℕ
llm_max_period_goals = 2

abbrev pub llm_max_favorite_odd : ℕ
llm_max_favorite_odd = 2000

abbrev pub llm_short_odd : ℕ
llm_short_odd = 1450

abbrev pub llm_short_odd_after_minute : ℕ
llm_short_odd_after_minute = 60

abbrev favorite_too_long : Option ℕ → Bool
favorite_too_long none = true
favorite_too_long (some odd) = leb llm_max_favorite_odd odd

abbrev late_minute : Option ℕ → Bool
late_minute none = false
late_minute (some minute) = ltb llm_short_odd_after_minute minute

abbrev is_regulation : Period → Bool
is_regulation regulation = true
is_regulation extra_time = false

abbrev gate_if : Bool → PromptGate → List PromptGate
gate_if true gate = gate ∷ []
gate_if false gate = []

unfoldable pub prompt_gate_misses : Period → ℕ → Option ℕ → ℕ → Option ℕ → List PromptGate
prompt_gate_misses period n minute odd favorite =
    gate_if (ltb llm_max_period_goals n) period_goals
    ++ (gate_if (favorite_too_long favorite) favorite_odd
        ++ gate_if (is_regulation period && late_minute minute && ltb odd llm_short_odd) short_late)

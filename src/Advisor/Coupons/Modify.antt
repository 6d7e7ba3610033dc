-- ===== src/Advisor/Coupons/Modify.antt =====
-- `modify_coupon` of services/advisor/recommend_ops.py. The odds are in thousandths; the new stake is
-- a fraction of a hundredth, so that a stake with more than two digits can be told apart.
use predictor.Prelude.{
  ℕ, ◌%◌, ◌/◌, Bool, false, not, ◌||◌, Option, none, some, List, [], ◌∷◌, any, ltb, leb, ◌==◌,
  if◌then◌else◌,
}
use predictor.Prelude.Ratio.{Ratio}
use predictor.Prelude.Result.{Result, ok, value_error}
use predictor.Advisor.Odds.{combined_odd}
use predictor.Advisor.Coupons.Rows.{
  CouponStatus, LegStatus, Coupon, Leg, Version, Ledger, update_coupon, update_legs, legs_of,
  leg_with, is_live, is_removed,
}
use predictor.Advisor.Coupons.Actions.{
  stake_code, odd_code, closed, empty, bad_price, Acted, done, action_error, ◌>>=◌, move, live,
}

-- the keyword arguments; the dict of odds is a function
pub record Change : Type 0 where
  pub stake : Ratio
  pub odds : ℕ → Option ℕ
  pub remove : List ℕ

abbrev pub removes : Change → Leg → Bool
removes change leg = any (λ k. k == leg.fixture_id) change.remove

abbrev add_odd : Option ℕ → Option (List ℕ) → Option (List ℕ)
add_odd (some odd) (some odds) = if leb odd 1000 then none else some (odd ∷ odds)
add_odd _ _ = none

-- the prices of the legs that stay; `none` is the error on a missing or a low one
unfoldable pub priced_odds : Change → List Leg → Option (List ℕ)
priced_odds change [] = some []
priced_odds change (leg ∷ legs) =
    let rest = priced_odds change legs in
    if is_removed leg.status || removes change leg
    then rest
    else add_odd (change.odds leg.fixture_id) rest

abbrev pub with_odd : Leg → Option ℕ → Leg
with_odd leg none = leg
with_odd leg (some odd) = record leg { odd = odd }

abbrev pub change_leg : Change → Leg → Leg
change_leg change leg =
    if is_removed leg.status
    then leg
    else if removes change leg
    then leg_with LegStatus.removed leg.odd leg
    else with_odd leg (change.odds leg.fixture_id)

abbrev or_old : Option ℕ → ℕ → Option ℕ
or_old none stake = some stake
or_old (some stake) _ = some stake

abbrev pub change_coupon : ℕ → ℕ → Coupon → Coupon
change_coupon stake priced c = record c {
  stake = stake;
  proposed_stake = or_old c.proposed_stake c.stake;
  combined_odd = some priced;
}

-- the floor of the strategy, 1.600 where its version is missing
unfoldable pub floor_of : ℕ → List Version → ℕ
floor_of k [] = 1600
floor_of k (version ∷ versions) =
    let rest = floor_of k versions in if version.id == k then version.min_combined_odd else rest

abbrev pub write_change : Change → ℕ → Coupon → Ledger → Ledger
write_change change priced coupon l = record l {
  coupons =
      update_coupon coupon.id (change_coupon (change.stake.num / change.stake.den) priced)
        l.coupons;
  legs = update_legs coupon.id (change_leg change) l.legs;
}

abbrev pub modify_priced : Change → Coupon → Result ℕ → Ledger → Acted Bool
modify_priced change coupon value_error l = action_error bad_price false l
modify_priced change coupon (ok priced) l =
    done (ltb priced (floor_of coupon.strategy_version_id l.versions))
      (move coupon CouponStatus.modified "operator" "" (write_change change priced coupon l))

abbrev pub modify_odds : Change → Coupon → Option (List ℕ) → Ledger → Acted Bool
modify_odds change coupon none l = action_error odd_code false l
modify_odds change coupon (some []) l = action_error empty false l
modify_odds change coupon (some (odd ∷ odds)) l =
    modify_priced change coupon (combined_odd (odd ∷ odds)) l

abbrev pub modify_live : Change → Coupon → Ledger → Acted Bool
modify_live change coupon l =
    if not (is_live coupon.status)
    then action_error closed false l
    else modify_odds change coupon (priced_odds change (legs_of coupon.id l.legs)) l

unfoldable pub modify_coupon : ℕ → ℕ → Change → ℕ → Ledger → Acted Bool
modify_coupon k now change ttl_seconds l =
    if change.stake.num == 0 || not (change.stake.num % change.stake.den == 0)
    then action_error stake_code false l
    else live k now ttl_seconds l >>= modify_live change

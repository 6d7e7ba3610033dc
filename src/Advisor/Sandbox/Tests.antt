-- ===== src/Advisor/Sandbox/Tests.antt =====
-- The laws of the sandbox at a portfolio with one settled coupon and two slips to place.
use predictor.Prelude.{ℕ, refl, true, false, none, List, [], ◌∷◌, arith, Bool-cases, inl, inr}
use predictor.Prelude.Int.{pos, ◌-ℤ◌}
use predictor.Prelude.Time.{aware}
use predictor.Advisor.Sandbox.Slips.{LegSnapshot, Slip}
use predictor.Advisor.Sandbox.Book.{
  Leg, Db, portfolio_balance, coupon_rows, stake_after_wins, won_count,
}
use predictor.Advisor.Sandbox.Place.{
  holds_open, Ids, Progress, place_slips, place_sandbox_coupons, insert_slip, new_coupon, new_leg,
}
use predictor.Advisor.Sandbox.BookLaws.{Booking, place_sandbox_coupons-Booking}
use predictor.Advisor.Sandbox.OpenLaws.{IsOpenOnce, Extends, place_slips-IsOpenOnce}

abbrev candidate : ℕ → ℕ → LegSnapshot
candidate fixture_id odd = record {
  fixture_id = fixture_id;
  period = "regulation";
  goals_home = 1;
  goals_away = 0;
  odd = odd;
  n = 1;
}

abbrev ids_now : Ids
ids_now = record { strategy_id = 1; strategy_version_id = 10; cycle_id = none }

abbrev leg_before : Leg
leg_before = new_leg ids_now 4 (candidate 9 1500)

abbrev db_before : Db
db_before = record {
  strategies = record { id = 1; status = "sandbox"; kind = "baseline" } ∷ [];
  versions = record { id = 10; strategy_id = 1 } ∷ [];
  coupons = new_coupon ids_now 4 2100 1500 ∷ [];
  legs = leg_before ∷ [];
  next_coupon = 5;
}

abbrev slips_now : List Slip
slips_now = (candidate 7 1650 ∷ []) ∷ (candidate 9 1500 ∷ []) ∷ []

-- The second slip meets the open leg on match 9, so it takes an id and places nothing.
abbrev db_after : Db
db_after = record db_before {
  coupons = new_coupon ids_now 4 2100 1500 ∷ new_coupon ids_now 5 2100 1650 ∷ [];
  legs = leg_before ∷ new_leg ids_now 5 (candidate 7 1650) ∷ [];
  next_coupon = 7;
}

place_sandbox_coupons-Booking_example :
    Booking ids_now
      (stake_after_wins (won_count db_before.versions 1 db_before.coupons))
      (pos 17900)
      (record { coupon_ids = 5 ∷ []; paused = false })
      db_after
unfolding place_sandbox_coupons portfolio_balance coupon_rows stake_after_wins won_count insert_slip
place_sandbox_coupons-Booking_example =
    place_sandbox_coupons-Booking true ids_now slips_now (aware 100) "baseline" db_before db_after
      (record { coupon_ids = 5 ∷ []; paused = false }) (pos 17900) refl refl (omega arith)

abbrev start_now : Progress
start_now = record { placed = []; balance = pos 17900; db = db_before }

-- a table with a single leg
one_leg : IsOpenOnce (leg_before ∷ [])
one_leg s f = elim (Bool-cases (holds_open s f leg_before)) [
  | inl e ↦ rw e (omega arith)
  | inr e ↦ rw e (omega arith)
]

place_slips-IsOpenOnce_example :
    IsOpenOnce db_after.legs × Extends ids_now (5 ∷ []) db_before.legs db_after.legs
unfolding place_slips insert_slip ◌-ℤ◌
place_slips-IsOpenOnce_example =
    place_slips-IsOpenOnce ids_now 2100 slips_now start_now
      (record { placed = 5 ∷ []; balance = pos 15800; db = db_after }) refl one_leg

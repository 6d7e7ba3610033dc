-- ===== src/Advisor/Coupons/Run.antt =====
-- The actions of the operator and of the clock on coupons, each in its transaction: the routes of
-- api/advisor_http.py, and `expire_due` from the loop of advisor/main.py.
use predictor.Prelude.{ℕ, String, Option, none, List, [], ◌∷◌}
use predictor.Advisor.Coupons.Rows.{Ledger}
use predictor.Advisor.Coupons.Actions.{
  Code, act, accept_coupon, reject_coupon, mark_not_placed, place_coupon, expire_due,
}
use predictor.Advisor.Coupons.Modify.{Change, modify_coupon}

-- a coupon, the instant, the seconds to live
pub data Action : Type 0 where
  accept : ℕ → ℕ → ℕ → Action
  reject : ℕ → ℕ → String → ℕ → Action
  decline : ℕ → Action
  modify : ℕ → ℕ → Change → ℕ → Action
  place : ℕ → ℕ → ℕ → Action
  expire : ℕ → ℕ → Action

unfoldable pub run : Action → Ledger → Ledger × Option Code
run (accept k now ttl_seconds) l = act l (accept_coupon k now ttl_seconds)
run (reject k now note ttl_seconds) l = act l (reject_coupon k now note ttl_seconds)
run (decline k) l = act l (mark_not_placed k)
run (modify k now change ttl_seconds) l = act l (modify_coupon k now change ttl_seconds)
run (place k now ttl_seconds) l = act l (place_coupon k now ttl_seconds)
run (expire now ttl_seconds) l = ((expire_due now ttl_seconds l).0, none)

abbrev pub run_all : List Action → Ledger → Ledger
run_all [] l = l
run_all (action ∷ actions) l = run_all actions (run action l).0

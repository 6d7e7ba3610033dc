-- ===== src/Advisor/Coupons/RunLaws.antt =====
-- However the operator and the clock act on coupons, in whatever order, the log and the legs agree
-- with the coupons.
use predictor.Prelude.{
  ℕ, ◌≡◌, refl, sym, ap, subst, ◌∙◌, true, not, ◌||◌, ◌/◌, ◌%◌, keep, Option, none, some, List, [],
  ◌∷◌, Bool-cases, inl, inr, ◌==◌,
}
use predictor.Prelude.Result.{Result, ok, value_error}
use predictor.Advisor.Odds.{combined_odd}
use predictor.Advisor.Coupons.Rows.{
  CouponStatus, Coupon, Leg, Ledger, find_coupon, legs_of, is_live, is_open_leg, is_removed,
}
use predictor.Advisor.Coupons.Actions.{
  is_recommendation, move, is_old, lock, live, accept_live, accept_coupon, reject_live,
  reject_coupon, not_placed_locked, mark_not_placed, kept_legs, score_changed, place_locked,
  place_coupon, is_due_row, expire_one, expire_found, expire_rows,
}
use predictor.Advisor.Coupons.ViewLaws.{find_coupon-id, find_coupon-update_self, written}
use predictor.Advisor.Coupons.MoveLaws.{modifying, IsSound, IsQuiet, quiet-IsSound}
use predictor.Advisor.Coupons.LeaveLaws.{
  Leaves, leaves_done, leaves_error, Sound, bind-Leaves, outcome-IsSound, IsTarget,
  expire_locked-IsSound, lock-Leaves, IsLive, live-Leaves,
}
use predictor.Advisor.Coupons.ActionLaws.{
  accept_live-Leaves, reject_live-Leaves, not_placed_locked-Leaves, place_locked-Leaves,
}
use predictor.Advisor.Coupons.Modify.{
  Change, with_odd, change_leg, removes, change_coupon, priced_odds, write_change, modify_priced,
  modify_odds, modify_live, modify_coupon,
}
use predictor.Advisor.Coupons.Run.{
  Action, accept, reject, decline, modify, place, expire, run, run_all,
}
use predictor.Advisor.Coupons.StepLaws.{
  IsClosing, update_legs-closing, move-IsSound, update_coupon-rows,
}

with_odd-coupon_id : (leg : Leg) (odd : Option ℕ) → (with_odd leg odd).coupon_id ≡ leg.coupon_id
with_odd-coupon_id leg none = refl
with_odd-coupon_id leg (some odd) = refl

with_odd-status : (leg : Leg) (odd : Option ℕ) → (with_odd leg odd).status ≡ leg.status
with_odd-status leg none = refl
with_odd-status leg (some odd) = refl

change_leg-IsClosing : (change : Change) → IsClosing (change_leg change)
change_leg-IsClosing change = record {
  coupon_id = λ leg. elim (Bool-cases (is_removed leg.status)) [
    | inl e ↦ rw e refl
    | inr e ↦ elim (Bool-cases (removes change leg)) [
      | inl r ↦ rw (e, r) refl
      | inr r ↦ rw (e, r) (with_odd-coupon_id leg (change.odds leg.fixture_id))
    ]
  ];
  closing = λ leg closed. elim (Bool-cases (is_removed leg.status)) [
    | inl e ↦ rw e closed
    | inr e ↦ elim (Bool-cases (removes change leg)) [
      | inl r ↦ rw (e, r) refl
      | inr r ↦
          rw (e, r) (ap is_open_leg (with_odd-status leg (change.odds leg.fixture_id)) ∙ closed)
    ]
  ];
}

write_change-IsQuiet :
    (change : Change) (priced : ℕ) (coupon : Coupon) (l : Ledger)
    → IsQuiet l (write_change change priced coupon l)
write_change-IsQuiet change priced coupon l = record {
  events = refl;
  rows = λ j c e.
      update_coupon-rows coupon.id j (change_coupon (change.stake.num / change.stake.den) priced)
        l.coupons c (record { id = λ _. refl; status = λ _. refl; mode = λ _. refl }) e;
  legs = λ j e.
      update_legs-closing j coupon.id (change_leg change) l.legs (change_leg-IsClosing change) e;
}

modify_done-IsSound :
    (change : Change) (priced : ℕ) (coupon : Coupon) (l : Ledger)
    → is_live coupon.status ≡ true
    → IsTarget coupon l
    → IsSound l
    → IsSound
        (move coupon CouponStatus.modified "operator" "" (write_change change priced coupon l))
modify_done-IsSound change priced coupon l e target sound =
    let f = change_coupon (change.stake.num / change.stake.den) priced in
    move-IsSound coupon CouponStatus.modified "operator" "" (write_change change priced coupon l)
      (record {
        row = f coupon;
        found =
            find_coupon-update_self coupon.id f l.coupons (λ _. refl) ∙ ap (written f) target.found;
        same = refl;
        mode = target.mode;
        live = e;
        allowed = modifying e;
        released = λ dead. cc;
      })
      (quiet-IsSound l (write_change change priced coupon l)
        (write_change-IsQuiet change priced coupon l) sound)

modify_priced-Leaves :
    (change : Change) (coupon : Coupon) (priced : Result ℕ) (l : Ledger)
    → is_live coupon.status ≡ true
    → IsLive coupon l
    → Leaves Sound (modify_priced change coupon priced l)
modify_priced-Leaves change coupon value_error l e (sound, target) = leaves_error sound
modify_priced-Leaves change coupon (ok priced) l e (sound, target) =
    leaves_done (modify_done-IsSound change priced coupon l e target sound)

modify_odds-Leaves :
    (change : Change) (coupon : Coupon) (odds : Option (List ℕ)) (l : Ledger)
    → is_live coupon.status ≡ true
    → IsLive coupon l
    → Leaves Sound (modify_odds change coupon odds l)
modify_odds-Leaves change coupon none l e (sound, target) = leaves_error sound
modify_odds-Leaves change coupon (some []) l e (sound, target) = leaves_error sound
modify_odds-Leaves change coupon (some (odd ∷ odds)) l e live =
    modify_priced-Leaves change coupon (combined_odd (odd ∷ odds)) l e live

modify_live-Leaves :
    (change : Change) (coupon : Coupon) (l : Ledger)
    → IsLive coupon l
    → Leaves Sound (modify_live change coupon l)
modify_live-Leaves change coupon l (sound, target) = elim (Bool-cases (is_live coupon.status)) [
  | inr e ↦ rw e (leaves_error sound)
  | inl e ↦ rw e (
      modify_odds-Leaves change coupon (priced_odds change (legs_of coupon.id l.legs)) l e
        (sound, target))
]

modify_coupon-Leaves :
    (k now : ℕ) (change : Change) (ttl_seconds : ℕ) (l : Ledger)
    → IsSound l
    → Leaves Sound (modify_coupon k now change ttl_seconds l)
unfolding modify_coupon
modify_coupon-Leaves k now change ttl_seconds l sound =
    elim (Bool-cases (change.stake.num == 0 || not (change.stake.num % change.stake.den == 0))) [
      | inl e ↦ rw e (leaves_error sound)
      | inr e ↦ rw e (
          bind-Leaves (live k now ttl_seconds l) (modify_live change)
            (live-Leaves k now ttl_seconds l sound) (modify_live-Leaves change))
    ]

expire_one-IsSound :
    (now ttl_seconds : ℕ) (coupon : Coupon) (l : Ledger)
    → is_live coupon.status ≡ true
    → IsTarget coupon l
    → IsSound l
    → IsSound (expire_one now ttl_seconds coupon l).0
expire_one-IsSound now ttl_seconds coupon l e target sound =
    elim (Bool-cases
      (is_old coupon now ttl_seconds || score_changed (kept_legs coupon.id l.legs) l.fixtures)) [
        | inl stale ↦ rw stale (expire_locked-IsSound coupon "expire" "" l e target sound)
        | inr stale ↦ rw stale sound
      ]

expire_found-IsSound :
    (now ttl_seconds : ℕ) (k : ℕ) (l : Ledger) (row : Option Coupon)
    → find_coupon k l.coupons ≡ row
    → IsSound l
    → IsSound (expire_found now ttl_seconds row l).0
expire_found-IsSound now ttl_seconds k l none e sound = sound
expire_found-IsSound now ttl_seconds k l (some coupon) e sound =
    let self = sym (find_coupon-id k l.coupons coupon e) in
    let found = subst (λ j. find_coupon j l.coupons ≡ some coupon) self e in
    elim (Bool-cases (is_recommendation coupon.mode)) [
      | inr m ↦ rw m sound
      | inl m ↦ elim (Bool-cases (is_live coupon.status)) [
        | inr a ↦ rw (m, a) sound
        | inl a ↦
            rw (m, a)
              (expire_one-IsSound now ttl_seconds coupon l a (record { found = found; mode = m })
                sound)
      ]
    ]

expire_rows-IsSound :
    (now ttl_seconds : ℕ) (rows : List Coupon) (l : Ledger)
    → IsSound l
    → IsSound (expire_rows now ttl_seconds rows l).0
unfolding expire_rows
expire_rows-IsSound now ttl_seconds [] l sound = sound
expire_rows-IsSound now ttl_seconds (row ∷ rows) l sound =
    expire_rows-IsSound now ttl_seconds rows
      (expire_found now ttl_seconds (find_coupon row.id l.coupons) l).0
      (expire_found-IsSound now ttl_seconds row.id l (find_coupon row.id l.coupons) refl sound)

run-IsSound : (action : Action) (l : Ledger) → IsSound l → IsSound (run action l).0
unfolding run accept_coupon reject_coupon mark_not_placed place_coupon
run-IsSound (accept k now ttl_seconds) l sound =
    outcome-IsSound l (accept_coupon k now ttl_seconds l) sound (
      bind-Leaves (live k now ttl_seconds l) accept_live (live-Leaves k now ttl_seconds l sound)
        accept_live-Leaves)
run-IsSound (reject k now note ttl_seconds) l sound =
    outcome-IsSound l (reject_coupon k now note ttl_seconds l) sound (
      bind-Leaves (live k now ttl_seconds l) (reject_live note)
        (live-Leaves k now ttl_seconds l sound) (reject_live-Leaves note))
run-IsSound (decline k) l sound =
    outcome-IsSound l (mark_not_placed k l) sound
      (bind-Leaves (lock k l) not_placed_locked (lock-Leaves k l sound) not_placed_locked-Leaves)
run-IsSound (modify k now change ttl_seconds) l sound =
    outcome-IsSound l (modify_coupon k now change ttl_seconds l) sound
      (modify_coupon-Leaves k now change ttl_seconds l sound)
run-IsSound (place k now ttl_seconds) l sound =
    outcome-IsSound l (place_coupon k now ttl_seconds l) sound (
      bind-Leaves (lock k l) (place_locked now ttl_seconds) (lock-Leaves k l sound)
        (place_locked-Leaves now ttl_seconds))
run-IsSound (expire now ttl_seconds) l sound =
    expire_rows-IsSound now ttl_seconds (keep is_due_row l.coupons) l sound

-- However the operator and the clock act on the coupons, in any order and with errors, the log of
-- changes stays a chain of allowed changes, coupon by coupon; it ends at the status of each
-- recommendation (at `placed` where there is a result); and no rejected, expired or not placed coupon
-- holds an open leg.
pub run_all-IsSound : (actions : List Action) (l : Ledger) → IsSound l → IsSound (run_all actions l)
run_all-IsSound [] l sound = sound
run_all-IsSound (action ∷ actions) l sound =
    run_all-IsSound actions (run action l).0 (run-IsSound action l sound)

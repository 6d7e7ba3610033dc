-- ===== src/Advisor/Coupons/AgainLaws.antt =====
-- A second settlement at the same instant changes nothing.
use predictor.Prelude.{
  ℕ, ◌≡◌, refl, sym, ap, subst, ◌∙◌, Bool, true, ◌&&◌, Option, none, some, List, [], ◌∷◌, map, All,
  All-imp, arith, Bool-cases, inl, inr, ◌==◌,
}
use predictor.Prelude.Result.{ok, >>=-eq-ok, ok-injective}
use predictor.Queue.Task.{Task}
use predictor.Advisor.Domain.{Settlement}
use predictor.Advisor.Settle.{settle_coupon}
use predictor.Advisor.Coupons.Rows.{
  CouponStatus, Coupon, Ledger, find_coupon, update_coupon, legs_of,
}
use predictor.Advisor.Coupons.ViewLaws.{
  find_coupon-id, find_coupon-update_self, find_coupon-update_other, written,
}
use predictor.Advisor.Coupons.Settle.{
  is_played, played, leg_change, settle_legs, outcomes, coupon_result, new_odd, same_odd, count,
  write_result, settle_row, refresh_found, refresh_coupon, refresh_all, with_pass, refreshed_by,
  settle_finished,
}
use predictor.Advisor.Coupons.Actions.{same_status}
use predictor.Advisor.Coupons.SettleLaws.{
  after_change, SamePlay, settle_legs-legs, settle_legs-same, legs_again, settle_legs-touched,
}

-- What the writes of results keep.
record Keeps (before after : Ledger) : Type 0 where
  legs : after.legs ≡ before.legs
  fixtures : after.fixtures ≡ before.fixtures
  same : SamePlay before.coupons after.coupons

Keeps-refl : (l : Ledger) → Keeps l l
Keeps-refl l = record { legs = refl; fixtures = refl; same = λ k. refl }

Keeps-trans : (a b c : Ledger) → Keeps a b → Keeps b c → Keeps a c
Keeps-trans a b c x y = record {
  legs = y.legs ∙ x.legs;
  fixtures = y.fixtures ∙ x.fixtures;
  same = λ k. x.same k ∙ y.same k;
}

abbrev or_played : Option CouponStatus → Bool
or_played none = true
or_played (some status) = is_played status

result_played :
    (result : Settlement) (status : CouponStatus)
    → coupon_result result ≡ some status
    → is_played status ≡ true
result_played Settlement.won status e = subst (λ o. or_played o ≡ true) e refl
result_played Settlement.lost status e = subst (λ o. or_played o ≡ true) e refl
result_played Settlement.void status e = subst (λ o. or_played o ≡ true) e refl
result_played Settlement.pending status e = cc
result_played Settlement.manual status e = cc

write_SamePlay :
    (coupon : Coupon) (status : CouponStatus) (odd : Option ℕ) (coupons : List Coupon)
    → is_played status ≡ true
    → is_played coupon.status ≡ true
    → find_coupon coupon.id coupons ≡ some coupon
    → SamePlay coupons
        (update_coupon coupon.id (λ c. record c { status = status; combined_odd = odd }) coupons)
write_SamePlay coupon status odd coupons new old found k = elim (Bool-cases (k == coupon.id)) [
  | inr e ↦ ap played (
      sym (
        find_coupon-update_other k coupon.id (λ c. record c { status = status; combined_odd = odd })
          coupons (λ _. refl) e))
  | inl e ↦
      let self : k ≡ coupon.id = ground arith in
      let row =
        find_coupon-update_self coupon.id (λ c. record c { status = status; combined_odd = odd })
          coupons (λ _. refl)
        ∙ ap (written (λ c. record c { status = status; combined_odd = odd })) found in
      rw (self, found, row) (old ∙ sym new)
]

write_result-Keeps :
    (coupon : Coupon) (status : CouponStatus) (odd : Option ℕ) (l : Ledger)
    → is_played status ≡ true
    → is_played coupon.status ≡ true
    → find_coupon coupon.id l.coupons ≡ some coupon
    → Keeps l (write_result coupon status odd l).0
write_result-Keeps coupon status odd l new old found =
    elim (Bool-cases (same_status coupon.status status && same_odd coupon.combined_odd odd)) [
      | inl e ↦ rw e (Keeps-refl l)
      | inr e ↦ rw e (record {
        legs = refl;
        fixtures = refl;
        same = write_SamePlay coupon status odd l.coupons new old found;
      })
    ]

settle_row-Keeps :
    (coupon : Coupon) (result : Settlement) (status : Option CouponStatus) (l after : Ledger)
    (changed : Bool)
    → coupon_result result ≡ status
    → is_played coupon.status ≡ true
    → find_coupon coupon.id l.coupons ≡ some coupon
    → settle_row coupon result status l ≡ ok (after, changed)
    → Keeps l after
settle_row-Keeps coupon result none l after changed at old found e =
    subst (Keeps l) (ap (λ r. r.0) (ok-injective e)) (Keeps-refl l)
settle_row-Keeps coupon result (some status) l after changed at old found e =
    let (odd, priced, rest) = >>=-eq-ok (new_odd result coupon (legs_of coupon.id l.legs)) _ e in
    subst (Keeps l) (ap (λ r. r.0) (ok-injective rest))
      (write_result-Keeps coupon status odd l (result_played result status at) old found)

refresh_found-Keeps :
    (k : ℕ) (row : Option Coupon) (l after : Ledger) (changed : Bool)
    → find_coupon k l.coupons ≡ row
    → played row ≡ true
    → refresh_found row l ≡ ok (after, changed)
    → Keeps l after
refresh_found-Keeps k none l after changed at old e = cc
refresh_found-Keeps k (some coupon) l after changed at old e =
    let found =
      subst (λ j. find_coupon j l.coupons ≡ some coupon)
        (sym (find_coupon-id k l.coupons coupon at)) at in
    let (result, settled, rest) =
      >>=-eq-ok (settle_coupon (outcomes (legs_of coupon.id l.legs))) _ e in
    settle_row-Keeps coupon result (coupon_result result) l after changed refl old found rest

refresh_all-Keeps :
    (ks : List ℕ) (l after : Ledger) (changed n : ℕ)
    → All (λ k. played (find_coupon k l.coupons) ≡ true) ks
    → refresh_all ks l changed ≡ ok (after, n)
    → Keeps l after
unfolding refresh_all refresh_coupon
refresh_all-Keeps [] l after changed n h e =
    subst (Keeps l) (ap (λ r. r.0) (ok-injective e)) (Keeps-refl l)
refresh_all-Keeps (k ∷ ks) l after changed n (h, hs) e =
    let ((next, one), first, rest) = >>=-eq-ok (refresh_coupon k l) _ e in
    let kept = refresh_found-Keeps k (find_coupon k l.coupons) l next one refl h first in
    let later = All-imp ks (λ j at. sym (kept.same j) ∙ at) hs in
    Keeps-trans l next after kept (refresh_all-Keeps ks next after (count changed one) n later rest)

-- What a settlement makes of the legs, one by one.
pub settle_finished-legs :
    (tasks : List Task) (now : ℕ) (l after : Ledger) (n : ℕ)
    → settle_finished tasks now l ≡ ok (after, n)
    → after.legs
      ≡ map
          (λ leg. after_change leg (leg_change (refreshed_by tasks) now l.fixtures l.coupons leg))
          l.legs
unfolding settle_finished
settle_finished-legs tasks now l after n e =
    let refreshed = refreshed_by tasks in
    let change = leg_change refreshed now l.fixtures l.coupons in
    let pass = settle_legs change l.legs in
    let kept =
      refresh_all-Keeps pass.touched (with_pass pass l) after 0 n
        (settle_legs-touched refreshed now l.fixtures l.coupons l.legs) e in
    kept.legs ∙ settle_legs-legs change l.legs

-- A second settlement at the same instant, on the tables that the first one left, changes no row, logs
-- nothing and counts no coupon.
pub settle_finished_idem :
    (tasks : List Task) (now : ℕ) (l after : Ledger) (n : ℕ)
    → settle_finished tasks now l ≡ ok (after, n)
    → settle_finished tasks now after ≡ ok (after, 0)
unfolding settle_finished refresh_all
settle_finished_idem tasks now l after n e =
    let refreshed = refreshed_by tasks in
    let change = leg_change refreshed now l.fixtures l.coupons in
    let pass = settle_legs change l.legs in
    let kept =
      refresh_all-Keeps pass.touched (with_pass pass l) after 0 n
        (settle_legs-touched refreshed now l.fixtures l.coupons l.legs) e in
    let legs : after.legs ≡ map (λ leg. after_change leg (change leg)) l.legs =
      kept.legs ∙ settle_legs-legs change l.legs in
    let again = legs_again refreshed now l.fixtures l.coupons after.coupons l.legs kept.same in
    let moved =
      subst (λ legs. All (λ leg. leg_change refreshed now l.fixtures after.coupons leg ≡ none) legs)
        (sym legs) again in
    let still =
      subst
        (λ table. All (λ leg. leg_change refreshed now table after.coupons leg ≡ none) after.legs)
        (sym kept.fixtures) moved in
    let same =
      settle_legs-same (leg_change refreshed now after.fixtures after.coupons) after.legs still in
    ap (λ p. refresh_all p.touched (with_pass p after) 0) same

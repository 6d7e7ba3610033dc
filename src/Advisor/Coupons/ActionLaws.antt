-- ===== src/Advisor/Coupons/ActionLaws.antt =====
-- Every action on coupons keeps the log and the legs in agreement with the coupons.
use predictor.Prelude.{
  ℕ, ◌≡◌, refl, sym, ap, subst, ◌∙◌, String, true, false, not, some, Bool-cases, inl, inr,
  if◌then◌else◌,
}
use predictor.Advisor.Coupons.Rows.{
  CouponStatus, Coupon, Ledger, find_coupon, is_live, is_confirmable,
}
use predictor.Advisor.Coupons.Actions.{
  expired_code, Acted, done, action_error, same_status, is_recommendation, move, expire_locked,
  is_old, accept_live, reject_live, not_placed_locked, at_place, write_coupon, kept_legs,
  score_changed, place_locked,
}
use predictor.Advisor.Coupons.ViewLaws.{find_coupon-update_self, written}
use predictor.Advisor.Coupons.MoveLaws.{
  Allowed, accepting, rejecting, placing, declining, is_dead, IsSound, IsQuiet, quiet-IsSound,
}
use predictor.Advisor.Coupons.LeaveLaws.{
  Leaves, leaves_done, leaves_error, Sound, IsTarget, release_move-IsSound, expire_locked-IsSound,
  IsLocked, IsLive,
}
use predictor.Advisor.Coupons.StepLaws.{move-IsSound, update_coupon-rows}

pub live_move :
    (coupon : Coupon) (status : CouponStatus) (source note : String) (l : Ledger)
    → Allowed (some coupon.status) status
    → is_live coupon.status ≡ true
    → is_dead status ≡ false
    → IsTarget coupon l
    → IsSound l
    → IsSound (move coupon status source note l)
live_move coupon status source note l allowed is_alive alive target sound =
    move-IsSound coupon status source note l
      (record {
        row = coupon;
        found = target.found;
        same = refl;
        mode = target.mode;
        live = is_alive;
        allowed = allowed;
        released = λ dead. cc;
      })
      sound

proposed_only :
    (status : CouponStatus)
    → not (same_status status CouponStatus.proposed) ≡ false
    → status ≡ CouponStatus.proposed
proposed_only CouponStatus.proposed e = refl
proposed_only _ e = cc

pub accept_live-Leaves :
    (coupon : Coupon) (l : Ledger) → IsLive coupon l → Leaves Sound (accept_live coupon l)
accept_live-Leaves coupon l (sound, target) =
    elim (Bool-cases (not (same_status coupon.status CouponStatus.proposed))) [
      | inl e ↦ rw e (leaves_error sound)
      | inr e ↦
          let only = proposed_only coupon.status e in
          let allowed = subst (λ s. Allowed (some s) CouponStatus.accepted) (sym only) accepting in
          let alive = subst (λ s. is_live s ≡ true) (sym only) refl in
          rw e (
            leaves_done (
              live_move coupon CouponStatus.accepted "operator" "" l allowed alive refl target
                sound))
    ]

pub reject_live-Leaves :
    (note : String) (coupon : Coupon) (l : Ledger)
    → IsLive coupon l
    → Leaves Sound (reject_live note coupon l)
reject_live-Leaves note coupon l (sound, target) = elim (Bool-cases (is_live coupon.status)) [
  | inr e ↦ rw e (leaves_error sound)
  | inl e ↦ rw e (
      leaves_done (
        release_move-IsSound coupon CouponStatus.rejected "operator" note l (rejecting e) e target
          sound))
]

confirmable_live : (status : CouponStatus) → is_confirmable status ≡ true → is_live status ≡ true
confirmable_live CouponStatus.accepted e = refl
confirmable_live CouponStatus.modified e = refl
confirmable_live _ e = cc

pub not_placed_locked-Leaves :
    (coupon : Coupon) (l : Ledger) → IsLocked coupon l → Leaves Sound (not_placed_locked coupon l)
not_placed_locked-Leaves coupon l (sound, found) =
    elim (Bool-cases (is_recommendation coupon.mode)) [
      | inr m ↦ rw m (leaves_error sound)
      | inl m ↦ elim (Bool-cases (is_confirmable coupon.status)) [
        | inr e ↦ rw (m, e) (leaves_error sound)
        | inl e ↦
            let alive = confirmable_live coupon.status e in
            let target : IsTarget coupon l = record { found = found; mode = m } in
            rw (m, e)
              (leaves_done (
                release_move-IsSound coupon CouponStatus.not_placed "operator" "" l (declining e)
                  alive target sound))
      ]
    ]

-- The row of the coupon, with the instant of its placement.
placed_row :
    (now : ℕ) (coupon : Coupon) (l : Ledger)
    → find_coupon coupon.id l.coupons ≡ some coupon
    → find_coupon coupon.id (write_coupon coupon.id (at_place now) l).coupons
      ≡ some (at_place now coupon)
placed_row now coupon l found =
    find_coupon-update_self coupon.id (at_place now) l.coupons (λ _. refl)
    ∙ ap (written (at_place now)) found

at_place-IsQuiet : (k now : ℕ) (l : Ledger) → IsQuiet l (write_coupon k (at_place now) l)
at_place-IsQuiet k now l = record {
  events = refl;
  rows = λ j c e.
      update_coupon-rows k j (at_place now) l.coupons c
        (record { id = λ _. refl; status = λ _. refl; mode = λ _. refl }) e;
  legs = λ j e. e;
}

place_done-IsSound :
    (now : ℕ) (coupon : Coupon) (l : Ledger)
    → is_confirmable coupon.status ≡ true
    → IsTarget coupon l
    → IsSound l
    → IsSound
        (move coupon CouponStatus.placed "operator" "" (write_coupon coupon.id (at_place now) l))
place_done-IsSound now coupon l e target sound =
    move-IsSound coupon CouponStatus.placed "operator" "" (write_coupon coupon.id (at_place now) l)
      (record {
        row = at_place now coupon;
        found = placed_row now coupon l target.found;
        same = refl;
        mode = target.mode;
        live = confirmable_live coupon.status e;
        allowed = placing e;
        released = λ dead. cc;
      })
      (quiet-IsSound l (write_coupon coupon.id (at_place now) l) (at_place-IsQuiet coupon.id now l)
        sound)

-- what is left of `place_locked` for a coupon that may be placed
abbrev confirmed : ℕ → ℕ → Coupon → Ledger → Acted Unit
confirmed now ttl_seconds coupon l =
    if is_old coupon now ttl_seconds
    then action_error expired_code true (expire_locked coupon "expire" "ttl" l)
    else if score_changed (kept_legs coupon.id l.legs) l.fixtures
    then action_error expired_code true (expire_locked coupon "expire" "score" l)
    else done tt
        (move coupon CouponStatus.placed "operator" "" (write_coupon coupon.id (at_place now) l))

confirmed-Leaves :
    (now ttl_seconds : ℕ) (coupon : Coupon) (l : Ledger)
    → is_confirmable coupon.status ≡ true
    → IsTarget coupon l
    → IsSound l
    → Leaves Sound (confirmed now ttl_seconds coupon l)
confirmed-Leaves now ttl_seconds coupon l e target sound =
    let alive = confirmable_live coupon.status e in
    elim (Bool-cases (is_old coupon now ttl_seconds)) [
      | inl old ↦
          rw old (leaves_error (expire_locked-IsSound coupon "expire" "ttl" l alive target sound))
      | inr old ↦ elim (Bool-cases (score_changed (kept_legs coupon.id l.legs) l.fixtures)) [
        | inl new ↦
            rw (old, new)
              (leaves_error (expire_locked-IsSound coupon "expire" "score" l alive target sound))
        | inr new ↦ rw (old, new) (leaves_done (place_done-IsSound now coupon l e target sound))
      ]
    ]

pub place_locked-Leaves :
    (now ttl_seconds : ℕ) (coupon : Coupon) (l : Ledger)
    → IsLocked coupon l
    → Leaves Sound (place_locked now ttl_seconds coupon l)
place_locked-Leaves now ttl_seconds coupon l (sound, found) =
    elim (Bool-cases (is_recommendation coupon.mode)) [
      | inr m ↦ rw m (leaves_error sound)
      | inl m ↦
          let target : IsTarget coupon l = record { found = found; mode = m } in
          elim (Bool-cases (same_status coupon.status CouponStatus.expired)) [
            | inl x ↦ rw (m, x) (leaves_error sound)
            | inr x ↦ elim (Bool-cases (is_confirmable coupon.status)) [
              | inr e ↦ rw (m, x, e) (leaves_error sound)
              | inl e ↦ rw (m, x, e) (confirmed-Leaves now ttl_seconds coupon l e target sound)
            ]
          ]
    ]

-- ===== src/Advisor/Coupons/LeaveLaws.antt =====
-- What an action leaves behind, with or without an error: sound tables.
use predictor.Prelude.{
  ℕ, ◌≡◌, refl, sym, subst, String, Bool, true, false, some, Bool-cases, Option-cases, inl, inr,
  if◌then◌else◌,
}
use predictor.Advisor.Coupons.Rows.{CouponStatus, Coupon, Ledger, find_coupon, is_live}
use predictor.Advisor.Coupons.Actions.{
  Code, Acted, done, action_error, ◌>>=◌, outcome, same_status, is_recommendation, move,
  release_legs, expire_locked, is_old, lock, live_coupon, live,
}
use predictor.Advisor.Coupons.ViewLaws.{find_coupon-id}
use predictor.Advisor.Coupons.MoveLaws.{Allowed, expiring, IsSound, quiet-IsSound}
use predictor.Advisor.Coupons.StepLaws.{move-IsSound, release_legs-closed, release_legs-IsQuiet}

-- What an action returns and the tables behind it are as `P` says; whatever it raises, it leaves
-- sound tables.
pub data Leaves {A : Type 0} (P : A → Ledger → Type 0) : Acted A → Type 0 where
  leaves_done : {a : A} {l : Ledger} → P a l → Leaves P (done a l)
  leaves_error : {c : Code} {b : Bool} {l : Ledger} → IsSound l → Leaves P (action_error c b l)

abbrev pub Sound : {A : Type 0} → A → Ledger → Type 0
Sound _ l = IsSound l

pub bind-Leaves :
    {A B : Type 0} {P : A → Ledger → Type 0} {Q : B → Ledger → Type 0} (m : Acted A)
    (next : A → Ledger → Acted B)
    → Leaves P m
    → ((a : A) (l : Ledger) → P a l → Leaves Q (next a l))
    → Leaves Q (m >>= next)
bind-Leaves (done a l) next (leaves_done p) h = h a l p
bind-Leaves (action_error c b l) next (leaves_error s) h = leaves_error s

-- The row of a recommendation coupon, as the table has it.
pub record IsTarget (coupon : Coupon) (l : Ledger) : Type 0 where
  pub found : find_coupon coupon.id l.coupons ≡ some coupon
  pub mode : is_recommendation coupon.mode ≡ true

pub outcome-IsSound :
    {A : Type 0} (before : Ledger) (acted : Acted A)
    → IsSound before
    → Leaves Sound acted
    → IsSound (outcome before acted).0
outcome-IsSound before (done a after) sound (leaves_done s) = s
outcome-IsSound before (action_error code true after) sound (leaves_error s) = s
outcome-IsSound before (action_error code false after) sound (leaves_error s) = sound

-- A move to a dead status, after the release.
pub release_move-IsSound :
    (coupon : Coupon) (status : CouponStatus) (source note : String) (l : Ledger)
    → Allowed (some coupon.status) status
    → is_live coupon.status ≡ true
    → IsTarget coupon l
    → IsSound l
    → IsSound (move coupon status source note (release_legs coupon.id l))
unfolding release_legs
release_move-IsSound coupon status source note l allowed is_alive target sound =
    move-IsSound coupon status source note (release_legs coupon.id l)
      (record {
        row = coupon;
        found = target.found;
        same = refl;
        mode = target.mode;
        live = is_alive;
        allowed = allowed;
        released = λ _. release_legs-closed coupon.id l;
      })
      (quiet-IsSound l (release_legs coupon.id l) (release_legs-IsQuiet coupon.id l) sound)

pub expire_locked-IsSound :
    (coupon : Coupon) (source note : String) (l : Ledger)
    → is_live coupon.status ≡ true
    → IsTarget coupon l
    → IsSound l
    → IsSound (expire_locked coupon source note l)
expire_locked-IsSound coupon source note l is_alive target sound =
    release_move-IsSound coupon CouponStatus.expired source note l (expiring is_alive) is_alive
      target sound

-- The row that `_lock` returns is the table's.
abbrev pub IsLocked : Coupon → Ledger → Type 0
IsLocked coupon l = IsSound l × (find_coupon coupon.id l.coupons ≡ some coupon)

pub lock-Leaves : (k : ℕ) (l : Ledger) → IsSound l → Leaves IsLocked (lock k l)
unfolding lock
lock-Leaves k l sound = elim (Option-cases (find_coupon k l.coupons)) [
  | inl e ↦ rw e (leaves_error sound)
  | inr (coupon, e) ↦
      let self = sym (find_coupon-id k l.coupons coupon e) in
      rw e (leaves_done (sound, subst (λ j. find_coupon j l.coupons ≡ some coupon) self e))
]

expire_if-IsSound :
    (coupon : Coupon) (l : Ledger)
    → IsTarget coupon l
    → IsSound l
    → IsSound (if is_live coupon.status then expire_locked coupon "expire" "ttl" l else l)
expire_if-IsSound coupon l target sound = elim (Bool-cases (is_live coupon.status)) [
  | inl e ↦ rw e (expire_locked-IsSound coupon "expire" "ttl" l e target sound)
  | inr e ↦ rw e sound
]

abbrev pub IsLive : Coupon → Ledger → Type 0
IsLive coupon l = IsSound l × IsTarget coupon l

live_coupon-Leaves :
    (coupon : Coupon) (now ttl_seconds : ℕ) (l : Ledger)
    → find_coupon coupon.id l.coupons ≡ some coupon
    → IsSound l
    → Leaves IsLive (live_coupon coupon now ttl_seconds l)
unfolding live_coupon
live_coupon-Leaves coupon now ttl_seconds l found sound =
    elim (Bool-cases (is_recommendation coupon.mode)) [
      | inr e ↦ rw e (leaves_error sound)
      | inl e ↦
          let target : IsTarget coupon l = record { found = found; mode = e } in
          elim (Bool-cases (same_status coupon.status CouponStatus.expired)) [
            | inl x ↦ rw (e, x) (leaves_error sound)
            | inr x ↦ elim (Bool-cases (is_old coupon now ttl_seconds)) [
              | inl old ↦ rw (e, x, old) (leaves_error (expire_if-IsSound coupon l target sound))
              | inr old ↦ rw (e, x, old) (leaves_done (sound, target))
            ]
          ]
    ]

pub live-Leaves :
    (k now ttl_seconds : ℕ) (l : Ledger) → IsSound l → Leaves IsLive (live k now ttl_seconds l)
live-Leaves k now ttl_seconds l sound =
    bind-Leaves (lock k l) (λ coupon. live_coupon coupon now ttl_seconds) (lock-Leaves k l sound)
      (λ coupon l' (sound', found). live_coupon-Leaves coupon now ttl_seconds l' found sound')

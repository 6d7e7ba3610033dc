-- ===== src/Advisor/Coupons/MoveLaws.antt =====
-- The lifecycle of a coupon: the changes of status that the code makes, the log of them, and the
-- invariant that the log and the legs agree with the status.
use predictor.Prelude.{
  ℕ, ◌≡◌, ◌⊎◌, sym, subst, Bool, true, false, Option, none, some, List, [], ◌∷◌, any, inl, inr,
  ◌==◌, if◌then◌else◌,
}
use predictor.Advisor.Coupons.Rows.{
  CouponStatus, proposed, accepted, modified, rejected, expired, placed, not_placed, Coupon, Leg,
  CouponEvent, Ledger, find_coupon, legs_of, is_live, is_confirmable, is_open_leg,
}
use predictor.Advisor.Coupons.Actions.{is_recommendation}

-- the changes of status by the code before a result, `none` before the coupon
pub data Allowed : Option CouponStatus → CouponStatus → Type 0 where
  proposing : Allowed none proposed
  accepting : Allowed (some proposed) accepted
  modifying : {s : CouponStatus} → is_live s ≡ true → Allowed (some s) modified
  rejecting : {s : CouponStatus} → is_live s ≡ true → Allowed (some s) rejected
  expiring : {s : CouponStatus} → is_live s ≡ true → Allowed (some s) expired
  placing : {s : CouponStatus} → is_confirmable s ≡ true → Allowed (some s) placed
  declining : {s : CouponStatus} → is_confirmable s ≡ true → Allowed (some s) not_placed

-- the last logged status of a coupon
abbrev pub latest : ℕ → List CouponEvent → Option CouponStatus
latest k [] = none
latest k (event ∷ events) =
    let rest = latest k events in if event.coupon_id == k then some event.new_status else rest

-- Each entry starts at the status that the entry before it, of the same coupon, ended at, and is an
-- allowed change.
abbrev pub IsChain : List CouponEvent → Type 0
IsChain [] = Unit
IsChain (event ∷ events) =
    (latest event.coupon_id events ≡ event.previous_status)
    × Allowed event.previous_status event.new_status
    × IsChain events

-- the results, which the settlement writes into a log of its own
abbrev pub is_settled : CouponStatus → Bool
is_settled CouponStatus.won = true
is_settled CouponStatus.lost = true
is_settled CouponStatus.void = true
is_settled _ = false

-- a coupon that will never be played
abbrev pub is_dead : CouponStatus → Bool
is_dead rejected = true
is_dead expired = true
is_dead not_placed = true
is_dead _ = false

abbrev pub any_open : List Leg → Bool
any_open legs = any (λ leg. is_open_leg leg.status) legs

-- the log ends at the status, or at `placed` before a result
abbrev pub Agrees : Option CouponStatus → CouponStatus → Type 0
Agrees last status = (last ≡ some status) ⊎ ((last ≡ some placed) × (is_settled status ≡ true))

-- The log agrees with the row, and a dead coupon holds no match.
pub record IsKept (found : Option Coupon) (legs : List Leg) (last : Option CouponStatus)
    : Type 0 where
  pub logged :
      (c : Coupon) → found ≡ some c → is_recommendation c.mode ≡ true → Agrees last c.status
  pub released : (c : Coupon) → found ≡ some c → is_dead c.status ≡ true → any_open legs ≡ false

pub record IsSound (l : Ledger) : Type 0 where
  pub kept : (k : ℕ) → IsKept (find_coupon k l.coupons) (legs_of k l.legs) (latest k l.events)
  pub chain : IsChain l.events

-- A change that no log needs: modes and statuses of coupons stay, and no leg is opened.
pub record IsQuiet (before after : Ledger) : Type 0 where
  pub events : before.events ≡ after.events
  pub rows :
      (k : ℕ) (c : Coupon)
      → find_coupon k after.coupons ≡ some c
      → (old : Coupon) × (find_coupon k before.coupons ≡ some old)
        × (old.status ≡ c.status)
        × (old.mode ≡ c.mode)
  pub legs :
      (k : ℕ) → any_open (legs_of k before.legs) ≡ false → any_open (legs_of k after.legs) ≡ false

pub quiet-IsSound : (before after : Ledger) → IsQuiet before after → IsSound before → IsSound after
quiet-IsSound before after q sound = record {
  kept = λ k. record {
    logged = λ c e r.
        let (old, found, status, mode) = q.rows k c e in
        let agrees =
          (sound.kept k).logged old found (subst (λ m. is_recommendation m ≡ true) (sym mode) r) in
        subst (λ events. Agrees (latest k events) c.status) q.events
          (subst (Agrees (latest k before.events)) status agrees);
    released = λ c e d.
        let (old, found, status, mode) = q.rows k c e in
        q.legs k ((sound.kept k).released old found (subst (λ s. is_dead s ≡ true) (sym status) d));
  };
  chain = subst IsChain q.events sound.chain;
}

-- What the action of a status needs: the coupon is a live recommendation.
pub live-Agrees :
    (last : Option CouponStatus) (status : CouponStatus)
    → is_live status ≡ true
    → Agrees last status
    → last ≡ some status
live-Agrees last proposed live (inl e) = e
live-Agrees last accepted live (inl e) = e
live-Agrees last modified live (inl e) = e
live-Agrees last proposed live (inr (e, settled)) = cc
live-Agrees last accepted live (inr (e, settled)) = cc
live-Agrees last modified live (inr (e, settled)) = cc
live-Agrees last _ live agrees = cc

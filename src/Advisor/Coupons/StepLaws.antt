-- ===== src/Advisor/Coupons/StepLaws.antt =====
-- The writes that the actions are made of keep the log and the legs in agreement with the coupons.
use predictor.Prelude.{
  ℕ, ◌≡◌, refl, sym, ap, subst, ◌∙◌, String, true, false, not, ◌&&◌, Option, none, some, List, [],
  ◌∷◌, map, arith, Bool-cases, inl, inr, ◌==◌, ==_self,
}
use predictor.Advisor.Coupons.Rows.{
  CouponStatus, Coupon, Leg, Ledger, find_coupon, update_coupon, update_legs, legs_of, with_status,
  is_live, is_open_leg,
}
use predictor.Advisor.Coupons.Actions.{same_status, is_recommendation, move, release, release_legs}
use predictor.Advisor.Coupons.ViewLaws.{
  written, find_coupon-update_self, find_coupon-update_other, legs_of-update_self,
  legs_of-update_other,
}
use predictor.Advisor.Coupons.MoveLaws.{
  Allowed, latest, is_dead, any_open, Agrees, IsKept, IsSound, IsQuiet, live-Agrees,
}

-- the tables after a change of status that is logged
abbrev moved : Coupon → CouponStatus → String → String → Ledger → Ledger
moved coupon status source note l = record l {
  coupons = update_coupon coupon.id (with_status status) l.coupons;
  events =
      record {
        coupon_id = coupon.id;
        previous_status = some coupon.status;
        new_status = status;
        source = source;
        note = note;
      }
      ∷ l.events;
}

-- What a move needs of the row that it finds.
pub record IsMovable (coupon : Coupon) (status : CouponStatus) (l : Ledger) : Type 0 where
  pub row : Coupon
  pub found : find_coupon coupon.id l.coupons ≡ some row
  pub same : row.status ≡ coupon.status
  pub mode : is_recommendation row.mode ≡ true
  pub live : is_live coupon.status ≡ true
  pub allowed : Allowed (some coupon.status) status
  pub released : is_dead status ≡ true → any_open (legs_of coupon.id l.legs) ≡ false

movable-latest :
    (coupon : Coupon) (status : CouponStatus) (l : Ledger)
    → IsMovable coupon status l
    → IsSound l
    → latest coupon.id l.events ≡ some coupon.status
movable-latest coupon status l m sound =
    live-Agrees (latest coupon.id l.events) coupon.status m.live (
      subst (Agrees (latest coupon.id l.events)) m.same
        ((sound.kept coupon.id).logged m.row m.found m.mode))

same_row :
    (found : Option Coupon) {a b : Coupon} → found ≡ some a → found ≡ some b → a.status ≡ b.status
same_row found e f = cc

moved_self :
    (coupon : Coupon) (status : CouponStatus) (source note : String) (l : Ledger)
    → IsMovable coupon status l
    → let l' = moved coupon status source note l in
      IsKept
        (find_coupon coupon.id l'.coupons)
        (legs_of coupon.id l'.legs)
        (latest coupon.id l'.events)
moved_self coupon status source note l m =
    let row =
      find_coupon-update_self coupon.id (with_status status) l.coupons (λ _. refl)
      ∙ ap (written (with_status status)) m.found in
    record {
      logged = λ c e r. rw (==_self coupon.id) (inl (ap some (same_row _ row e)));
      released = λ c e d. m.released (subst (λ s. is_dead s ≡ true) (sym (same_row _ row e)) d);
    }

moved_other :
    (coupon : Coupon) (status : CouponStatus) (source note : String) (l : Ledger) (k : ℕ)
    → (k == coupon.id) ≡ false
    → IsSound l
    → let l' = moved coupon status source note l in
      IsKept (find_coupon k l'.coupons) (legs_of k l'.legs) (latest k l'.events)
moved_other coupon status source note l k other sound =
    let row =
      find_coupon-update_other k coupon.id (with_status status) l.coupons (λ _. refl) other in
    let not_it : (coupon.id == k) ≡ false = ground arith in rw (row, not_it) (sound.kept k)

pub move-IsSound :
    (coupon : Coupon) (status : CouponStatus) (source note : String) (l : Ledger)
    → IsMovable coupon status l
    → IsSound l
    → IsSound (move coupon status source note l)
unfolding move
move-IsSound coupon status source note l m sound =
    elim (Bool-cases
      (same_status coupon.status status && not (same_status status CouponStatus.proposed))) [
        | inl stays ↦ rw stays sound
        | inr moves ↦ rw moves (record {
          kept = λ k. elim (Bool-cases (k == coupon.id)) [
            | inl e ↦
                let self : k ≡ coupon.id = ground arith in
                subst
                  (λ j.
                    IsKept (find_coupon j (moved coupon status source note l).coupons)
                      (legs_of j l.legs) (latest j (moved coupon status source note l).events))
                  (sym self) (moved_self coupon status source note l m)
            | inr e ↦ moved_other coupon status source note l k e sound
          ];
          chain = (movable-latest coupon status l m sound, m.allowed, sound.chain);
        })
      ]

any_open-release : (legs : List Leg) → any_open (map release legs) ≡ false
any_open-release [] = refl
any_open-release (leg ∷ legs) =
    let rest = any_open-release legs in
    elim (Bool-cases (is_open_leg leg.status)) [ inl e ↦ rw e rest | inr e ↦ rw e (rw e rest) ]

release-coupon_id : (leg : Leg) → (release leg).coupon_id ≡ leg.coupon_id
release-coupon_id leg = elim (Bool-cases (is_open_leg leg.status)) [
  | inl e ↦ rw e refl
  | inr e ↦ rw e refl
]

-- The release closes the legs of the coupon.
pub release_legs-closed :
    (k : ℕ) (l : Ledger) → any_open (legs_of k (release_legs k l).legs) ≡ false
unfolding release_legs
release_legs-closed k l =
    ap any_open (legs_of-update_self k release l.legs (λ leg. release-coupon_id leg))
    ∙ any_open-release (legs_of k l.legs)

-- A write to legs that opens none.
pub record IsClosing (g : Leg → Leg) : Type 0 where
  pub coupon_id : (leg : Leg) → (g leg).coupon_id ≡ leg.coupon_id
  pub closing : (leg : Leg) → is_open_leg leg.status ≡ false → is_open_leg (g leg).status ≡ false

any_open-closing :
    (g : Leg → Leg) (legs : List Leg)
    → IsClosing g
    → any_open legs ≡ false
    → any_open (map g legs) ≡ false
any_open-closing g [] h e = refl
any_open-closing g (leg ∷ legs) h e = elim (Bool-cases (is_open_leg leg.status)) [
  | inl o ↦ absurd (ground arith)
  | inr o ↦ rw (h.closing leg o) (any_open-closing g legs h (ground arith))
]

pub update_legs-closing :
    (k j : ℕ) (g : Leg → Leg) (legs : List Leg)
    → IsClosing g
    → any_open (legs_of k legs) ≡ false
    → any_open (legs_of k (update_legs j g legs)) ≡ false
update_legs-closing k j g legs h e = elim (Bool-cases (k == j)) [
  | inl same ↦
      let self : k ≡ j = ground arith in
      subst (λ i. any_open (legs_of k (update_legs i g legs)) ≡ false) self
        (ap any_open (legs_of-update_self k g legs h.coupon_id)
          ∙ any_open-closing g (legs_of k legs) h e)
  | inr other ↦ ap any_open (legs_of-update_other k j g legs h.coupon_id other) ∙ e
]

release-IsClosing : IsClosing release
release-IsClosing = record { coupon_id = release-coupon_id; closing = λ leg e. rw e e }

pub release_legs-IsQuiet : (k : ℕ) (l : Ledger) → IsQuiet l (release_legs k l)
unfolding release_legs
release_legs-IsQuiet k l = record {
  events = refl;
  rows = λ j c e. (c, e, refl, refl);
  legs = λ j e. update_legs-closing j k release l.legs release-IsClosing e;
}

-- A write to a coupon that keeps its id, status and mode.
pub record IsPlain (f : Coupon → Coupon) : Type 0 where
  pub id : (c : Coupon) → (f c).id ≡ c.id
  pub status : (c : Coupon) → (f c).status ≡ c.status
  pub mode : (c : Coupon) → (f c).mode ≡ c.mode

written-plain :
    (f : Coupon → Coupon) (before : Option Coupon) (c : Coupon)
    → IsPlain f
    → written f before ≡ some c
    → (old : Coupon) × (before ≡ some old) × (old.status ≡ c.status) × (old.mode ≡ c.mode)
written-plain f none c h e = cc
written-plain f (some old) c h e =
    let same : f old ≡ c = cc in
    (
      old,
      refl,
      sym (h.status old) ∙ ap (λ d. d.status) same,
      sym (h.mode old) ∙ ap (λ d. d.mode) same,
    )

pub update_coupon-rows :
    (j k : ℕ) (f : Coupon → Coupon) (coupons : List Coupon) (c : Coupon)
    → IsPlain f
    → find_coupon k (update_coupon j f coupons) ≡ some c
    → (old : Coupon) × (find_coupon k coupons ≡ some old)
      × (old.status ≡ c.status)
      × (old.mode ≡ c.mode)
update_coupon-rows j k f coupons c h e = elim (Bool-cases (k == j)) [
  | inl same ↦
      let self : k ≡ j = ground arith in
      written-plain f (find_coupon k coupons) c h (
        sym (find_coupon-update_self k f coupons h.id)
        ∙ subst (λ i. find_coupon k (update_coupon i f coupons) ≡ some c) (sym self) e)
  | inr other ↦ (c, sym (find_coupon-update_other k j f coupons h.id other) ∙ e, refl, refl)
]

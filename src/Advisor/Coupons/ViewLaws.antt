-- ===== src/Advisor/Coupons/ViewLaws.antt =====
-- What a write to one coupon does to the rows of every coupon.
use predictor.Prelude.{
  ℕ, ◌≡◌, refl, subst, Bool, true, false, Option, none, some, List, [], ◌∷◌, map, arith, Bool-cases,
  inl, inr, ◌⊎◌, ◌==◌, if◌then◌else◌,
}
use predictor.Advisor.Coupons.Rows.{Coupon, Leg, find_coupon, update_coupon, update_legs, legs_of}

found-cases :
    (b : Bool) (x c : Coupon) (rest : Option Coupon)
    → (if b then some x else rest) ≡ some c
    → ((b ≡ true) × (x ≡ c)) ⊎ ((b ≡ false) × (rest ≡ some c))
found-cases true x c rest e = inl (refl, cc)
found-cases false x c rest e = inr (refl, e)

abbrev pub written : (Coupon → Coupon) → Option Coupon → Option Coupon
written f none = none
written f (some c) = some (f c)

pub find_coupon-update_self :
    (k : ℕ) (f : Coupon → Coupon) (coupons : List Coupon)
    → ((c : Coupon) → (f c).id ≡ c.id)
    → find_coupon k (update_coupon k f coupons) ≡ written f (find_coupon k coupons)
unfolding find_coupon update_coupon
find_coupon-update_self k f [] h = refl
find_coupon-update_self k f (x ∷ xs) h =
    let rest = find_coupon-update_self k f xs h in
    elim (Bool-cases (x.id == k)) [
      | inl same ↦ let fixed : ((f x).id == k) ≡ true = rw (h x) same in rw same (rw fixed refl)
      | inr other ↦ rw (other, rest) (rw other refl)
    ]

pub find_coupon-id :
    (k : ℕ) (coupons : List Coupon) (c : Coupon) → find_coupon k coupons ≡ some c → c.id ≡ k
unfolding find_coupon
find_coupon-id k [] c e = cc
find_coupon-id k (x ∷ xs) c e = elim (found-cases (x.id == k) x c (find_coupon k xs) e) [
  | inl (same, found) ↦ subst (λ d. d.id ≡ k) found (ground arith)
  | inr (other, later) ↦ find_coupon-id k xs c later
]

pub find_coupon-update_other :
    (k j : ℕ) (f : Coupon → Coupon) (coupons : List Coupon)
    → ((c : Coupon) → (f c).id ≡ c.id)
    → (k == j) ≡ false
    → find_coupon k (update_coupon j f coupons) ≡ find_coupon k coupons
unfolding find_coupon update_coupon
find_coupon-update_other k j f [] h e = refl
find_coupon-update_other k j f (x ∷ xs) h e =
    let rest = find_coupon-update_other k j f xs h e in
    elim (Bool-cases (x.id == j)) [
      | inl same ↦
          let old : (x.id == k) ≡ false = ground arith in
          let new : ((f x).id == k) ≡ false = rw (h x) old in rw (same, old) (rw new rest)
      | inr other ↦ rw (other, rest) refl
    ]

pub legs_of-update_self :
    (k : ℕ) (f : Leg → Leg) (legs : List Leg)
    → ((leg : Leg) → (f leg).coupon_id ≡ leg.coupon_id)
    → legs_of k (update_legs k f legs) ≡ map f (legs_of k legs)
unfolding update_legs
legs_of-update_self k f [] h = refl
legs_of-update_self k f (x ∷ xs) h =
    let rest = legs_of-update_self k f xs h in
    elim (Bool-cases (x.coupon_id == k)) [
      | inl same ↦
          let fixed : ((f x).coupon_id == k) ≡ true = rw (h x) same in
          rw same (rw (fixed, rest) refl)
      | inr other ↦ rw (other, rest) (rw other refl)
    ]

pub legs_of-update_other :
    (k j : ℕ) (f : Leg → Leg) (legs : List Leg)
    → ((leg : Leg) → (f leg).coupon_id ≡ leg.coupon_id)
    → (k == j) ≡ false
    → legs_of k (update_legs j f legs) ≡ legs_of k legs
unfolding update_legs
legs_of-update_other k j f [] h e = refl
legs_of-update_other k j f (x ∷ xs) h e =
    let rest = legs_of-update_other k j f xs h e in
    elim (Bool-cases (x.coupon_id == j)) [
      | inl same ↦
          let old : (x.coupon_id == k) ≡ false = ground arith in
          let new : ((f x).coupon_id == k) ≡ false = rw (h x) old in rw (same, old) (rw new rest)
      | inr other ↦ rw (other, rest) refl
    ]

-- ===== src/Advisor/Coupons/SettleLaws.antt =====
-- A leg that a settlement has changed is not changed again at the same instant.
use predictor.Prelude.{
  ℕ, ◌≡◌, refl, sym, ap, subst, ◌∙◌, Bool, true, false, not, ◌&&◌, Option, none, some, List, [],
  ◌∷◌, map, any, All, Bool-cases, Option-cases, inl, inr, ◌==◌, ==_self,
}
use predictor.Advisor.Settle.{settle_leg}
use predictor.Advisor.Coupons.Rows.{
  LegStatus, Coupon, Leg, Fixture, find_coupon, find_fixture, leg_with,
}
use predictor.Advisor.Coupons.Settle.{
  final_score, inside_correction_window, terminal, leg_number, same_leg_status, is_open_status,
  changed_name, new_status, played, in_join, joined, leg_change, Pass, change_to, settle_legs,
}

-- a leg after its change
abbrev pub after_change : Leg → Option LegStatus → Leg
after_change leg none = leg
after_change leg (some name) = leg_with name leg.odd leg

same_leg_self : (status : LegStatus) → same_leg_status status status ≡ true
same_leg_self status = ==_self (leg_number status)

-- What a leg was changed to is what its score says.
changed_name-again :
    (leg : Leg) (window : Bool) (name : Option LegStatus)
    → let change = changed_name leg window name in
      changed_name (after_change leg change) window name ≡ none
changed_name-again leg window none = refl
changed_name-again leg window (some name) = elim (Bool-cases (same_leg_status name leg.status)) [
  | inl same ↦ rw same (rw same refl)
  | inr other ↦ elim (Bool-cases (not (is_open_status leg.status) && not window)) [
    | inl late ↦ rw (other, late) (rw (other, late) refl)
    | inr early ↦ rw (other, early) (rw (same_leg_self name) refl)
  ]
]

module _ (refreshed : ℕ → Bool) (now : ℕ) where
  new_status-again :
      (leg : Leg) (fixture : Fixture)
      → new_status refreshed now (after_change leg (new_status refreshed now leg fixture)) fixture
        ≡ none
  new_status-again leg fixture =
      let window = inside_correction_window fixture now in
      let name = terminal (settle_leg leg.period leg.n (final_score fixture refreshed now)) in
      let again = changed_name-again leg window name in
      elim (Option-cases (changed_name leg window name)) [
        | inl e ↦
            subst (λ c. new_status refreshed now (after_change leg c) fixture ≡ none) (sym e)
              (subst (λ c. changed_name (after_change leg c) window name ≡ none) e again)
        | inr (change, e) ↦
            subst (λ c. new_status refreshed now (after_change leg c) fixture ≡ none) (sym e)
              (subst (λ c. changed_name (after_change leg c) window name ≡ none) e again)
      ]

  -- A joined leg, changed or not, and joined or not, is not changed again.
  joined-again :
      (leg : Leg) (b : Bool) (fixture : Option Fixture)
      → joined refreshed now (after_change leg (joined refreshed now leg b fixture)) b fixture
        ≡ none
  joined-again leg b none = refl
  joined-again leg b (some fixture) = elim (Bool-cases (in_join b leg.status)) [
    | inr out ↦ rw out (rw out refl)
    | inl in_it ↦
        let name = new_status refreshed now leg fixture in
        let again = new_status-again leg fixture in
        elim (Bool-cases (in_join b (after_change leg name).status)) [
          | inl e ↦ rw in_it (rw (e, again) refl)
          | inr e ↦ rw in_it (rw e refl)
        ]
  ]

after_change-coupon_id :
    (leg : Leg) (c : Option LegStatus) → (after_change leg c).coupon_id ≡ leg.coupon_id
after_change-coupon_id leg none = refl
after_change-coupon_id leg (some name) = refl

after_change-fixture_id :
    (leg : Leg) (c : Option LegStatus) → (after_change leg c).fixture_id ≡ leg.fixture_id
after_change-fixture_id leg none = refl
after_change-fixture_id leg (some name) = refl

-- Two tables of coupons that play the same ones.
abbrev pub SamePlay : List Coupon → List Coupon → Type 0
SamePlay before after = (k : ℕ) → played (find_coupon k before) ≡ played (find_coupon k after)

leg_change-again :
    (refreshed : ℕ → Bool) (now : ℕ) (fixtures : List Fixture) (before after : List Coupon)
    (leg : Leg)
    → SamePlay before after
    → leg_change refreshed now fixtures after
        (after_change leg (leg_change refreshed now fixtures before leg))
      ≡ none
unfolding leg_change
leg_change-again refreshed now fixtures before after leg same =
    let b = played (find_coupon leg.coupon_id before) in
    let fixture = find_fixture leg.fixture_id fixtures in
    let change = joined refreshed now leg b fixture in
    let coupon = after_change-coupon_id leg change in
    let match = after_change-fixture_id leg change in
    rw (coupon, match, sym (same leg.coupon_id)) (joined-again refreshed now leg b fixture)

change_to-legs :
    (leg : Leg) (c : Option LegStatus) (pass : Pass)
    → (change_to leg c pass).legs ≡ after_change leg c ∷ pass.legs
change_to-legs leg none pass = refl
change_to-legs leg (some name) pass = refl

-- the pass over the legs, leg by leg
pub settle_legs-legs :
    (change : Leg → Option LegStatus) (legs : List Leg)
    → (settle_legs change legs).legs ≡ map (λ leg. after_change leg (change leg)) legs
unfolding settle_legs
settle_legs-legs change [] = refl
settle_legs-legs change (leg ∷ legs) =
    change_to-legs leg (change leg) (settle_legs change legs)
    ∙ ap (λ rest. after_change leg (change leg) ∷ rest) (settle_legs-legs change legs)

pub settle_legs-same :
    (change : Leg → Option LegStatus) (legs : List Leg)
    → All (λ leg. change leg ≡ none) legs
    → settle_legs change legs ≡ record { legs = legs; settlements = []; touched = [] }
unfolding settle_legs
settle_legs-same change [] h = refl
settle_legs-same change (leg ∷ legs) (e, h) = rw (e, settle_legs-same change legs h) refl

pub legs_again :
    (refreshed : ℕ → Bool) (now : ℕ) (fixtures : List Fixture) (before after : List Coupon)
    (legs : List Leg)
    → SamePlay before after
    → All
        (λ leg. leg_change refreshed now fixtures after leg ≡ none)
        (map (λ leg. after_change leg (leg_change refreshed now fixtures before leg)) legs)
legs_again refreshed now fixtures before after [] same = tt
legs_again refreshed now fixtures before after (leg ∷ legs) same = (
  leg_change-again refreshed now fixtures before after leg same,
  legs_again refreshed now fixtures before after legs same,
)

joined-played :
    (refreshed : ℕ → Bool) (now : ℕ) (leg : Leg) (b : Bool) (fixture : Option Fixture)
    (name : LegStatus)
    → joined refreshed now leg b fixture ≡ some name
    → b ≡ true
joined-played refreshed now leg true fixture name e = refl
joined-played refreshed now leg false none name e = cc
joined-played refreshed now leg false (some fixture) name e = cc

change_to-touched :
    (P : ℕ → Type 0) (leg : Leg) (c : Option LegStatus) (pass : Pass)
    → ((name : LegStatus) → c ≡ some name → P leg.coupon_id)
    → All P pass.touched
    → All P (change_to leg c pass).touched
change_to-touched P leg none pass h hs = hs
change_to-touched P leg (some name) pass h hs =
    elim (Bool-cases (any (λ j. j == leg.coupon_id) pass.touched)) [
      | inl e ↦ rw e hs
      | inr e ↦ rw e (h name refl, hs)
    ]

-- The coupons that a pass touches are played.
pub settle_legs-touched :
    (refreshed : ℕ → Bool) (now : ℕ) (fixtures : List Fixture) (coupons : List Coupon)
    (legs : List Leg)
    → All
        (λ k. played (find_coupon k coupons) ≡ true)
        (settle_legs (leg_change refreshed now fixtures coupons) legs).touched
unfolding settle_legs leg_change
settle_legs-touched refreshed now fixtures coupons [] = tt
settle_legs-touched refreshed now fixtures coupons (leg ∷ legs) =
    let change = leg_change refreshed now fixtures coupons in
    change_to-touched (λ k. played (find_coupon k coupons) ≡ true) leg (change leg)
      (settle_legs change legs)
      (joined-played refreshed now leg (played (find_coupon leg.coupon_id coupons))
        (find_fixture leg.fixture_id fixtures))
      (settle_legs-touched refreshed now fixtures coupons legs)

-- ===== src/Advisor/Coupons/PlaceLaws.antt =====
-- A coupon is placed only while it is confirmed, young, and proposed at the score as it is now.
use predictor.Prelude.{
  ℕ, ◌+◌, ◌*◌, ◌<◌, ◌≡◌, refl, sym, ap, subst, ◌∙◌, Bool, true, false, not, ◌||◌, Option, none,
  some, List, [], ◌∷◌, All, arith, if◌then◌else◌,
}
use predictor.Prelude.Time.{second}
use predictor.Advisor.Domain.{Period, regulation, extra_time, period_for}
use predictor.Advisor.Coupons.Rows.{
  CouponStatus, Coupon, Leg, Fixture, Ledger, find_coupon, find_fixture, with_status,
  is_confirmable,
}
use predictor.Advisor.Coupons.Actions.{
  Code, Acted, done, action_error, ◌>>=◌, same_status, same_period, is_recommendation, move, is_old,
  lock, period_changed, goals_changed, leg_changed, score_changed, kept_legs, at_place,
  write_coupon, or_missing, place_locked, place_coupon,
}
use predictor.Advisor.Coupons.ViewLaws.{find_coupon-id, find_coupon-update_self, written}

-- The match of a leg is in the period of the leg, at the score of the leg.
abbrev pub Stands : List Fixture → Leg → Type 0
Stands fixtures leg =
    (fixture : Fixture) × (find_fixture leg.fixture_id fixtures ≡ some fixture)
    × (period_for fixture.status_short ≡ some leg.period)
    × (fixture.goals_home ≡ some leg.goals_home)
    × (fixture.goals_away ≡ some leg.goals_away)

same_period-eq : (a b : Period) → not (same_period a b) ≡ false → a ≡ b
same_period-eq regulation regulation e = refl
same_period-eq extra_time extra_time e = refl
same_period-eq regulation extra_time e = cc
same_period-eq extra_time regulation e = cc

period_stays :
    (leg : Leg) (period : Option Period)
    → period_changed leg period ≡ false
    → period ≡ some leg.period
period_stays leg none e = cc
period_stays leg (some period) e = ap some (same_period-eq period leg.period e)

goals_stay :
    (leg : Leg) (home away : Option ℕ)
    → goals_changed leg home away ≡ false
    → (home ≡ some leg.goals_home) × (away ≡ some leg.goals_away)
goals_stay leg (some home) (some away) e =
    let same_home : home ≡ leg.goals_home = ground arith in
    let same_away : away ≡ leg.goals_away = ground arith in (ap some same_home, ap some same_away)
goals_stay leg none away e = cc
goals_stay leg (some home) none e = cc

or_false : (a b : Bool) → (a || b) ≡ false → (a ≡ false) × (b ≡ false)
or_false false b e = (refl, e)
or_false true b e = cc

leg-Stands :
    (fixtures : List Fixture) (leg : Leg) (found : Option Fixture)
    → find_fixture leg.fixture_id fixtures ≡ found
    → leg_changed leg found ≡ false
    → Stands fixtures leg
leg-Stands fixtures leg none at e = cc
leg-Stands fixtures leg (some fixture) at e =
    let (period, goals) = or_false (period_changed leg (period_for fixture.status_short)) _ e in
    let (home, away) = goals_stay leg fixture.goals_home fixture.goals_away goals in
    (fixture, at, period_stays leg (period_for fixture.status_short) period, home, away)

score_stays :
    (legs : List Leg) (fixtures : List Fixture)
    → score_changed legs fixtures ≡ false
    → All (Stands fixtures) legs
unfolding score_changed
score_stays [] fixtures e = tt
score_stays (leg ∷ legs) fixtures e =
    let (first, rest) = or_false (leg_changed leg (find_fixture leg.fixture_id fixtures)) _ e in
    (
      leg-Stands fixtures leg (find_fixture leg.fixture_id fixtures) refl first,
      score_stays legs fixtures rest,
    )

guarded :
    {A : Type 0} (c : Code) (b : Bool) (before : Ledger) {after : Ledger} {a : A} (test : Bool)
    (rest : Acted A)
    → (if test then action_error c b before else rest) ≡ done a after
    → (test ≡ false) × (rest ≡ done a after)
guarded c b before true rest e = cc
guarded c b before false rest e = (refl, e)

done-ledger : {A : Type 0} {a b : A} {l m : Ledger} → done a l ≡ done b m → l ≡ m
done-ledger e = cc

-- the guards of `place_locked`
place_locked-guards :
    (now ttl_seconds : ℕ) (coupon : Coupon) (l after : Ledger)
    → place_locked now ttl_seconds coupon l ≡ done tt after
    → (is_recommendation coupon.mode ≡ true)
      × (is_confirmable coupon.status ≡ true)
      × (now < coupon.created_at + ttl_seconds * second)
      × All (Stands l.fixtures) (kept_legs coupon.id l.legs)
      × (after
          ≡ move coupon CouponStatus.placed "operator" "" (write_coupon coupon.id (at_place now) l))
place_locked-guards now ttl_seconds coupon l after e =
    let (mode, e) = guarded _ _ _ (not (is_recommendation coupon.mode)) _ e in
    let (fresh, e) = guarded _ _ _ (same_status coupon.status CouponStatus.expired) _ e in
    let (confirmable, e) = guarded _ _ _ (not (is_confirmable coupon.status)) _ e in
    let (young, e) = guarded _ _ _ (is_old coupon now ttl_seconds) _ e in
    let (same, e) = guarded _ _ _ (score_changed (kept_legs coupon.id l.legs) l.fixtures) _ e in
    (
      ground arith,
      ground arith,
      ground arith,
      score_stays (kept_legs coupon.id l.legs) l.fixtures same,
      sym (done-ledger e),
    )

moves :
    (status : CouponStatus)
    → is_confirmable status ≡ true
    → same_status status CouponStatus.placed ≡ false
moves CouponStatus.accepted e = refl
moves CouponStatus.modified e = refl
moves _ e = cc

placed_row :
    (now : ℕ) (coupon : Coupon) (l : Ledger)
    → is_confirmable coupon.status ≡ true
    → find_coupon coupon.id l.coupons ≡ some coupon
    → find_coupon coupon.id
        (move coupon CouponStatus.placed "operator" ""
          (write_coupon coupon.id (at_place now) l)).coupons
      ≡ some (with_status CouponStatus.placed (at_place now coupon))
unfolding move
placed_row now coupon l e found = rw (moves coupon.status e) (
    find_coupon-update_self coupon.id (with_status CouponStatus.placed)
      (write_coupon coupon.id (at_place now) l).coupons (λ _. refl)
    ∙ ap (written (with_status CouponStatus.placed)) (
        find_coupon-update_self coupon.id (at_place now) l.coupons (λ _. refl)
        ∙ ap (written (at_place now)) found))

-- The row that is placed: a recommendation, confirmed, younger than its time to live, whose legs
-- stand in the table of fixtures at their scores.
pub record IsPlaceable (now ttl_seconds : ℕ) (l : Ledger) (coupon : Coupon) : Type 0 where
  pub recommended : is_recommendation coupon.mode ≡ true
  pub confirmed : is_confirmable coupon.status ≡ true
  pub young : now < coupon.created_at + ttl_seconds * second
  pub stands : All (Stands l.fixtures) (kept_legs coupon.id l.legs)

place_found :
    (k now ttl_seconds : ℕ) (l after : Ledger) (found : Option Coupon)
    → find_coupon k l.coupons ≡ found
    → (or_missing l found >>= place_locked now ttl_seconds) ≡ done tt after
    → (coupon : Coupon) × (find_coupon k l.coupons ≡ some coupon)
      × IsPlaceable now ttl_seconds l coupon
      × (find_coupon k after.coupons ≡ some (with_status CouponStatus.placed (at_place now coupon)))
place_found k now ttl_seconds l after none at e = cc
place_found k now ttl_seconds l after (some coupon) at e =
    let (mode, confirmable, young, stands, tables) =
      place_locked-guards now ttl_seconds coupon l after e in
    let id = find_coupon-id k l.coupons coupon at in
    let self = subst (λ j. find_coupon j l.coupons ≡ some coupon) (sym id) at in
    (
      coupon,
      at,
      record { recommended = mode; confirmed = confirmable; young = young; stands = stands },
      ap (λ t. find_coupon k t.coupons) tables
          ∙ subst
              (λ j.
                find_coupon j
                  (move coupon CouponStatus.placed "operator" ""
                    (write_coupon coupon.id (at_place now) l)).coupons
                ≡ some (with_status CouponStatus.placed (at_place now coupon)))
              id (placed_row now coupon l confirmable self),
    )

-- A coupon that `place_coupon` places without an error is a recommendation in the table, accepted or
-- modified, younger than its time to live, and every leg that is not removed has its match in the
-- period and at the score of the leg; the row is then placed, at that instant, and otherwise as it
-- was.
pub place_coupon-IsPlaceable :
    (k now ttl_seconds : ℕ) (l after : Ledger)
    → place_coupon k now ttl_seconds l ≡ done tt after
    → (coupon : Coupon) × (find_coupon k l.coupons ≡ some coupon)
      × IsPlaceable now ttl_seconds l coupon
      × (find_coupon k after.coupons ≡ some (with_status CouponStatus.placed (at_place now coupon)))
unfolding place_coupon lock
place_coupon-IsPlaceable k now ttl_seconds l after e =
    place_found k now ttl_seconds l after (find_coupon k l.coupons) refl e

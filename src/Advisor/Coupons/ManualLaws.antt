-- ===== src/Advisor/Coupons/ManualLaws.antt =====
-- What becomes of a result that the operator gives.
use predictor.Prelude.{
  ℕ, ◌≡◌, refl, sym, ap, subst, ◌∙◌, Bool, true, false, not, Option, none, some, List, [], ◌∷◌, map,
  arith, ◌⊎◌, inl, inr, ◌==◌, if◌then◌else◌,
}
use predictor.Prelude.Result.{ok}
use predictor.Queue.Task.{Task}
use predictor.Advisor.Domain.{Settlement}
use predictor.Advisor.Settle.{settle_leg}
use predictor.Advisor.Coupons.Rows.{
  LegStatus, Coupon, Leg, Fixture, Ledger, find_coupon, find_fixture, leg_with,
}
use predictor.Advisor.Coupons.Actions.{Acted, Code, done, action_error}
use predictor.Advisor.Coupons.Settle.{
  final_score, inside_correction_window, same_leg_status, played, leg_change, manual_name, find_leg,
  update_leg, manual_found, manual_settle, refreshed_by, settle_finished,
}
use predictor.Advisor.Coupons.SettleLaws.{after_change}
use predictor.Advisor.Coupons.AgainLaws.{settle_finished-legs}

leg_change-manual :
    (refreshed : ℕ → Bool) (now : ℕ) (fixtures : List Fixture) (coupons : List Coupon) (leg : Leg)
    (fixture : Fixture) (outcome : LegStatus)
    → manual_name outcome ≡ true
    → played (find_coupon leg.coupon_id coupons) ≡ true
    → find_fixture leg.fixture_id fixtures ≡ some fixture
    → inside_correction_window fixture now ≡ true
    → settle_leg leg.period leg.n (final_score fixture refreshed now) ≡ Settlement.manual
    → leg_change refreshed now fixtures coupons (leg_with outcome leg.odd leg)
      ≡ some LegStatus.manual
unfolding leg_change
leg_change-manual refreshed now fixtures coupons leg fixture LegStatus.won given plays found window
      asks =
    rw (plays, found, window, asks) refl
leg_change-manual refreshed now fixtures coupons leg fixture LegStatus.lost given plays found window
      asks =
    rw (plays, found, window, asks) refl
leg_change-manual refreshed now fixtures coupons leg fixture LegStatus.void given plays found window
      asks =
    rw (plays, found, window, asks) refl
leg_change-manual refreshed now fixtures coupons leg fixture _ given plays found window asks = cc

found-cases :
    (b : Bool) (x y : Leg) (rest : Option Leg)
    → (if b then some x else rest) ≡ some y
    → ((b ≡ true) × (x ≡ y)) ⊎ ((b ≡ false) × (rest ≡ some y))
found-cases true x y rest e = inl (refl, cc)
found-cases false x y rest e = inr (refl, e)

find_leg-id : (k : ℕ) (legs : List Leg) (leg : Leg) → find_leg k legs ≡ some leg → leg.id ≡ k
unfolding find_leg
find_leg-id k [] leg e = cc
find_leg-id k (x ∷ legs) leg e = elim (found-cases (x.id == k) x leg (find_leg k legs) e) [
  | inl (is, same) ↦ subst (λ l. l.id ≡ k) same (ground arith)
  | inr (not_it, later) ↦ find_leg-id k legs leg later
]

find_leg-update :
    (k : ℕ) (status : LegStatus) (legs : List Leg) (leg : Leg)
    → find_leg k legs ≡ some leg
    → find_leg k (update_leg k status legs) ≡ some (leg_with status leg.odd leg)
unfolding find_leg update_leg
find_leg-update k status [] leg e = cc
find_leg-update k status (x ∷ legs) leg e =
    elim (found-cases (x.id == k) x leg (find_leg k legs) e) [
      | inl (is, same) ↦ rw is (rw is (ap (λ l. some (leg_with status l.odd l)) same))
      | inr (not_it, later) ↦ rw not_it (rw not_it (find_leg-update k status legs leg later))
    ]

after_change-id : (leg : Leg) (c : Option LegStatus) → (after_change leg c).id ≡ leg.id
after_change-id leg none = refl
after_change-id leg (some name) = refl

find_leg-map :
    (k : ℕ) (change : Leg → Option LegStatus) (legs : List Leg) (leg : Leg)
    → find_leg k legs ≡ some leg
    → find_leg k (map (λ l. after_change l (change l)) legs) ≡ some (after_change leg (change leg))
unfolding find_leg
find_leg-map k change [] leg e = cc
find_leg-map k change (x ∷ legs) leg e = elim (found-cases (x.id == k) x leg (find_leg k legs) e) [
  | inl (is, same) ↦
      rw (after_change-id x (change x), is) (ap (λ l. some (after_change l (change l))) same)
  | inr (not_it, later) ↦
      rw (after_change-id x (change x), not_it) (find_leg-map k change legs leg later)
]

is_manual :
    (status : LegStatus)
    → same_leg_status status LegStatus.manual ≡ true
    → status ≡ LegStatus.manual
is_manual LegStatus.manual e = refl
is_manual LegStatus.open_leg e = cc
is_manual LegStatus.won e = cc
is_manual LegStatus.lost e = cc
is_manual LegStatus.void e = cc
is_manual LegStatus.removed e = cc

-- What a manual settlement that succeeds has done.
record IsGiven (outcome : LegStatus) (leg : Leg) (l l' : Ledger) : Type 0 where
  named : manual_name outcome ≡ true
  manual : leg.status ≡ LegStatus.manual
  legs : l'.legs ≡ update_leg leg.id outcome l.legs
  coupons : l'.coupons ≡ l.coupons
  fixtures : l'.fixtures ≡ l.fixtures

refused :
    (b : Bool) (code : Code) (l l' : Ledger) (r : Acted Unit)
    → (if b then action_error code false l else r) ≡ done tt l'
    → (b ≡ false) × (r ≡ done tt l')
refused true code l l' r e = cc
refused false code l l' r e = (refl, e)

not-false : (b : Bool) → not b ≡ false → b ≡ true
not-false true e = refl
not-false false e = cc

done-injective : {l l' : Ledger} → done tt l ≡ done tt l' → l ≡ l'
done-injective e = cc

manual_settle-IsGiven :
    (k : ℕ) (outcome : LegStatus) (l l' : Ledger) (leg : Leg)
    → find_leg k l.legs ≡ some leg
    → manual_settle k outcome l ≡ done tt l'
    → IsGiven outcome leg l l'
unfolding manual_settle
manual_settle-IsGiven k outcome l l' leg found e =
    let (named, e) = refused (not (manual_name outcome)) _ l l' _ e in
    let e = subst (λ o. manual_found outcome o l ≡ done tt l') found e in
    let (manual, e) = refused (not (same_leg_status leg.status LegStatus.manual)) _ l l' _ e in
    let same = done-injective e in
    record {
      named = not-false _ named;
      manual = is_manual leg.status (not-false _ manual);
      legs = ap (λ m. m.legs) (sym same);
      coupons = ap (λ m. m.coupons) (sym same);
      fixtures = ap (λ m. m.fixtures) (sym same);
    }

back :
    (leg : Leg) (outcome : LegStatus)
    → leg.status ≡ LegStatus.manual
    → leg_with LegStatus.manual leg.odd (leg_with outcome leg.odd leg) ≡ leg
back leg outcome manual = ap (λ s. record leg { status = s }) (sym manual)

-- A result that the operator gives to a leg does not stay. After `manual_settle` has succeeded, a run
-- of `settle_finished` leaves the leg as it was before the operator's settlement, while its coupon is
-- played, the final score of its match still asks for a manual settlement, and the correction window
-- of the match is open.
pub settle_finished-undoes :
    (tasks : List Task) (now k n : ℕ) (outcome : LegStatus) (l given after : Ledger) (leg : Leg)
    (fixture : Fixture)
    → find_leg k l.legs ≡ some leg
    → manual_settle k outcome l ≡ done tt given
    → settle_finished tasks now given ≡ ok (after, n)
    → played (find_coupon leg.coupon_id l.coupons) ≡ true
    → find_fixture leg.fixture_id l.fixtures ≡ some fixture
    → inside_correction_window fixture now ≡ true
    → settle_leg leg.period leg.n (final_score fixture (refreshed_by tasks) now) ≡ Settlement.manual
    → find_leg k after.legs ≡ some leg
settle_finished-undoes tasks now k n outcome l given after leg fixture found gives settles plays
      match window asks =
    let act = manual_settle-IsGiven k outcome l given leg found gives in
    let change = leg_change (refreshed_by tasks) now given.fixtures given.coupons in
    let new = leg_with outcome leg.odd leg in
    let here : find_leg k given.legs ≡ some new =
      subst (λ legs. find_leg k legs ≡ some new) (sym act.legs)
        (subst (λ j. find_leg k (update_leg j outcome l.legs) ≡ some new)
          (sym (find_leg-id k l.legs leg found)) (find_leg-update k outcome l.legs leg found)) in
    let turns : change new ≡ some LegStatus.manual =
      leg_change-manual (refreshed_by tasks) now given.fixtures given.coupons leg fixture outcome
        act.named (ap (λ c. played (find_coupon leg.coupon_id c)) act.coupons ∙ plays)
        (ap (λ f. find_fixture leg.fixture_id f) act.fixtures ∙ match) window asks in
    ap (find_leg k) (settle_finished-legs tasks now given after n settles)
    ∙ (find_leg-map k change given.legs new here
        ∙ ap some (ap (after_change new) turns ∙ back leg outcome act.manual))

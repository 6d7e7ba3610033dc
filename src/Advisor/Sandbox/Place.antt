-- ===== src/Advisor/Sandbox/Place.antt =====
-- `place_sandbox_coupons` and `_insert_slip` of services/advisor/sandbox.py, with the unique indexes
-- of models/advisor.py that they meet.
use predictor.Prelude.{
  ◌≡◌, refl, ℕ, ◌+◌, String, Bool, true, false, not, ◌&&◌, Option, none, some, List, [], ◌∷◌, ◌++◌,
  map, if◌then◌else◌, ◌==◌, str_eq, is_in, any,
}
use predictor.Prelude.Int.{ℤ, pos, ◌-ℤ◌, ltb_ℤ}
use predictor.Prelude.Time.{DateTime, naive, aware}
use predictor.Prelude.Result.{Result, ok, value_error}
use predictor.Advisor.Odds.{combined_odd, payout_keep}
use predictor.Advisor.Sandbox.Slips.{LegSnapshot, Slip}
use predictor.Advisor.Sandbox.Book.{
  Strategy, Version, Coupon, Leg, Db, stake_after_wins, portfolio_balance, find_version,
  find_strategy, coupon_rows, won_count,
}

-- What a placement raises; the caller's transaction is then rolled back.
pub data Failure : Type 0 where
  no_transaction naive_clock unknown_strategy foreign_version kind_mismatch : Failure
  bad_price duplicate_leg : Failure

pub data Outcome {ℓ} (A : Type ℓ) : Type ℓ where
  done : A → Outcome A
  failed : Failure → Outcome A

infixl 5 ◌>>=◌
abbrev pub ◌>>=◌ {ℓ κ} : {A : Type ℓ} {B : Type κ} → Outcome A → (A → Outcome B) → Outcome B
done a >>= f = f a
failed e >>= f = failed e

-- Inversion of a bind that ended well.
pub >>=-eq-done {ℓ κ} :
    {A : Type ℓ} {B : Type κ} (m : Outcome A) (f : A → Outcome B) {b : B}
    → (m >>= f) ≡ done b
    → (a : A) × (m ≡ done a) × (f a ≡ done b)
>>=-eq-done (done a) f h = (a, refl, h)
>>=-eq-done (failed e) f h = cc

pub done-injective {ℓ} : {A : Type ℓ} {a b : A} → done a ≡ done b → a ≡ b
done-injective h = cc

abbrev pub priced {ℓ} : {A : Type ℓ} → Result A → Outcome A
priced (ok a) = done a
priced value_error = failed bad_price

pub record Ids : Type 0 where
  pub strategy_id : ℕ
  pub strategy_version_id : ℕ
  pub cycle_id : Option ℕ

-- the row of index `uq_advisor_legs_open_sandbox` that a new leg would meet
abbrev pub holds_open : ℕ → ℕ → Leg → Bool
holds_open strategy_id fixture_id leg =
    leg.strategy_id == strategy_id
    && leg.fixture_id == fixture_id
    && is_in leg.status ("open" ∷ "manual" ∷ [])
    && str_eq leg.mode "sandbox"

-- the row of `uq_advisor_legs_coupon_fixture`
abbrev on_coupon : ℕ → ℕ → Leg → Bool
on_coupon coupon_id fixture_id leg = leg.coupon_id == coupon_id && leg.fixture_id == fixture_id

abbrev pub new_leg : Ids → ℕ → LegSnapshot → Leg
new_leg ids coupon_id leg = record {
  coupon_id = coupon_id;
  strategy_id = ids.strategy_id;
  fixture_id = leg.fixture_id;
  mode = "sandbox";
  period = leg.period;
  n = leg.n;
  odd = leg.odd;
  goals_home = leg.goals_home;
  goals_away = leg.goals_away;
  status = "open";
}

-- The legs of a coupon are flushed in order. A second leg on one fixture of the coupon meets the
-- older constraint and is raised; an open leg on another coupon undoes the savepoint, `none`.
unfoldable pub insert_legs : Ids → ℕ → Slip → List Leg → Outcome (Option (List Leg))
insert_legs ids coupon_id [] legs = done (some legs)
insert_legs ids coupon_id (leg ∷ slip) legs =
    let rest = insert_legs ids coupon_id slip (legs ++ new_leg ids coupon_id leg ∷ []) in
    if any (on_coupon coupon_id leg.fixture_id) legs
    then failed duplicate_leg
    else if any (holds_open ids.strategy_id leg.fixture_id) legs
    then done none
    else rest

abbrev pub new_coupon : Ids → ℕ → ℕ → ℕ → Coupon
new_coupon ids id stake odd = record {
  id = id;
  mode = "sandbox";
  strategy_version_id = ids.strategy_version_id;
  cycle_id = ids.cycle_id;
  status = "open";
  stake = stake;
  combined_odd = some odd;
  proposed_combined_odd = some odd;
  payout_keep = payout_keep;
}

abbrev pub commit_slip : Ids → ℕ → ℕ → Db → Option (List Leg) → Option ℕ × Db
commit_slip ids stake odd db none = (none, record db { next_coupon = db.next_coupon + 1 })
commit_slip ids stake odd db (some legs) = (
  some db.next_coupon,
  record db {
    coupons = db.coupons ++ new_coupon ids db.next_coupon stake odd ∷ [];
    legs = legs;
    next_coupon = db.next_coupon + 1;
  },
)

-- `_insert_slip`
unfoldable pub insert_slip : Ids → ℕ → Slip → Db → Outcome (Option ℕ × Db)
unfolding insert_legs combined_odd
insert_slip ids stake slip db = do
  odd ← priced (combined_odd (map (λ leg. leg.odd) slip))
  legs ← insert_legs ids db.next_coupon slip db.legs
  done (commit_slip ids stake odd db legs)

pub record Progress : Type 0 where
  pub placed : List ℕ
  pub balance : ℤ
  pub db : Db

abbrev pub advance : Progress → ℕ → Option ℕ × Db → Progress
advance p stake (none, db) = record p { db = db }
advance p stake (some id, db) = record {
  placed = p.placed ++ id ∷ [];
  balance = p.balance -ℤ pos stake;
  db = db;
}

-- the loop of `place_sandbox_coupons`, with its `break` and its `continue`
unfoldable pub place_slips : Ids → ℕ → List Slip → Progress → Outcome Progress
place_slips ids stake [] p = done p
place_slips ids stake (slip ∷ slips) p =
    let rest = (do
      r ← insert_slip ids stake slip p.db
      place_slips ids stake slips (advance p stake r)) in
    if ltb_ℤ p.balance (pos stake) then done p else rest

unfoldable pub set_status : ℕ → String → List Strategy → List Strategy
set_status k status [] = []
set_status k status (strategy ∷ strategies) =
    (if strategy.id == k then record strategy { status = status } else strategy)
    ∷ set_status k status strategies

pub record Placement : Type 0 where
  pub coupon_ids : List ℕ
  pub paused : Bool

-- after the loop: a book that does not cover the next stake is paused
abbrev pub finish : ℕ → ℕ → Progress → Placement × Db
finish strategy_id stake p =
    if ltb_ℤ p.balance (pos stake)
    then (
      record { coupon_ids = p.placed; paused = true },
      record p.db { strategies = set_status strategy_id "paused" p.db.strategies },
    )
    else (record { coupon_ids = p.placed; paused = false }, p.db)

-- the part behind the checks on the strategy and its version
unfoldable pub place_active : Ids → List Slip → Db → Outcome (Placement × Db)
unfolding place_slips set_status
place_active ids slips db = do
  balance ← priced (portfolio_balance (coupon_rows db.versions ids.strategy_id db.coupons))
  let stake = stake_after_wins (won_count db.versions ids.strategy_id db.coupons)
  p ← place_slips ids stake slips (record { placed = []; balance = balance; db = db })
  done (finish ids.strategy_id stake p)

abbrev pub none_placed : Bool → Db → Outcome (Placement × Db)
none_placed paused db = done (record { coupon_ids = []; paused = paused }, db)

-- `if not slips: return`
abbrev pub place_some : Ids → List Slip → Db → Outcome (Placement × Db)
place_some ids [] db = none_placed false db
place_some ids (slip ∷ slips) db = place_active ids (slip ∷ slips) db

unfoldable pub place_for :
    Ids → List Slip → String → Db → Strategy → Version → Outcome (Placement × Db)
unfolding place_active
place_for ids slips kind db strategy version =
    if not (version.strategy_id == strategy.id)
    then failed foreign_version
    else if not (str_eq strategy.kind kind)
    then failed kind_mismatch
    else if not (is_in strategy.status ("sandbox" ∷ "promoted" ∷ []))
    then none_placed (str_eq strategy.status "paused") db
    else place_some ids slips db

abbrev pub is_naive : DateTime → Bool
is_naive (naive _) = true
is_naive (aware _) = false

unfoldable pub place_sandbox_coupons :
    Bool → Ids → List Slip → DateTime → String → Db → Outcome (Placement × Db)
unfolding place_for find_strategy find_version
place_sandbox_coupons in_transaction ids slips placed_at kind db =
    if not in_transaction
    then failed no_transaction
    else if is_naive placed_at
    then failed naive_clock
    else elim (find_strategy db.strategies ids.strategy_id) [
      | none ↦ failed unknown_strategy
      | some strategy ↦ elim (find_version db.versions ids.strategy_version_id) [
        | none ↦ failed foreign_version
        | some version ↦ place_for ids slips kind db strategy version
      ]
    ]

-- ===== src/Advisor/Coupons/Rows.antt =====
-- The rows of coupons, legs, fixtures and events, as the columns' checks in models/advisor.py allow
-- them. Money is in hundredths, an odd in thousandths, an instant in microseconds in UTC.
use predictor.Prelude.{
  ℕ, String, Bool, true, false, Option, none, some, List, [], ◌∷◌, keep, ◌==◌, if◌then◌else◌,
}
use predictor.Advisor.Domain.{Period}

pub data Mode : Type 0 where
  sandbox recommendation : Mode

-- `advisor_coupons_status_check`
pub data CouponStatus : Type 0 where
  open_coupon proposed accepted modified rejected expired placed not_placed won lost void :
      CouponStatus

-- `advisor_legs_status_check`
pub data LegStatus : Type 0 where
  open_leg won lost void removed manual : LegStatus

pub record Coupon : Type 0 where
  pub id : ℕ
  pub mode : Mode
  pub strategy_version_id : ℕ
  pub status : CouponStatus
  pub stake : ℕ
  pub proposed_stake : Option ℕ
  pub combined_odd : Option ℕ
  pub created_at : ℕ
  pub placed_at : Option ℕ

pub record Leg : Type 0 where
  pub id : ℕ
  pub coupon_id : ℕ
  pub fixture_id : ℕ
  pub period : Period
  pub n : ℕ
  pub odd : ℕ
  pub goals_home : ℕ
  pub goals_away : ℕ
  pub status : LegStatus

-- `status_short` is "" where the column is NULL
pub record Fixture : Type 0 where
  pub id : ℕ
  pub status_short : String
  pub date : Option ℕ
  pub goals_home : Option ℕ
  pub goals_away : Option ℕ
  pub goals_home_fulltime : Option ℕ
  pub goals_away_fulltime : Option ℕ
  pub goals_home_extratime : Option ℕ
  pub goals_away_extratime : Option ℕ

-- `AdvisorCouponEvent`; the text "none" as the previous status is `none`
pub record CouponEvent : Type 0 where
  pub coupon_id : ℕ
  pub previous_status : Option CouponStatus
  pub new_status : CouponStatus
  pub source : String
  pub note : String

-- `AdvisorSettlementEvent`: of a leg, or with no leg of the coupon
pub data SettlementEvent : Type 0 where
  of_leg : ℕ → ℕ → LegStatus → LegStatus → String → SettlementEvent
  of_coupon : ℕ → CouponStatus → CouponStatus → String → SettlementEvent

pub record Version : Type 0 where
  pub id : ℕ
  pub min_combined_odd : ℕ

-- The tables. Events stand with the newest first.
pub record Ledger : Type 0 where
  pub coupons : List Coupon
  pub legs : List Leg
  pub fixtures : List Fixture
  pub versions : List Version
  pub events : List CouponEvent
  pub settlements : List SettlementEvent

unfoldable pub find_coupon : ℕ → List Coupon → Option Coupon
find_coupon k [] = none
find_coupon k (coupon ∷ coupons) =
    let rest = find_coupon k coupons in if coupon.id == k then some coupon else rest

unfoldable pub find_fixture : ℕ → List Fixture → Option Fixture
find_fixture k [] = none
find_fixture k (fixture ∷ fixtures) =
    let rest = find_fixture k fixtures in if fixture.id == k then some fixture else rest

-- a write to the row of a coupon
unfoldable pub update_coupon : ℕ → (Coupon → Coupon) → List Coupon → List Coupon
update_coupon k f [] = []
update_coupon k f (coupon ∷ coupons) =
    let rest = update_coupon k f coupons in
    if coupon.id == k then f coupon ∷ rest else coupon ∷ rest

-- `_legs`
abbrev pub legs_of : ℕ → List Leg → List Leg
legs_of k legs = keep (λ leg. leg.coupon_id == k) legs

-- a write to the legs of a coupon
unfoldable pub update_legs : ℕ → (Leg → Leg) → List Leg → List Leg
update_legs k f [] = []
update_legs k f (leg ∷ legs) =
    let rest = update_legs k f legs in if leg.coupon_id == k then f leg ∷ rest else leg ∷ rest

abbrev pub with_status : CouponStatus → Coupon → Coupon
with_status status c = record c { status = status }

abbrev pub leg_with : LegStatus → ℕ → Leg → Leg
leg_with status odd leg = record leg { odd = odd; status = status }

-- `status in _LIVE` and `status in _CONFIRM`
abbrev pub is_live : CouponStatus → Bool
is_live proposed = true
is_live accepted = true
is_live modified = true
is_live _ = false

abbrev pub is_confirmable : CouponStatus → Bool
is_confirmable accepted = true
is_confirmable modified = true
is_confirmable _ = false

abbrev pub is_removed : LegStatus → Bool
is_removed removed = true
is_removed _ = false

abbrev pub is_open_leg : LegStatus → Bool
is_open_leg open_leg = true
is_open_leg _ = false

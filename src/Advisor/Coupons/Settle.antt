-- ===== src/Advisor/Coupons/Settle.antt =====
-- `settle_finished` and what it calls in services/advisor/settle.py, and `manual_settle` of
-- services/advisor/recommend_ops.py. The fixtures whose detail has been refreshed are a test on ids.
use predictor.Prelude.{
  ℕ, ◌+◌, ◌*◌, String, Bool, true, false, not, ◌&&◌, ◌||◌, Option, none, some, List, [], ◌∷◌, ◌++◌,
  map, any, leb, is_in, is_none, str_eq, ◌==◌, if◌then◌else◌,
}
use predictor.Prelude.Time.{second}
use predictor.Prelude.Result.{Result, ok, ◌>>=◌}
use predictor.Queue.Task.{Task}
use predictor.Advisor.Domain.{Settlement, FinalScore, finished_fixture_statuses}
use predictor.Advisor.Settle.{settle_leg, settle_coupon}
use predictor.Advisor.Odds.{active_combined_odd}
use predictor.Advisor.Coupons.Rows.{
  CouponStatus, LegStatus, Coupon, Leg, Fixture, SettlementEvent, of_leg, of_coupon, Ledger,
  find_coupon, find_fixture, update_coupon, legs_of, leg_with,
}
use predictor.Advisor.Coupons.Actions.{
  outcome_code, not_manual, Acted, done, action_error, same_status,
}

-- `CONTROL_REFRESH_HOURS`
abbrev pub control_refresh : ℕ
control_refresh = 24 * 3600 * second

-- `now - kick >= ...`, for a kickoff that may lie ahead
abbrev waiting : Option ℕ → ℕ → Bool
waiting none now = false
waiting (some kick) now = leb (kick + control_refresh) now

-- `_final_score`
unfoldable pub final_score : Fixture → (ℕ → Bool) → ℕ → FinalScore
final_score fixture refreshed now = record {
  status_short = fixture.status_short;
  fulltime_home = fixture.goals_home_fulltime;
  fulltime_away = fixture.goals_away_fulltime;
  extratime_home = fixture.goals_home_extratime;
  extratime_away = fixture.goals_away_extratime;
  final_refreshed = refreshed fixture.id;
  awaiting_manual =
      not (is_in fixture.status_short finished_fixture_statuses) && waiting fixture.date now;
}

abbrev inside : Option ℕ → ℕ → Bool
inside none now = true
inside (some kick) now = leb now (kick + control_refresh)

-- `_inside_correction_window`
unfoldable pub inside_correction_window : Fixture → ℕ → Bool
inside_correction_window fixture now = inside fixture.date now

-- `_TERMINAL.get`
abbrev pub terminal : Settlement → Option LegStatus
terminal Settlement.won = some LegStatus.won
terminal Settlement.lost = some LegStatus.lost
terminal Settlement.void = some LegStatus.void
terminal Settlement.manual = some LegStatus.manual
terminal Settlement.pending = none

abbrev pub leg_number : LegStatus → ℕ
leg_number LegStatus.open_leg = 0
leg_number LegStatus.won = 1
leg_number LegStatus.lost = 2
leg_number LegStatus.void = 3
leg_number LegStatus.removed = 4
leg_number LegStatus.manual = 5

abbrev pub same_leg_status : LegStatus → LegStatus → Bool
same_leg_status a b = leg_number a == leg_number b

abbrev pub is_open_status : LegStatus → Bool
is_open_status status = same_leg_status status LegStatus.open_leg

abbrev pub changed_name : Leg → Bool → Option LegStatus → Option LegStatus
changed_name leg window none = none
changed_name leg window (some name) =
    if same_leg_status name leg.status
    then none
    else if not (is_open_status leg.status) && not window
    then none
    else some name

-- the new status of a leg of the join, if it changes
abbrev pub new_status : (ℕ → Bool) → ℕ → Leg → Fixture → Option LegStatus
new_status refreshed now leg fixture =
    changed_name leg (inside_correction_window fixture now)
      (terminal (settle_leg leg.period leg.n (final_score fixture refreshed now)))

-- `AdvisorCoupon.status.in_(_COUPON)`
abbrev pub is_played : CouponStatus → Bool
is_played CouponStatus.open_coupon = true
is_played CouponStatus.placed = true
is_played CouponStatus.won = true
is_played CouponStatus.lost = true
is_played CouponStatus.void = true
is_played _ = false

abbrev pub played : Option Coupon → Bool
played none = false
played (some coupon) = is_played coupon.status

abbrev pub in_join : Bool → LegStatus → Bool
in_join coupon_played status = coupon_played && not (same_leg_status status LegStatus.removed)

abbrev pub joined : (ℕ → Bool) → ℕ → Leg → Bool → Option Fixture → Option LegStatus
joined refreshed now leg _ none = none
joined refreshed now leg coupon_played (some fixture) =
    if in_join coupon_played leg.status then new_status refreshed now leg fixture else none

-- the join and the loop's tests on one leg
unfoldable pub leg_change : (ℕ → Bool) → ℕ → List Fixture → List Coupon → Leg → Option LegStatus
leg_change refreshed now fixtures coupons leg =
    joined refreshed now leg (played (find_coupon leg.coupon_id coupons))
      (find_fixture leg.fixture_id fixtures)

abbrev source_of : Bool → String
source_of first = if first then "settle" else "correction"

-- the legs, their events and the coupons touched
pub record Pass : Type 0 where
  pub legs : List Leg
  pub settlements : List SettlementEvent
  pub touched : List ℕ

-- a coupon stands in the set of the touched ones once
abbrev touch : ℕ → List ℕ → List ℕ
touch k ks = if any (λ j. j == k) ks then ks else k ∷ ks

abbrev pub change_to : Leg → Option LegStatus → Pass → Pass
change_to leg none pass = record pass { legs = leg ∷ pass.legs }
change_to leg (some name) pass = record {
  legs = leg_with name leg.odd leg ∷ pass.legs;
  settlements =
      of_leg leg.coupon_id leg.id leg.status name (source_of (is_open_status leg.status))
      ∷ pass.settlements;
  touched = touch leg.coupon_id pass.touched;
}

-- the loop of `settle_finished`; the events of one run are in the order of the legs
unfoldable pub settle_legs : (Leg → Option LegStatus) → List Leg → Pass
settle_legs change [] = record { legs = []; settlements = []; touched = [] }
settle_legs change (leg ∷ legs) = change_to leg (change leg) (settle_legs change legs)

-- `_as_settlement`
abbrev pub as_settlement : LegStatus → Settlement
as_settlement LegStatus.won = Settlement.won
as_settlement LegStatus.lost = Settlement.lost
as_settlement LegStatus.void = Settlement.void
as_settlement LegStatus.removed = Settlement.void
as_settlement LegStatus.manual = Settlement.manual
as_settlement LegStatus.open_leg = Settlement.pending

abbrev pub outcomes : List Leg → List Settlement
outcomes legs = map (λ leg. as_settlement leg.status) legs

-- a result that is written to the coupon
abbrev pub coupon_result : Settlement → Option CouponStatus
coupon_result Settlement.won = some CouponStatus.won
coupon_result Settlement.lost = some CouponStatus.lost
coupon_result Settlement.void = some CouponStatus.void
coupon_result _ = none

abbrev or_combined : Option ℕ → Option ℕ → Option ℕ
or_combined none old = old
or_combined (some odd) old = some odd

-- the odd of the coupon afterwards: of a won coupon, the product of what was played
abbrev pub new_odd : Settlement → Coupon → List Leg → Result (Option ℕ)
new_odd Settlement.won coupon legs = do
  active ← active_combined_odd (map (λ leg. (leg.odd, as_settlement leg.status)) legs)
  ok (or_combined active coupon.combined_odd)
new_odd _ coupon legs = ok coupon.combined_odd

abbrev pub same_odd : Option ℕ → Option ℕ → Bool
same_odd none none = true
same_odd (some a) (some b) = a == b
same_odd _ _ = false

-- `coupon.status in _FIRST_SETTLE`
abbrev is_first : CouponStatus → Bool
is_first CouponStatus.open_coupon = true
is_first CouponStatus.placed = true
is_first _ = false

abbrev pub write_result : Coupon → CouponStatus → Option ℕ → Ledger → Ledger × Bool
write_result coupon status odd l =
    if same_status coupon.status status && same_odd coupon.combined_odd odd then (l, false) else (
      record l {
        coupons =
            update_coupon coupon.id (λ c. record c { status = status; combined_odd = odd })
              l.coupons;
        settlements =
            of_coupon coupon.id coupon.status status (source_of (is_first coupon.status))
            ∷ l.settlements;
      },
      true,
    )

abbrev pub settle_row : Coupon → Settlement → Option CouponStatus → Ledger → Result (Ledger × Bool)
settle_row coupon result none l = ok (l, false)
settle_row coupon result (some status) l = do
  odd ← new_odd result coupon (legs_of coupon.id l.legs)
  ok (write_result coupon status odd l)

abbrev pub refresh_found : Option Coupon → Ledger → Result (Ledger × Bool)
refresh_found none l = ok (l, false)
refresh_found (some coupon) l = do
  result ← settle_coupon (outcomes (legs_of coupon.id l.legs))
  settle_row coupon result (coupon_result result) l

-- `_refresh_coupon`
unfoldable pub refresh_coupon : ℕ → Ledger → Result (Ledger × Bool)
refresh_coupon k l = refresh_found (find_coupon k l.coupons) l

abbrev pub count : ℕ → Bool → ℕ
count n changed = if changed then n + 1 else n

-- the loop over the coupons touched
unfoldable pub refresh_all : List ℕ → Ledger → ℕ → Result (Ledger × ℕ)
refresh_all [] l changed = ok (l, changed)
refresh_all (k ∷ ks) l changed = do
  (next, one) ← refresh_coupon k l
  refresh_all ks next (count changed one)

abbrev pub with_pass : Pass → Ledger → Ledger
with_pass pass l = record l { legs = pass.legs; settlements = pass.settlements ++ l.settlements }

abbrev is_fixture : Option ℕ → ℕ → Bool
is_fixture none k = false
is_fixture (some j) k = j == k

-- `_refreshed`, of one fixture
unfoldable pub refreshed_by : List Task → ℕ → Bool
refreshed_by [] k = false
refreshed_by (task ∷ tasks) k =
    let rest = refreshed_by tasks k in
    str_eq task.endpoint "/fixtures"
      && is_fixture task.fixture_id k
      && is_none task.cursor_kind
      && is_in task.status ("complete" ∷ "coverage_empty" ∷ [])
    || rest

-- `settle_finished`, without the counterfactuals: the tables and the number of coupons changed
unfoldable pub settle_finished : List Task → ℕ → Ledger → Result (Ledger × ℕ)
settle_finished tasks now l =
    let pass = settle_legs (leg_change (refreshed_by tasks) now l.fixtures l.coupons) l.legs in
    refresh_all pass.touched (with_pass pass l) 0

-- `manual_settle`; the outcome is one of the three names, and anything else is the error `outcome`
abbrev pub manual_name : LegStatus → Bool
manual_name LegStatus.won = true
manual_name LegStatus.lost = true
manual_name LegStatus.void = true
manual_name _ = false

unfoldable pub find_leg : ℕ → List Leg → Option Leg
find_leg k [] = none
find_leg k (leg ∷ legs) = let rest = find_leg k legs in if leg.id == k then some leg else rest

unfoldable pub update_leg : ℕ → LegStatus → List Leg → List Leg
update_leg k status [] = []
update_leg k status (leg ∷ legs) =
    let rest = update_leg k status legs in
    if leg.id == k then leg_with status leg.odd leg ∷ rest else leg ∷ rest

abbrev pub manual_found : LegStatus → Option Leg → Ledger → Acted Unit
manual_found outcome none l = action_error not_manual false l
manual_found outcome (some leg) l =
    if not (same_leg_status leg.status LegStatus.manual)
    then action_error not_manual false l
    else done tt (record l {
      legs = update_leg leg.id outcome l.legs;
      settlements = of_leg leg.coupon_id leg.id leg.status outcome "manual" ∷ l.settlements;
    })

unfoldable pub manual_settle : ℕ → LegStatus → Ledger → Acted Unit
manual_settle k outcome l =
    if not (manual_name outcome)
    then action_error outcome_code false l
    else manual_found outcome (find_leg k l.legs) l

-- ===== src/Advisor/Coupons/Actions.antt =====
-- The actions on recommendation coupons in services/advisor/recommend_ops.py, and the handler `_act`
-- of api/advisor_http.py, which runs one in a transaction.
use predictor.Prelude.{
  ℕ, ◌+◌, ◌*◌, String, Bool, true, false, not, ◌&&◌, ◌||◌, Option, none, some, List, [], ◌∷◌, keep,
  any, leb, ◌==◌, if◌then◌else◌,
}
use predictor.Prelude.Time.{second}
use predictor.Advisor.Domain.{Period, regulation, extra_time, period_for}
use predictor.Advisor.Coupons.Rows.{
  Mode, CouponStatus, LegStatus, Coupon, Leg, Fixture, Ledger, find_coupon, find_fixture,
  update_coupon, update_legs, legs_of, with_status, leg_with, is_live, is_confirmable, is_removed,
  is_open_leg,
}

-- the code of an `ActionError`; `bad_price` is the ValueError of a price
pub data Code : Type 0 where
  missing not_recommendation expired_code not_proposed closed not_confirmable : Code
  stake_code odd_code empty outcome_code not_manual bad_price : Code

-- What an action returns or raises, and the tables as it leaves them. The truth value of an error is
-- its `commit`.
pub data Acted (A : Type 0) : Type 0 where
  done : A → Ledger → Acted A
  action_error : Code → Bool → Ledger → Acted A

infixl 5 ◌>>=◌
abbrev pub ◌>>=◌ : {A B : Type 0} → Acted A → (A → Ledger → Acted B) → Acted B
done a l >>= next = next a l
action_error code commit l >>= next = action_error code commit l

-- `_act`: the tables after the transaction, and the code that the caller is told
abbrev pub outcome : {A : Type 0} → Ledger → Acted A → Ledger × Option Code
outcome before (done a after) = (after, none)
outcome before (action_error code true after) = (after, some code)
outcome before (action_error code false after) = (before, some code)

abbrev pub act : {A : Type 0} → Ledger → (Ledger → Acted A) → Ledger × Option Code
act before call = outcome before (call before)

abbrev pub number : CouponStatus → ℕ
number CouponStatus.open_coupon = 0
number CouponStatus.proposed = 1
number CouponStatus.accepted = 2
number CouponStatus.modified = 3
number CouponStatus.rejected = 4
number CouponStatus.expired = 5
number CouponStatus.placed = 6
number CouponStatus.not_placed = 7
number CouponStatus.won = 8
number CouponStatus.lost = 9
number CouponStatus.void = 10

abbrev pub same_status : CouponStatus → CouponStatus → Bool
same_status a b = number a == number b

abbrev pub is_recommendation : Mode → Bool
is_recommendation Mode.recommendation = true
is_recommendation Mode.sandbox = false

-- `_move`
unfoldable pub move : Coupon → CouponStatus → String → String → Ledger → Ledger
move coupon status source note l =
    if same_status coupon.status status && not (same_status status CouponStatus.proposed)
    then l
    else record l {
      coupons = update_coupon coupon.id (with_status status) l.coupons;
      events =
          record {
            coupon_id = coupon.id;
            previous_status = some coupon.status;
            new_status = status;
            source = source;
            note = note;
          }
          ∷ l.events;
    }

abbrev pub release : Leg → Leg
release leg = if is_open_leg leg.status then leg_with LegStatus.removed leg.odd leg else leg

-- `_release_legs`
unfoldable pub release_legs : ℕ → Ledger → Ledger
release_legs k l = record l { legs = update_legs k release l.legs }

-- `_expire_locked`
abbrev pub expire_locked : Coupon → String → String → Ledger → Ledger
expire_locked coupon source note l =
    move coupon CouponStatus.expired source note (release_legs coupon.id l)

abbrev pub or_missing : Ledger → Option Coupon → Acted Coupon
or_missing l none = action_error missing false l
or_missing l (some coupon) = done coupon l

-- `_lock`
unfoldable pub lock : ℕ → Ledger → Acted Coupon
lock k l = or_missing l (find_coupon k l.coupons)

-- `now - coupon.created_at >= timedelta(seconds=ttl_seconds)`
abbrev pub is_old : Coupon → ℕ → ℕ → Bool
is_old coupon now ttl_seconds = leb (coupon.created_at + ttl_seconds * second) now

unfoldable pub live_coupon : Coupon → ℕ → ℕ → Ledger → Acted Coupon
live_coupon coupon now ttl_seconds l =
    if not (is_recommendation coupon.mode)
    then action_error not_recommendation false l
    else if same_status coupon.status CouponStatus.expired
    then action_error expired_code false l
    else if is_old coupon now ttl_seconds
    then action_error expired_code true
        (if is_live coupon.status then expire_locked coupon "expire" "ttl" l else l)
    else done coupon l

-- `_live`
abbrev pub live : ℕ → ℕ → ℕ → Ledger → Acted Coupon
live k now ttl_seconds l = lock k l >>= λ coupon. live_coupon coupon now ttl_seconds

abbrev pub accept_live : Coupon → Ledger → Acted Unit
accept_live coupon l =
    if not (same_status coupon.status CouponStatus.proposed)
    then action_error not_proposed false l
    else done tt (move coupon CouponStatus.accepted "operator" "" l)

unfoldable pub accept_coupon : ℕ → ℕ → ℕ → Ledger → Acted Unit
accept_coupon k now ttl_seconds l = live k now ttl_seconds l >>= accept_live

abbrev pub reject_live : String → Coupon → Ledger → Acted Unit
reject_live note coupon l =
    if not (is_live coupon.status)
    then action_error closed false l
    else done tt (move coupon CouponStatus.rejected "operator" note (release_legs coupon.id l))

-- the note is stripped already
unfoldable pub reject_coupon : ℕ → ℕ → String → ℕ → Ledger → Acted Unit
reject_coupon k now note ttl_seconds l = live k now ttl_seconds l >>= reject_live note

abbrev pub not_placed_locked : Coupon → Ledger → Acted Unit
not_placed_locked coupon l =
    if not (is_recommendation coupon.mode) || not (is_confirmable coupon.status)
    then action_error not_confirmable false l
    else done tt (move coupon CouponStatus.not_placed "operator" "" (release_legs coupon.id l))

unfoldable pub mark_not_placed : ℕ → Ledger → Acted Unit
mark_not_placed k l = lock k l >>= not_placed_locked

abbrev pub same_period : Period → Period → Bool
same_period regulation regulation = true
same_period extra_time extra_time = true
same_period _ _ = false

abbrev pub goals_changed : Leg → Option ℕ → Option ℕ → Bool
goals_changed leg (some home) (some away) =
    not (home == leg.goals_home) || not (away == leg.goals_away)
goals_changed leg _ _ = true

abbrev pub period_changed : Leg → Option Period → Bool
period_changed leg none = true
period_changed leg (some period) = not (same_period period leg.period)

abbrev pub leg_changed : Leg → Option Fixture → Bool
leg_changed leg none = true
leg_changed leg (some fixture) =
    period_changed leg (period_for fixture.status_short)
    || goals_changed leg fixture.goals_home fixture.goals_away

-- `_score_changed`; every branch that is taken returns True, so their order does not matter
unfoldable pub score_changed : List Leg → List Fixture → Bool
score_changed legs fixtures =
    any (λ leg. leg_changed leg (find_fixture leg.fixture_id fixtures)) legs

abbrev pub kept_legs : ℕ → List Leg → List Leg
kept_legs k legs = keep (λ leg. not (is_removed leg.status)) (legs_of k legs)

abbrev pub at_place : ℕ → Coupon → Coupon
at_place now c = record c { placed_at = some now }

abbrev pub write_coupon : ℕ → (Coupon → Coupon) → Ledger → Ledger
write_coupon k f l = record l { coupons = update_coupon k f l.coupons }

abbrev pub place_locked : ℕ → ℕ → Coupon → Ledger → Acted Unit
place_locked now ttl_seconds coupon l =
    if not (is_recommendation coupon.mode)
    then action_error not_recommendation false l
    else if same_status coupon.status CouponStatus.expired
    then action_error expired_code false l
    else if not (is_confirmable coupon.status)
    then action_error not_confirmable false l
    else if is_old coupon now ttl_seconds
    then action_error expired_code true (expire_locked coupon "expire" "ttl" l)
    else if score_changed (kept_legs coupon.id l.legs) l.fixtures
    then action_error expired_code true (expire_locked coupon "expire" "score" l)
    else done tt
        (move coupon CouponStatus.placed "operator" "" (write_coupon coupon.id (at_place now) l))

unfoldable pub place_coupon : ℕ → ℕ → ℕ → Ledger → Acted Unit
place_coupon k now ttl_seconds l = lock k l >>= place_locked now ttl_seconds

-- one turn of the loop of `expire_due`
abbrev pub expire_one : ℕ → ℕ → Coupon → Ledger → Ledger × ℕ
expire_one now ttl_seconds coupon l =
    if is_old coupon now ttl_seconds || score_changed (kept_legs coupon.id l.legs) l.fixtures
    then (expire_locked coupon "expire" "" l, 1)
    else (l, 0)

abbrev pub is_due_row : Coupon → Bool
is_due_row coupon = is_recommendation coupon.mode && is_live coupon.status

-- The objects of the session are the rows. The test of the select on the mode, which no write changes,
-- is made here again, with the loop's own on the status.
abbrev pub expire_found : ℕ → ℕ → Option Coupon → Ledger → Ledger × ℕ
expire_found now ttl_seconds none l = (l, 0)
expire_found now ttl_seconds (some coupon) l =
    if is_due_row coupon then expire_one now ttl_seconds coupon l else (l, 0)

unfoldable pub expire_rows : ℕ → ℕ → List Coupon → Ledger → Ledger × ℕ
expire_rows now ttl_seconds [] l = (l, 0)
expire_rows now ttl_seconds (row ∷ rows) l =
    let (next, one) = expire_found now ttl_seconds (find_coupon row.id l.coupons) l in
    let (last, expired) = expire_rows now ttl_seconds rows next in (last, one + expired)

-- `expire_due`: the tables, and the number of coupons expired
abbrev pub expire_due : ℕ → ℕ → Ledger → Ledger × ℕ
expire_due now ttl_seconds l = expire_rows now ttl_seconds (keep is_due_row l.coupons) l

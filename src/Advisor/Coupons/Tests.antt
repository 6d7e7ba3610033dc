-- ===== src/Advisor/Coupons/Tests.antt =====
-- A recommendation of one leg, from the proposal to the result.
use predictor.Prelude.{
  ◌*◌, ◌≡◌, refl, subst, true, false, none, some, List, [], ◌∷◌, Bool-cases, inl, inr, ◌==◌,
}
use predictor.Prelude.Time.{second}
use predictor.Prelude.Result.{ok}
use predictor.Queue.Task.{Task}
use predictor.Advisor.Domain.{regulation, period_for, Settlement}
use predictor.Advisor.Settle.{settle_leg, settle_coupon}
use predictor.Advisor.Odds.{active_combined_odd}
use predictor.Advisor.Coupons.Rows.{
  Mode, CouponStatus, LegStatus, Coupon, Leg, Fixture, Ledger, of_leg, of_coupon, find_coupon,
  find_fixture, update_coupon, with_status, leg_with,
}
use predictor.Advisor.Coupons.Actions.{
  done, move, lock, score_changed, at_place, place_coupon, accept_coupon, live_coupon, expire_rows,
}
use predictor.Advisor.Coupons.MoveLaws.{Agrees, IsSound, proposing, is_dead}
use predictor.Advisor.Coupons.PlaceLaws.{IsPlaceable, place_coupon-IsPlaceable}
use predictor.Advisor.Coupons.Run.{Action, accept, place, expire, run, run_all}
use predictor.Advisor.Coupons.RunLaws.{run_all-IsSound}
use predictor.Advisor.Coupons.Settle.{
  played, final_score, inside_correction_window, leg_change, settle_legs, refreshed_by,
  refresh_coupon, refresh_all, settle_finished, manual_settle, find_leg, update_leg,
}
use predictor.Advisor.Coupons.ManualLaws.{settle_finished-undoes}
use predictor.Advisor.Coupons.AgainLaws.{settle_finished_idem}

abbrev coupon : Coupon
coupon = record {
  id = 1;
  mode = Mode.recommendation;
  strategy_version_id = 4;
  status = CouponStatus.proposed;
  stake = 2000;
  proposed_stake = some 2000;
  combined_odd = some 1650;
  created_at = 100 * second;
  placed_at = none;
}

abbrev leg : Leg
leg = record {
  id = 7;
  coupon_id = 1;
  fixture_id = 9;
  period = regulation;
  n = 1;
  odd = 1650;
  goals_home = 1;
  goals_away = 0;
  status = LegStatus.open_leg;
}

-- in the second half, at 1-0
abbrev match : Fixture
match = record {
  id = 9;
  status_short = "2H";
  date = some 0;
  goals_home = some 1;
  goals_away = some 0;
  goals_home_fulltime = none;
  goals_away_fulltime = none;
  goals_home_extratime = none;
  goals_away_extratime = none;
}

abbrev tables : Ledger
tables = record {
  coupons = coupon ∷ [];
  legs = leg ∷ [];
  fixtures = match ∷ [];
  versions = [];
  events =
      record {
        coupon_id = 1;
        previous_status = none;
        new_status = CouponStatus.proposed;
        source = "operator";
        note = "";
      }
      ∷ [];
  settlements = [];
}

tables-IsSound : IsSound tables
unfolding find_coupon
tables-IsSound = record {
  kept = λ k. elim (Bool-cases (1 == k)) [
    | inl e ↦ rw e (record {
      logged = λ c found r.
          let same : coupon ≡ c = cc in
          subst (λ d. Agrees (some CouponStatus.proposed) d.status) same (inl refl);
      released = λ c found dead.
          let same : coupon ≡ c = cc in
          let alive = subst (λ d. is_dead d.status ≡ false) same refl in cc;
    })
    | inr e ↦ rw e (record { logged = λ c found r. cc; released = λ c found dead. cc })
  ];
  chain = (refl, proposing, tt);
}

-- accepted, placed, and the clock
abbrev steps : List Action
steps = accept 1 (110 * second) 180 ∷ place 1 (120 * second) 180 ∷ expire (900 * second) 180 ∷ []

run_all-IsSound_example : IsSound (run_all steps tables)
run_all-IsSound_example = run_all-IsSound steps tables tables-IsSound

placed_row :
    find_coupon 1 (run_all steps tables).coupons
    ≡ some (record coupon { status = CouponStatus.placed; placed_at = some (120 * second) })
unfolding run find_coupon expire_rows place_coupon lock accept_coupon live_coupon move update_coupon
    score_changed find_fixture period_for
placed_row = refl

abbrev confirmed : Ledger
confirmed = record tables { coupons = record coupon { status = CouponStatus.accepted } ∷ [] }

abbrev placed_tables : Ledger
placed_tables = record confirmed {
  coupons = record coupon { status = CouponStatus.placed; placed_at = some (120 * second) } ∷ [];
  events =
      record {
        coupon_id = 1;
        previous_status = some CouponStatus.accepted;
        new_status = CouponStatus.placed;
        source = "operator";
        note = "";
      }
      ∷ tables.events;
}

placed_now : place_coupon 1 (120 * second) 180 confirmed ≡ done tt placed_tables
unfolding place_coupon lock find_coupon score_changed find_fixture period_for move update_coupon
placed_now = refl

place_coupon-IsPlaceable_example :
    (c : Coupon) × (find_coupon 1 confirmed.coupons ≡ some c)
    × IsPlaceable (120 * second) 180 confirmed c
    × (find_coupon 1 placed_tables.coupons
        ≡ some (with_status CouponStatus.placed (at_place (120 * second) c)))
place_coupon-IsPlaceable_example =
    place_coupon-IsPlaceable 1 (120 * second) 180 confirmed placed_tables placed_now

-- the match has ended 2-0, and its detail has been refreshed
abbrev ended : Fixture
ended = record match {
  status_short = "FT";
  goals_home_fulltime = some 2;
  goals_away_fulltime = some 0;
}

abbrev refreshed_task : Task
refreshed_task = record {
  id = 3;
  endpoint = "/fixtures";
  params = record {
    empty_attempts = none;
    error_retries = none;
    next_attempt_at = none;
    others = [];
  };
  cursor_kind = none;
  fixture_id = some 9;
  day_utc = none;
  status = "complete";
  attempt_count = 1;
  last_error = none;
  paging_current = none;
  paging_total = none;
  started_at = none;
  updated_at = none;
  completed_at = none;
}

abbrev before_result : Ledger
before_result = record placed_tables { fixtures = ended ∷ [] }

abbrev after_result : Ledger
after_result = record before_result {
  coupons = record coupon { status = CouponStatus.won; placed_at = some (120 * second) } ∷ [];
  legs = record leg { status = LegStatus.won } ∷ [];
  settlements =
      of_coupon 1 CouponStatus.placed CouponStatus.won "settle"
      ∷ of_leg 1 7 LegStatus.open_leg LegStatus.won "settle"
      ∷ [];
}

settled_now :
    settle_finished (refreshed_task ∷ []) (7200 * second) before_result ≡ ok (after_result, 1)
unfolding settle_finished refresh_all settle_legs leg_change find_fixture find_coupon settle_leg
    final_score refreshed_by refresh_coupon settle_coupon active_combined_odd update_coupon
settled_now = refl

settle_finished_idem_example :
    settle_finished (refreshed_task ∷ []) (7200 * second) after_result ≡ ok (after_result, 0)
settle_finished_idem_example =
    settle_finished_idem (refreshed_task ∷ []) (7200 * second) before_result after_result 1
      settled_now

-- a match that has ended with no score at full time
abbrev unscored : Fixture
unscored = record match { status_short = "FT" }

abbrev manual_leg : Leg
manual_leg = record leg { status = LegStatus.manual }

asks_manual :
    settle_leg regulation 1
      (final_score unscored (refreshed_by (refreshed_task ∷ [])) (7200 * second))
    ≡ Settlement.manual
unfolding settle_leg final_score refreshed_by
asks_manual = refl

abbrev waiting_tables : Ledger
waiting_tables = record placed_tables { legs = manual_leg ∷ []; fixtures = unscored ∷ [] }

abbrev given_tables : Ledger
given_tables = record waiting_tables {
  legs = leg_with LegStatus.won 1650 manual_leg ∷ [];
  settlements = of_leg 1 7 LegStatus.manual LegStatus.won "manual" ∷ waiting_tables.settlements;
}

given_now : manual_settle 7 LegStatus.won waiting_tables ≡ done tt given_tables
unfolding manual_settle find_leg update_leg
given_now = refl

abbrev undone_tables : Ledger
undone_tables = record given_tables {
  legs = manual_leg ∷ [];
  settlements = of_leg 1 7 LegStatus.won LegStatus.manual "correction" ∷ given_tables.settlements;
}

undone_now :
    settle_finished (refreshed_task ∷ []) (7200 * second) given_tables ≡ ok (undone_tables, 0)
unfolding settle_finished refresh_all settle_legs leg_change find_fixture find_coupon settle_leg
    final_score refreshed_by refresh_coupon settle_coupon inside_correction_window
undone_now = refl

in_window : inside_correction_window unscored (7200 * second) ≡ true
unfolding inside_correction_window
in_window = refl

placed_1 : played (find_coupon 1 placed_tables.coupons) ≡ true
unfolding find_coupon
placed_1 = refl

found_9 : find_fixture 9 (unscored ∷ []) ≡ some unscored
unfolding find_fixture
found_9 = refl

found_7 : find_leg 7 (manual_leg ∷ []) ≡ some manual_leg
unfolding find_leg
found_7 = refl

settle_finished-undoes_example : find_leg 7 undone_tables.legs ≡ some manual_leg
settle_finished-undoes_example =
    settle_finished-undoes (refreshed_task ∷ []) (7200 * second) 7 0 LegStatus.won waiting_tables
      given_tables undone_tables manual_leg unscored found_7 given_now undone_now placed_1 found_9
      in_window asks_manual

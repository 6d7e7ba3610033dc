-- ===== src/Quota/Plan.antt =====
-- `_assemble_plan`, `_stopped_plan` and `plan_live_budget` of services/quota.py.
use predictor.Prelude.{
  ℕ, ◌+◌, ◌-◌, ◌*◌, min, max, Bool, true, false, ◌&&◌, Option, List, ltb, ◌==◌, if◌then◌else◌,
}
use predictor.Prelude.Ratio.{
  Ratio, whole, ◌⊕◌, scaled, min_ratio, is_positive, floor, ceil, ceil_div,
}
use predictor.Prelude.Time.{DateTime, second, day_length, day_of}
use predictor.Prelude.Result.{Result, ok, ◌>>=◌}
use predictor.Quota.{
  LiveBudgetPlan, Quality, safety_buffer_requests, live_detail_refresh_seconds,
  idle_score_poll_seconds, live_context_final_calls, live_context_max_calls_per_tick,
}
use predictor.Quota.Tiers.{detail_calls}
use predictor.Quota.Fit.{Needs, fit_quality}
use predictor.Quota.Windows.{
  KickoffLoad, Window, utc, resolve_forecast, windows_of, segments_of, match_time, busy_time,
  integrated_polls,
}

-- the keyword arguments of `_assemble_plan`
pub record Draft : Type 0 where
  pub score_need : ℕ
  pub detail_need : ℕ
  pub odds_need : ℕ
  pub interval : ℕ
  pub relaxed_interval : ℕ
  pub oneshot_calls : ℕ
  pub oneshot_reserve : ℕ
  pub sleep : Ratio
  pub poll_odds : Bool
  pub overloaded : Bool
  pub buffer : ℕ
  pub in_play : Bool
  pub live_matches : ℕ
  pub finishing : ℕ
  pub tick : Ratio
  pub odds_refresh_seconds : ℕ

-- `matches` quarter-shares of a tick, each once in an interval
abbrev share : ℕ → ℕ → Ratio → ℕ → Ratio
share quarters matches tick interval =
    if interval == 0 then whole 0 else scaled (quarters * matches) (4 * interval) tick

abbrev match_rate : Draft → ℕ → Ratio
match_rate d relaxed =
    if d.in_play && ltb 0 d.live_matches && is_positive d.tick
    then share 1 d.live_matches d.tick d.interval ⊕ share 3 d.live_matches d.tick relaxed
    else whole 0

abbrev finish_rate : Draft → Ratio
finish_rate d =
    if ltb 0 d.finishing && ltb 0 d.interval && is_positive d.tick && ltb 0 d.detail_need
    then min_ratio (whole live_context_final_calls) (scaled d.finishing d.interval d.tick)
    else whole 0

abbrev oneshot_rate : Draft → Ratio
oneshot_rate d = if d.in_play && ltb 0 d.oneshot_calls then whole d.oneshot_calls else whole 0

-- `rate`, at most the calls of a tick
unfoldable pub capped_rate : Draft → Ratio
capped_rate d =
    min_ratio (whole live_context_max_calls_per_tick)
      (match_rate d (max d.relaxed_interval d.interval) ⊕ finish_rate d ⊕ oneshot_rate d)

-- `(1 + capped) * 60 / tick`
abbrev per_minute : Ratio → Ratio → Ratio
per_minute capped tick =
    if is_positive tick
    then record { num = (capped.den + capped.num) * 60 * tick.den; den = capped.den * tick.num }
    else whole 0

-- `_assemble_plan`
unfoldable pub assemble_plan : Draft → LiveBudgetPlan
unfolding capped_rate
assemble_plan d =
    let capped = capped_rate d in
    record {
      score_need = d.score_need;
      detail_need = d.detail_need;
      odds_need = d.odds_need;
      detail_refresh_seconds = max 1 d.interval;
      relaxed_refresh_seconds = max 1 (max d.relaxed_interval d.interval);
      oneshot_calls = d.oneshot_calls;
      score_poll_seconds = d.sleep;
      poll_odds = d.poll_odds;
      odds_refresh_seconds = max 1 d.odds_refresh_seconds;
      overloaded = d.overloaded;
      safety_buffer = d.buffer;
      oneshot_reserve = d.oneshot_reserve;
      max_context_calls = min live_context_max_calls_per_tick (floor capped);
      context_calls_per_tick = capped;
      allowed_per_minute = per_minute capped d.tick;
    }

-- a plan that has no call for anything but the scores
abbrev pub scores_only : ℕ → ℕ → Ratio → Bool → ℕ → Draft
scores_only score_need interval sleep in_play buffer = record {
  score_need = score_need;
  detail_need = 0;
  odds_need = 0;
  interval = interval;
  relaxed_interval = interval;
  oneshot_calls = 0;
  oneshot_reserve = 0;
  sleep = sleep;
  poll_odds = false;
  overloaded = true;
  buffer = buffer;
  in_play = in_play;
  live_matches = 0;
  finishing = 0;
  tick = sleep;
  odds_refresh_seconds = 60;
}

-- `_stopped_plan`
unfoldable pub stopped_plan : ℕ → Ratio → Bool → LiveBudgetPlan
stopped_plan buffer seconds_left in_play =
    assemble_plan (scores_only 0 live_detail_refresh_seconds seconds_left in_play buffer)

-- what `plan_live_budget` computes first
pub record Day : Type 0 where
  pub in_play : Bool
  pub live_matches : ℕ
  pub finishing : ℕ
  pub buffer : ℕ
  pub seconds_left : Ratio
  pub target_seconds : ℕ
  pub score : ℕ
  pub needs : Needs

abbrev tick_of : Day → ℕ
tick_of day = if day.in_play then day.target_seconds else idle_score_poll_seconds

-- too few calls for the scores: they are stretched over the calls there are
abbrev pub stretched_plan : Day → LiveBudgetPlan
stretched_plan day =
    let sleep : Ratio = record { num = tick_of day * day.score; den = day.needs.usable } in
    assemble_plan (
      scores_only day.needs.usable (max live_detail_refresh_seconds day.needs.seconds_left) sleep
        false day.buffer)

abbrev pub fitted_draft : Day → Quality → Draft
fitted_draft day choice = record {
  score_need = day.needs.score_need;
  detail_need = choice.detail_need;
  odds_need = choice.odds_need;
  interval = choice.interval;
  relaxed_interval = choice.relaxed_interval;
  oneshot_calls = if day.in_play then choice.oneshot_calls else 0;
  oneshot_reserve = choice.oneshot_reserve;
  sleep = whole (tick_of day);
  poll_odds = day.in_play && ltb 0 choice.odds_need;
  overloaded = choice.overloaded;
  buffer = day.buffer;
  in_play = day.in_play;
  live_matches = day.live_matches;
  finishing = day.finishing;
  tick = whole (tick_of day);
  odds_refresh_seconds = choice.odds_interval;
}

-- the decisions of `plan_live_budget`
unfoldable pub plan_day : Day → LiveBudgetPlan
plan_day day =
    if day.needs.usable == 0
    then stopped_plan day.buffer day.seconds_left day.in_play
    else if ltb day.needs.usable day.score
    then stretched_plan day
    else assemble_plan (fitted_draft day (fit_quality day.needs))

pub record Inputs : Type 0 where
  pub live_matches : ℕ
  pub remaining : ℕ
  pub now : DateTime
  pub target_seconds : ℕ
  pub matches_left_today : Option ℕ
  pub forecast : Option (List KickoffLoad)
  pub finishing_matches : ℕ
  pub limit_day : ℕ
  pub buffer_percent : Ratio

-- `_utc_midnight_after`
abbrev pub midnight_after : ℕ → ℕ
midnight_after now = (day_of now + 1) * day_length

-- at least one second
abbrev pub time_left : ℕ → ℕ
time_left now = max second (midnight_after now - now)

abbrev live_ticks_of : ℕ → ℕ → Ratio
live_ticks_of busy target_seconds =
    if target_seconds == 0 then whole 0 else record { num = busy; den = target_seconds * second }

abbrev pub day_from : Inputs → ℕ → List Window → Day
day_from i now windows =
    let midnight = midnight_after now in
    let segments = segments_of now midnight windows in
    let buffer = safety_buffer_requests i.limit_day i.buffer_percent in
    let score = ceil (integrated_polls segments i.target_seconds idle_score_poll_seconds) in
    let play = match_time now midnight windows in
    record {
      in_play = ltb 0 i.live_matches;
      live_matches = i.live_matches;
      finishing = i.finishing_matches;
      buffer = buffer;
      seconds_left = record { num = time_left now; den = second };
      target_seconds = i.target_seconds;
      score = score;
      needs = record {
        usable = i.remaining - buffer;
        score_need = score;
        detail_at_fast = detail_calls play i.finishing_matches live_detail_refresh_seconds;
        ideal_odds = ceil (integrated_polls segments i.target_seconds 0);
        live_ticks = live_ticks_of (busy_time segments) i.target_seconds;
        play = play;
        finishing = i.finishing_matches;
        seconds_left = ceil_div (time_left now) second;
        odds_target = max 1 i.target_seconds;
      };
    }

-- `plan_live_budget`: a naive time is a ValueError
unfoldable pub plan_live_budget : Inputs → Result LiveBudgetPlan
plan_live_budget i = do
  now ← utc i.now
  windows ←
      windows_of now (midnight_after now) i.live_matches
        (resolve_forecast i.forecast i.matches_left_today now)
  ok (plan_day (day_from i now windows))

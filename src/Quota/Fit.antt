-- ===== src/Quota/Fit.antt =====
-- `_fit_quality` of services/quota.py: the best quality of live work that fits in the usable calls.
use predictor.Prelude.{
  ℕ, ◌+◌, ◌-◌, ◌*◌, max, Bool, true, false, ◌||◌, ltb, leb, ◌==◌, if◌then◌else◌,
}
use predictor.Prelude.Ratio.{Ratio, ceil_div}
use predictor.Quota.{Quality, live_detail_refresh_seconds, live_context_oneshot_calls}
use predictor.Quota.Tiers.{tiered_intervals}

-- the reserve of `cap` one-shot calls in each of the live ticks
unfoldable pub reserve : Ratio → ℕ → ℕ
unfolding ceil_div
reserve live_ticks cap =
    if cap == 0 || live_ticks.num == 0 then 0 else ceil_div (cap * live_ticks.num) live_ticks.den

-- what does not depend on the choice
pub record Needs : Type 0 where
  pub usable : ℕ
  pub score_need : ℕ
  pub detail_at_fast : ℕ
  pub ideal_odds : ℕ
  pub live_ticks : Ratio
  pub play : ℕ
  pub finishing : ℕ
  pub seconds_left : ℕ
  pub odds_target : ℕ

abbrev pub fits : Needs → ℕ → ℕ → ℕ → Bool
fits needs detail odds oneshots = leb (needs.score_need + detail + odds + oneshots) needs.usable

-- a choice with all detail at full speed
abbrev pub at_fast : Needs → ℕ → ℕ → ℕ → Bool → Quality
at_fast needs odds cap reserved overloaded = record {
  interval = live_detail_refresh_seconds;
  relaxed_interval = live_detail_refresh_seconds;
  detail_need = needs.detail_at_fast;
  odds_need = odds;
  oneshot_calls = cap;
  oneshot_reserve = reserved;
  odds_interval = max 1 needs.odds_target;
  overloaded = overloaded;
}

-- the choice when not even the detail fits
unfoldable pub tiered : Needs → Quality
unfolding tiered_intervals
tiered needs =
    let tiers =
      tiered_intervals needs.play needs.finishing (needs.usable - needs.score_need)
        needs.seconds_left in
    record {
      interval = tiers.urgent;
      relaxed_interval = tiers.relaxed;
      detail_need = tiers.calls;
      odds_need = 0;
      oneshot_calls = 0;
      oneshot_reserve = 0;
      odds_interval = max 1 needs.odds_target;
      overloaded = true;
    }

unfoldable pub fit_quality : Needs → Quality
fit_quality needs =
    let full = reserve needs.live_ticks live_context_oneshot_calls in
    let reduced = reserve needs.live_ticks 4 in
    if fits needs needs.detail_at_fast needs.ideal_odds full
    then at_fast needs needs.ideal_odds live_context_oneshot_calls full false
    else if fits needs needs.detail_at_fast needs.ideal_odds reduced
    then at_fast needs needs.ideal_odds 4 reduced false
    else if fits needs needs.detail_at_fast needs.ideal_odds 0
    then at_fast needs needs.ideal_odds 0 0 false
    else if fits needs needs.detail_at_fast 0 0
    then at_fast needs 0 0 0 (ltb 0 needs.ideal_odds)
    else tiered needs

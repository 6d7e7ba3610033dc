-- ===== src/Quota/Tiers.antt =====
-- `_calls_only`, `_interval_only`, `_tiered_intervals` and `_detail_calls` of services/quota.py.
-- The play still to come is in quarters of a microsecond, the time left in seconds, rounded up.
use predictor.Prelude.{
  ℕ, zero, suc, ◌+◌, ◌-◌, ◌*◌, ◌/◌, min, max, ◌&&◌, ◌||◌, ltb, leb, ◌==◌, if◌then◌else◌,
}
use predictor.Prelude.Ratio.{ceil_div}
use predictor.Quota.{quarter_seconds, live_detail_refresh_seconds}

-- `_calls_only`
unfoldable pub calls_only : ℕ → ℕ → ℕ
unfolding ceil_div
calls_only play interval =
    if play == 0 || interval == 0 then 0 else ceil_div play (interval * quarter_seconds)

-- the loop of `_interval_only`; `fuel` is the distance to the ceiling, which bounds its rounds
unfoldable pub stretch : ℕ → ℕ → ℕ → ℕ → ℕ → ℕ
unfolding calls_only
stretch zero play call_budget ceiling interval = interval
stretch (suc fuel) play call_budget ceiling interval =
    let longer = stretch fuel play call_budget ceiling (interval + 1) in
    if ltb call_budget (calls_only play interval) && ltb interval ceiling then longer else interval

abbrev pub ceiling_of : ℕ → ℕ
ceiling_of seconds_left = max live_detail_refresh_seconds seconds_left

abbrev pub first_interval : ℕ → ℕ → ℕ
first_interval play call_budget =
    max live_detail_refresh_seconds (ceil_div play (call_budget * quarter_seconds))

-- `_interval_only`
unfoldable pub interval_only : ℕ → ℕ → ℕ → ℕ
interval_only play call_budget seconds_left =
    let ceiling = ceiling_of seconds_left in
    let interval = first_interval play call_budget in
    if play == 0 || call_budget == 0
    then ceiling
    else min (stretch (ceiling - interval) play call_budget ceiling interval) ceiling

-- the two intervals and the calls
pub record Tiers : Type 0 where
  pub urgent : ℕ
  pub relaxed : ℕ
  pub calls : ℕ

-- the part where the urgent quarter keeps its full speed; `body` is the budget behind the finish
unfoldable pub fast_urgent : ℕ → ℕ → ℕ → ℕ → ℕ → Tiers
fast_urgent play finish urgent_fast body seconds_left =
    let relaxed_play = 3 * play in
    let relaxed_body = body - urgent_fast in
    let relaxed_interval = interval_only relaxed_play relaxed_body seconds_left in
    let relaxed_calls = min relaxed_body (calls_only relaxed_play relaxed_interval) in
    record {
      urgent = live_detail_refresh_seconds;
      relaxed = max live_detail_refresh_seconds relaxed_interval;
      calls = urgent_fast + relaxed_calls + finish;
    }

-- the part where both are stretched
unfoldable pub slow_urgent : ℕ → ℕ → ℕ → ℕ → Tiers
slow_urgent play finish body seconds_left =
    let relaxed_play = 3 * play in
    let urgent_body = max 1 (body / 2) in
    let relaxed_body = body - urgent_body in
    let urgent_interval = interval_only play urgent_body seconds_left in
    let relaxed_interval =
      max (interval_only relaxed_play (max 1 relaxed_body) seconds_left) urgent_interval in
    let urgent_calls = min urgent_body (calls_only play urgent_interval) in
    let relaxed_calls = min relaxed_body (calls_only relaxed_play relaxed_interval) in
    record {
      urgent = urgent_interval;
      relaxed = relaxed_interval;
      calls = urgent_calls + relaxed_calls + finish;
    }

-- `_tiered_intervals`. `play` is in microseconds, so that a quarter of it is as many quarters.
unfoldable pub tiered_intervals : ℕ → ℕ → ℕ → ℕ → Tiers
tiered_intervals play finishing call_budget seconds_left =
    let finish = min finishing call_budget in
    let body = call_budget - finish in
    let urgent_fast = calls_only play live_detail_refresh_seconds in
    if call_budget == 0
    then record { urgent = ceiling_of seconds_left; relaxed = ceiling_of seconds_left; calls = 0 }
    else if play == 0 || body == 0
    then record {
      urgent = live_detail_refresh_seconds;
      relaxed = live_detail_refresh_seconds;
      calls = finish;
    }
    else if leb urgent_fast body
    then fast_urgent play finish urgent_fast body seconds_left
    else slow_urgent play finish body seconds_left

-- `_detail_calls`
unfoldable pub detail_calls : ℕ → ℕ → ℕ → ℕ
unfolding calls_only
detail_calls play finishing interval = calls_only (4 * play) interval + finishing

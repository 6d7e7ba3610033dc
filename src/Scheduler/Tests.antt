-- ===== src/Scheduler/Tests.antt =====
-- A morning with calls left.
use predictor.Prelude.{ℕ, ◌-◌, ◌*◌, ◌≡◌, refl, false, none, some, List, [], ◌∷◌, All}
use predictor.Prelude.Int.{pos, ◌+ℤ◌, ◌≤ℤ◌}
use predictor.Prelude.Ratio.{whole}
use predictor.Prelude.Time.{aware, as_utc, second}
use predictor.Client.State.{QuotaSnapshot}
use predictor.Quota.{safety_buffer_requests}
use predictor.Scheduler.{
  Settings, State, failed, known_quota, prefer_observed, probing_reset, status_is_spent_today,
  blocks_until_reset, is_same_utc_day, inside_buffer, buffer_of, quota_reading_stale,
  remember_status, status_confirms_buffer,
}
use predictor.Scheduler.Laws.{IsCurrent, known_quota-IsCurrent, prefer_observed-bounds}
use predictor.Scheduler.Tick.{Board, Slot, Run, tick}
use predictor.Scheduler.TickLaws.{IsOutside, tick-IsOutside}

abbrev settings : Settings
settings = record {
  quota_daily_limit = 7500;
  quota_safety_buffer_percent = whole 5;
  live_poll_target_seconds = 60;
  idle_cap = 60 * second;
  status_refresh = 3600 * second;
}

-- at ten
abbrev now : ℕ
now = 36000 * second

abbrev left : ℕ → QuotaSnapshot
left n = record {
  current = pos (7500 - n);
  limit_day = pos 7500;
  remaining = pos n;
  fetched_at = some (aware (35900 * second));
  source = "api";
  reading = "status";
}

abbrev state : ℕ → State
state n = record {
  quota = some (left n);
  status_quota = none;
  client_quota = some (left n);
  client_calls = 10;
  calls_baseline = 10;
  live_interval = none;
}

known :
    known_quota settings now (state 5000)
    ≡ some (left 5000, record (state 5000) { status_quota = some (left 5000) })
unfolding known_quota probing_reset status_is_spent_today blocks_until_reset is_same_utc_day as_utc
    inside_buffer buffer_of safety_buffer_requests quota_reading_stale status_confirms_buffer
    remember_status
known = refl

known_quota-IsCurrent_example : IsCurrent settings now (state 5000) (left 5000)
known_quota-IsCurrent_example =
    known_quota-IsCurrent settings now (state 5000)
      (record (state 5000) { status_quota = some (left 5000) }) (left 5000) known

prefer_observed-bounds_example :
    pos 5000 ≤ℤ (prefer_observed now (state 4990) (left 5000)).remaining +ℤ pos (10 - 10)
prefer_observed-bounds_example = prefer_observed-bounds now (state 4990) (left 5000)

abbrev board : Board
board = record { live_matches = 2; finishing_matches = 0; forecast = none }

abbrev slot : ℕ → Slot
slot priority = record {
  priority = priority;
  stop = false;
  now = now;
  past_target = false;
  client_quota = some (left 4990);
  client_calls = 20;
  spent_calls = 2;
  exhausted = false;
}

abbrev script : List Slot
script = slot 2 ∷ slot 3 ∷ slot 4 ∷ []

abbrev ran : List Run
ran =
    tick settings board 1000 now script (record { balance = 0 }) (some (left 5000)) failed
      (state 5000)

tick-IsOutside_example : All (IsOutside settings) ran
tick-IsOutside_example =
    tick-IsOutside settings board 1000 now script (record { balance = 0 }) (some (left 5000)) failed
      (state 5000)

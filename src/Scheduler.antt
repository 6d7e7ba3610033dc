-- ===== src/Scheduler.antt =====
-- The decisions of services/scheduler.py on readings of the daily quota: which reading to trust, when
-- to ask for a new one, and how long to sleep. One decision reads the clock once, in UTC.
pub mod Tick
mod Laws
mod TickLaws
mod Tests
use predictor.Prelude.{
  ℕ, ◌+◌, ◌-◌, ◌*◌, ◌%◌, min, String, Bool, true, false, not, ◌&&◌, ◌||◌, Option, none, some, leb,
  ltb, str_eq, ◌==◌, if◌then◌else◌,
}
use predictor.Prelude.Int.{ℤ, pos, negsuc, ◌-ℤ◌, ltb_ℤ, leb_ℤ}
use predictor.Prelude.Ratio.{Ratio}
use predictor.Prelude.Time.{DateTime, as_utc, second, day_length, day_of}
use predictor.Client.State.{QuotaSnapshot}
use predictor.Quota.{safety_buffer_requests}
use predictor.Quota.Plan.{time_left}

abbrev pub reset_probe : ℕ
reset_probe = 15 * 60 * second

-- durations in microseconds but for the target
pub record Settings : Type 0 where
  pub quota_daily_limit : ℕ
  pub quota_safety_buffer_percent : Ratio
  pub live_poll_target_seconds : ℕ
  pub idle_cap : ℕ
  pub status_refresh : ℕ

-- what the decisions read and write: `_quota`, `_status_quota`, the client's quota and its count of
-- calls, `_calls_baseline`, `_live_interval_seconds`
pub record State : Type 0 where
  pub quota : Option QuotaSnapshot
  pub status_quota : Option QuotaSnapshot
  pub client_quota : Option QuotaSnapshot
  pub client_calls : ℕ
  pub calls_baseline : ℕ
  pub live_interval : Option ℕ

abbrev pub is_api : QuotaSnapshot → Bool
is_api snapshot = str_eq snapshot.source "api"

abbrev fetched_day : Option DateTime → ℕ → Bool
fetched_day none now = false
fetched_day (some fetched) now = day_of (as_utc fetched) == day_of now

-- `_is_same_utc_day`
unfoldable pub is_same_utc_day : QuotaSnapshot → ℕ → Bool
is_same_utc_day snapshot now = fetched_day snapshot.fetched_at now

-- `_blocks_until_reset`
unfoldable pub blocks_until_reset : QuotaSnapshot → ℕ → Bool
blocks_until_reset snapshot now =
    if not (is_api snapshot) || ltb_ℤ (pos 0) snapshot.remaining
    then false
    else is_same_utc_day snapshot now

-- `snapshot.limit_day or settings.quota_daily_limit`
abbrev pub limit_of : Settings → ℤ → ℤ
limit_of settings (pos n) = if n == 0 then pos settings.quota_daily_limit else pos n
limit_of settings (negsuc n) = negsuc n

abbrev buffer_at : Settings → ℤ → ℕ
buffer_at settings (pos n) = safety_buffer_requests n settings.quota_safety_buffer_percent
buffer_at settings (negsuc n) = 0

-- `_buffer_of`
unfoldable pub buffer_of : Settings → QuotaSnapshot → ℕ
buffer_of settings snapshot = buffer_at settings (limit_of settings snapshot.limit_day)

-- `_inside_buffer`
unfoldable pub inside_buffer : Settings → QuotaSnapshot → Bool
inside_buffer settings snapshot = leb_ℤ snapshot.remaining (pos (buffer_of settings snapshot))

-- `_current_near_limit`
unfoldable pub current_near_limit : Settings → QuotaSnapshot → Bool
current_near_limit settings snapshot =
    let limit = limit_of settings snapshot.limit_day in
    if leb_ℤ limit (pos 0)
    then false
    else leb_ℤ (limit -ℤ pos (buffer_of settings snapshot)) snapshot.current

abbrev pub spent_today : Settings → ℕ → Option QuotaSnapshot → Bool
spent_today settings now none = false
spent_today settings now (some status) =
    str_eq status.reading "status"
    && is_api status
    && is_same_utc_day status now
    && inside_buffer settings status

-- `_status_is_spent_today`
unfoldable pub status_is_spent_today : Settings → ℕ → State → Bool
status_is_spent_today settings now s = spent_today settings now s.status_quota

abbrev near_limit : Settings → Option QuotaSnapshot → Bool
near_limit settings none = false
near_limit settings (some status) = current_near_limit settings status

-- `_probing_reset`
unfoldable pub probing_reset : Settings → ℕ → State → Bool
probing_reset settings now s =
    status_is_spent_today settings now s
    && near_limit settings s.status_quota
    && ltb (now % day_length) reset_probe

-- `_status_confirms_buffer`
unfoldable pub status_confirms_buffer : Settings → ℕ → State → Bool
status_confirms_buffer settings now s =
    status_is_spent_today settings now s && not (probing_reset settings now s)

-- `_needs_status_confirmation`
abbrev pub needs_status_confirmation : Settings → ℕ → State → QuotaSnapshot → Bool
needs_status_confirmation settings now s snapshot =
    if not (inside_buffer settings snapshot)
    then false
    else not (status_confirms_buffer settings now s)

abbrev aged : Option DateTime → ℕ → ℕ → Bool
aged none now age = true
aged (some fetched) now age = leb (as_utc fetched + age) now

-- `_quota_reading_stale`
unfoldable pub quota_reading_stale : Settings → ℕ → QuotaSnapshot → Bool
quota_reading_stale settings now snapshot =
    if not (inside_buffer settings snapshot)
    then aged snapshot.fetched_at now settings.status_refresh
    else aged snapshot.fetched_at now reset_probe

-- `_remember_status`
unfoldable pub remember_status : QuotaSnapshot → State → State
remember_status snapshot s =
    if is_api snapshot && str_eq snapshot.reading "status"
    then record s { status_quota = some snapshot }
    else s

abbrev pub or_else : Option QuotaSnapshot → QuotaSnapshot → QuotaSnapshot
or_else none snapshot = snapshot
or_else (some status) snapshot = status

-- the part of `_ensure_quota` that trusts the reading it holds; `none` where it asks
abbrev pub trusted : Settings → ℕ → State → QuotaSnapshot → Option (QuotaSnapshot × State)
trusted settings now s cached =
    if is_api cached
      && is_same_utc_day cached now
      && not (needs_status_confirmation settings now s cached)
      && not (quota_reading_stale settings now cached)
    then (if leb_ℤ cached.remaining (pos 0)
        then some (cached, remember_status cached s)
        else if status_confirms_buffer settings now s
        then some (or_else s.status_quota cached, s)
        else some (cached, remember_status cached s))
    else none

abbrev pub cached_reading :
    Settings → ℕ → State → Option QuotaSnapshot → Option (QuotaSnapshot × State)
cached_reading settings now s none = none
cached_reading settings now s (some cached) = trusted settings now s cached

abbrev pub observed_blocks : Settings → ℕ → QuotaSnapshot → Bool
observed_blocks settings now observed =
    blocks_until_reset observed now && not (quota_reading_stale settings now observed)

abbrev pub held : Settings → ℕ → State → Option QuotaSnapshot → Option (QuotaSnapshot × State)
held settings now s none = cached_reading settings now s s.quota
held settings now s (some observed) =
    if observed_blocks settings now observed
    then some (observed, remember_status observed s)
    else cached_reading settings now s s.quota

-- the reading that `_ensure_quota` returns without a request, and the state behind it
unfoldable pub known_quota : Settings → ℕ → State → Option (QuotaSnapshot × State)
known_quota settings now s =
    if probing_reset settings now s then none else held settings now s s.client_quota

-- what `client.get_status` does; it sets the client's quota, which is the second part
pub data StatusReply : Type 0 where
  auth_blocked quota_exhausted failed : StatusReply
  reading : QuotaSnapshot → StatusReply

abbrev spent_snapshot : Settings → ℕ → QuotaSnapshot
spent_snapshot settings now = record {
  current = pos settings.quota_daily_limit;
  limit_day = pos settings.quota_daily_limit;
  remaining = pos 0;
  fetched_at = some (DateTime.aware now);
  source = "api";
  reading = "status";
}

abbrev unknown_snapshot : Settings → ℕ → QuotaSnapshot
unknown_snapshot settings now = record {
  current = pos 0;
  limit_day = pos settings.quota_daily_limit;
  remaining = pos 0;
  fetched_at = some (DateTime.aware now);
  source = "unknown";
  reading = "status";
}

abbrev exhausted_reading : Settings → ℕ → Option QuotaSnapshot → QuotaSnapshot
exhausted_reading settings now none = spent_snapshot settings now
exhausted_reading settings now (some observed) =
    if leb_ℤ observed.remaining (pos 0) then observed else spent_snapshot settings now

-- `_fetch_status`; an authentication error is raised, `none`
unfoldable pub fetch_status : Settings → ℕ → StatusReply → State → Option (QuotaSnapshot × State)
fetch_status settings now auth_blocked s = none
fetch_status settings now quota_exhausted s =
    let spent = exhausted_reading settings now s.client_quota in
    some (spent, remember_status spent s)
fetch_status settings now failed s = some (or_else s.quota (unknown_snapshot settings now), s)
fetch_status settings now (reading snapshot) s = some (snapshot, remember_status snapshot s)

abbrev asked :
    Option (QuotaSnapshot × State) → Option (QuotaSnapshot × State) → Option (QuotaSnapshot × State)
asked none fetched = fetched
asked (some known) fetched = some known

-- `_ensure_quota`; `after` is the client's quota behind the request, if there is one
unfoldable pub ensure_quota :
    Settings → ℕ → Option QuotaSnapshot → StatusReply → State → Option (QuotaSnapshot × State)
ensure_quota settings now after reply s =
    asked (known_quota settings now s)
      (fetch_status settings now reply (record s { client_quota = after }))

abbrev pub older : Option DateTime → Option DateTime → Bool
older (some fetched) (some current) = ltb (as_utc fetched) (as_utc current)
older _ _ = false

abbrev pub other_day : Option DateTime → QuotaSnapshot → ℕ → Bool
other_day none observed now = false
other_day (some fetched) observed now = not (is_same_utc_day observed now)

abbrev pub prefer : ℕ → ℕ → QuotaSnapshot → Option QuotaSnapshot → QuotaSnapshot
prefer now calls quota none = quota
prefer now calls quota (some observed) =
    if not (is_api observed)
      || other_day observed.fetched_at observed now
      || older observed.fetched_at quota.fetched_at
      || ltb_ℤ (pos calls) (quota.remaining -ℤ observed.remaining)
    then quota
    else observed

-- `_prefer_observed`
unfoldable pub prefer_observed : ℕ → State → QuotaSnapshot → QuotaSnapshot
prefer_observed now s quota = prefer now (s.client_calls - s.calls_baseline) quota s.client_quota

abbrev pub or_target : Settings → Option ℕ → ℕ
or_target settings none = settings.live_poll_target_seconds * second
or_target settings (some interval) = interval

-- `quota is not None and ...`: the reading is spent, or inside the buffer
abbrev pub is_held : Settings → Option QuotaSnapshot → Bool
is_held settings none = false
is_held settings (some quota) =
    is_api quota && leb_ℤ quota.remaining (pos 0) || inside_buffer settings quota

-- `_sleep_seconds`
unfoldable pub sleep_time : Settings → ℕ → State → ℕ
sleep_time settings now s =
    let until_reset = time_left now in
    if probing_reset settings now s
    then min settings.idle_cap until_reset
    else if status_confirms_buffer settings now s
    then min reset_probe until_reset
    else if is_held settings s.quota
    then min settings.idle_cap until_reset
    else or_target settings s.live_interval

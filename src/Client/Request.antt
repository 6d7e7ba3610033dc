-- ===== src/Client/Request.antt =====
-- `request`, `_send_once` and what they call in client/football.py. What the HTTP library answers
-- is an argument: for each attempt the readings of the clock and the reply.
use predictor.Prelude.{
  ℕ, zero, suc, ◌+◌, String, Bool, true, false, not, ◌&&◌, ◌||◌, Option, none, some, leb, ◌==◌,
  str_eq, if◌then◌else◌,
}
use predictor.Prelude.Int.{ℤ, pos, ◌-ℤ◌, leb_ℤ, ltb_ℤ, max_zero}
use predictor.Prelude.Time.{aware, as_utc, day_of}
use predictor.Client.State.{
  Client, QuotaSnapshot, Error, writer_lock_required, auth_blocked_error, quota_exhausted,
  spend_window_closed, retryable, http_error,
}
use predictor.Client.Window.{Readings, refuse_closed_window, note_call}

abbrev pub http_retry_attempts : ℕ
http_retry_attempts = 5

-- What the client reads of an answer. The two limit headers are `none` when they are missing or no
-- number, the counter header when it is missing or not all digits; `says_daily_limit` is
-- `_body_says_daily_limit`, a search in the text of the body.
pub record Response : Type 0 where
  pub status_code : ℕ
  pub remaining_header : Option ℤ
  pub limit_header : Option ℤ
  pub current_header : Option ℕ
  pub says_daily_limit : Bool

pub data Reply : Type 0 where
  transport_error : Reply
  answered : Response → Reply

pub record Exchange : Type 0 where
  pub readings : Readings
  pub sent_at : ℕ
  pub now : ℕ  -- the wall clock, in UTC, when the answer is read
  pub reply : Reply

abbrev pub header_snapshot : ℕ → ℤ → ℤ → Option ℕ → QuotaSnapshot
header_snapshot now remaining limit current = record {
  current = elim current [ none ↦ max_zero (limit -ℤ remaining) | some n ↦ pos n ];
  limit_day = limit;
  remaining = max_zero remaining;
  fetched_at = some (aware now);
  source = "api";
  reading = "header";
}

-- `_note_quota_headers`
unfoldable pub note_quota_headers : ℕ → Response → Client → Client
unfolding ◌-ℤ◌
note_quota_headers now r c = elim r.remaining_header [
  | none ↦ c
  | some remaining ↦ elim r.limit_header [
    | none ↦ c
    | some limit ↦ record c { quota = some (header_snapshot now remaining limit r.current_header) }
  ]
]

abbrev known_limit : Option QuotaSnapshot → ℤ
known_limit none = pos 0
known_limit (some quota) = if ltb_ℤ (pos 0) quota.limit_day then quota.limit_day else pos 0

-- `_exhaust_daily_quota`
unfoldable pub exhaust_daily_quota : ℕ → Client → Client
exhaust_daily_quota now c = record c {
  quota = some (record {
    current = known_limit c.quota;
    limit_day = known_limit c.quota;
    remaining = pos 0;
    fetched_at = some (aware now);
    source = "api";
    reading = "status";
  });
}

-- the quota that stops HTTP until the next day in UTC
abbrev blocks : ℕ → QuotaSnapshot → Bool
blocks now quota =
    leb_ℤ quota.remaining (pos 0)
    && str_eq quota.source "api"
    && (elim quota.fetched_at [ none ↦ false | some t ↦ day_of (as_utc t) == day_of now ])

-- `_daily_quota_blocked`
unfoldable pub daily_quota_blocked : ℕ → Client → Bool
unfolding as_utc
daily_quota_blocked now c = elim c.quota [ none ↦ false | some quota ↦ blocks now quota ]

pub data Result : Type 0 where
  ok : Response → Result
  raised : Error → Result

-- the status of an answer, behind the daily limit
abbrev pub judge : Response → Client → Result × Client
judge r c =
    if r.status_code == 401 || r.status_code == 403
    then (raised auth_blocked_error, record c { auth_blocked = true })
    else if r.status_code == 429 || leb 500 r.status_code
    then (raised (retryable (some r.status_code)), c)
    else if leb 400 r.status_code
    then (raised (http_error r.status_code), c)
    else (ok r, c)

unfoldable pub receive : ℕ → Reply → Client → Result × Client
unfolding note_quota_headers exhaust_daily_quota
receive now transport_error c = (raised (retryable none), c)
receive now (answered r) c =
    let c' = note_quota_headers now r c in
    if r.status_code == 200 && r.says_daily_limit
    then (raised quota_exhausted, exhaust_daily_quota now c')
    else judge r c'

abbrev pub send_if : Bool × Client → Exchange → Result × Client
send_if (true, c) x = (raised spend_window_closed, c)
send_if (false, c) x = receive x.now x.reply (note_call x.sent_at c)

-- `_send_once`
unfoldable pub send_once : Exchange → Client → Result × Client
unfolding refuse_closed_window note_call receive
send_once x c = send_if (refuse_closed_window x.readings c) x

abbrev pub is_retryable : Result → Bool
is_retryable (raised (retryable _)) = true
is_retryable _ = false

-- The retry loop: `left` attempts remain behind the one at hand, which is number `i`. The last
-- error is raised again when none is left.
unfoldable pub attempt : (ℕ → Exchange) → ℕ → ℕ → Client → Result × Client
unfolding send_once
attempt exchange zero i c = send_once (exchange i) c
attempt exchange (suc left) i c =
    let (result, c') = send_once (exchange i) c in
    let again = attempt exchange left (i + 1) c' in
    if is_retryable result then again else (result, c')

unfoldable pub request : (ℕ → Exchange) → ℕ → String → Client → Result × Client
request exchange now path c =
    if not c.locked
    then (raised writer_lock_required, c)
    else if c.auth_blocked
    then (raised auth_blocked_error, c)
    else if daily_quota_blocked now c && not (str_eq path "/status")
    then (raised quota_exhausted, c)
    else attempt exchange 4 0 c

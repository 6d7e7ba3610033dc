-- ===== src/Client/State.antt =====
-- `QuotaSnapshot` of client/quota.py, the errors of client/errors.py, and the state that
-- `FootballClient` of client/football.py keeps. Times of the monotonic clock are in microseconds.
use predictor.Prelude.{ℕ, String, Bool, Option, List}
use predictor.Prelude.Int.{ℤ}
use predictor.Prelude.Time.{DateTime}

pub record QuotaSnapshot : Type 0 where
  pub current : ℤ
  pub limit_day : ℤ
  pub remaining : ℤ
  pub fetched_at : Option DateTime
  pub source : String
  pub reading : String

pub data Error : Type 0 where
  writer_lock_required auth_blocked_error quota_exhausted spend_window_closed : Error
  retryable : Option ℕ → Error
  http_error : ℕ → Error

pub record Client : Type 0 where
  pub locked : Bool
  pub auth_blocked : Bool
  pub quota : Option QuotaSnapshot
  pub calls_made : ℕ
  pub call_marks : List ℕ
  pub live_marks : List ℕ
  pub history_marks : List ℕ
  pub vendor_per_minute : ℕ
  pub live_per_minute : ℕ
  pub history_per_minute : ℕ
  pub live_concurrency : ℕ
  pub history_concurrency : ℕ
  pub window_deadline : Option ℕ
  pub window_ceiling : ℕ
  pub window_per_minute : ℕ

-- ===== src/Queue/Retry.antt =====
-- `empty_retry_status` and `error_retry_status` of services/queue/core.py, with the default limits
-- of constants.py.
use predictor.Prelude.{
  ℕ, ◌+◌, ◌-◌, ◌*◌, ◌^◌, min, String, none, some, or_zero, leb, ltb, if◌then◌else◌,
}
use predictor.Prelude.Time.{second}
use predictor.Queue.Task.{Params}

abbrev pub max_empty_attempts : ℕ
max_empty_attempts = 5

abbrev pub empty_backoff_seconds : ℕ
empty_backoff_seconds = 5 * 60

abbrev pub error_retry_limit : ℕ
error_retry_limit = 10

abbrev pub base_backoff_seconds : ℕ
base_backoff_seconds = 60

abbrev pub max_backoff_seconds : ℕ
max_backoff_seconds = 60 * 60

-- what a failed or empty fetch leaves of the task: its status and its params
pub record Retry : Type 0 where
  pub status : String
  pub params : Params

unfoldable pub empty_retry_status : ℕ → ℕ → Params → ℕ → Retry
empty_retry_status max_attempts backoff_seconds params now =
    let attempts = or_zero params.empty_attempts + 1 in
    if leb max_attempts attempts
    then record {
      status = "coverage_empty";
      params = record params { empty_attempts = some attempts; next_attempt_at = none };
    }
    else record {
      status = "retryable_error";
      params = record params {
        empty_attempts = some attempts;
        next_attempt_at = some (now + backoff_seconds * second);
      };
    }

unfoldable pub retry_delay : ℕ → ℕ → ℕ → ℕ
retry_delay base_seconds max_seconds retries = min max_seconds (base_seconds * 2 ^ (retries - 1))

unfoldable pub error_retry_status : ℕ → ℕ → ℕ → Params → ℕ → Retry
unfolding retry_delay
error_retry_status max_retries base_seconds max_seconds params now =
    let retries = or_zero params.error_retries + 1 in
    if ltb max_retries retries
    then record {
      status = "permanent_error";
      params = record params { error_retries = some retries; next_attempt_at = none };
    }
    else record {
      status = "retryable_error";
      params = record params {
        error_retries = some retries;
        next_attempt_at = some (now + retry_delay base_seconds max_seconds retries * second);
      };
    }

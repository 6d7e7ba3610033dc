-- ===== src/Queue/RetryLaws.antt =====
-- How often a failed fetch is tried again.
use predictor.Prelude.{
  ℕ, ◌+◌, ◌≤◌, ◌≡◌, none, some, List, [], ◌∷◌, arith, ltb, or_zero, if◌then◌else◌, length,
}
use predictor.Queue.Task.{Params}
use predictor.Queue.Retry.{Retry, error_retry_status}

module _ (limit base most : ℕ) where
  -- the params of a task that has failed at each of these times
  abbrev pub after_failures : List ℕ → Params → Params
  after_failures [] params = params
  after_failures (now ∷ nows) params =
      after_failures nows (error_retry_status limit base most params now).params

  error_retries-after :
      (nows : List ℕ) (params : Params)
      → or_zero (after_failures nows params).error_retries
        ≡ or_zero params.error_retries + length nows
  unfolding error_retry_status
  error_retries-after [] params = omega arith
  error_retries-after (now ∷ nows) params =
      ground
        (arith, error_retries-after nows (error_retry_status limit base most params now).params)

  -- Whenever the failures come, a task without a count is put back for each of the first `limit`
  -- of them, and the next failure makes it permanent.
  pub error_retry_status-exhausts :
      (nows : List ℕ) (now : ℕ) (params : Params)
      → params.error_retries ≡ none
      → (error_retry_status limit base most (after_failures nows params) now).status
        ≡ (if ltb (length nows) limit then "retryable_error" else "permanent_error")
  unfolding error_retry_status
  error_retry_status-exhausts nows now params h = ground (arith, error_retries-after nows params)

-- the next attempt lies between two waits from now
pub record IsDue (r : Retry) (now low high : ℕ) : Type 0 where
  pub due : ℕ
  pub planned : r.params.next_attempt_at ≡ some due
  pub after : now + low ≤ due
  pub before : due ≤ now + high

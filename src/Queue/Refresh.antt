-- ===== src/Queue/Refresh.antt =====
-- `needs_refresh` and `mapping_needs_refresh` of services/queue/core.py.
use predictor.Prelude.{
  ℕ, ◌+◌, ◌*◌, Bool, true, not, Option, none, some, ltb, leb, is_in, str_eq, if◌then◌else◌,
}
use predictor.Prelude.Time.{second, day_of}
use predictor.Queue.Task.{Task, claimable_statuses, terminal_statuses}

abbrev pub odds_mapping_retry_backoff_seconds : ℕ
odds_mapping_retry_backoff_seconds = 15 * 60

abbrev pub odds_mapping_refresh_seconds : ℕ
odds_mapping_refresh_seconds = 2 * 60 * 60

-- the answer for a completed task with its time, and otherwise
abbrev pub when_complete : Task → (ℕ → Bool) → Bool → Bool
when_complete task since otherwise =
    if str_eq task.status "complete"
    then elim task.completed_at [ none ↦ otherwise | some completed ↦ since completed ]
    else otherwise

unfoldable pub needs_refresh : Task → ℕ → Bool
needs_refresh task now =
    if is_in task.status claimable_statuses
    then true
    else when_complete task (λ completed. ltb (day_of completed) (day_of now))
        (not (is_in task.status terminal_statuses))

abbrev waited : Option ℕ → ℕ → ℕ → Bool
waited none seconds now = true
waited (some stamp) seconds now = leb (stamp + seconds * second) now

unfoldable pub mapping_needs_refresh : Task → ℕ → Bool
unfolding needs_refresh
mapping_needs_refresh task now =
    if str_eq task.status "retryable_error"
    then waited task.updated_at odds_mapping_retry_backoff_seconds now
    else when_complete task
        (λ completed. leb (completed + odds_mapping_refresh_seconds * second) now)
        (needs_refresh task now)

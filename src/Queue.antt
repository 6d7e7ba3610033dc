-- ===== src/Queue.antt =====
-- The ETL queue (services/queue/core.py): a table of tasks that a single worker claims, retries and
-- completes. `Task` is the table and its rows, `Retry` the retry rules, `Claim` the claims,
-- checkpoints and repairs, `Refresh` the refresh rules of the dictionaries.
pub mod Task
pub mod Retry
pub mod Claim
pub mod Refresh
pub mod Ensure
pub mod RetryLaws
pub mod ClaimLaws
pub mod DrainLaws
mod Tests

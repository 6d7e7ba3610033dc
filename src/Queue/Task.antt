-- ===== src/Queue/Task.antt =====
-- `EtlTask` of models/etl.py, and the statuses of constants.py.
use predictor.Prelude.{ℕ, String, Option, List, [], ◌∷◌}

abbrev pub etl_statuses : List String
etl_statuses =
    "pending" ∷ "in_progress" ∷ "complete" ∷ "coverage_empty" ∷ "not_supported" ∷ "retryable_error"
    ∷ "permanent_error" ∷ []

abbrev pub terminal_statuses : List String
terminal_statuses = "complete" ∷ "coverage_empty" ∷ "not_supported" ∷ "permanent_error" ∷ []

abbrev pub claimable_statuses : List String
claimable_statuses = "pending" ∷ "retryable_error" ∷ []

-- The JSON of `params`: the three keys that the queue itself reads and writes, and the others.
-- `next_attempt_at` is stored as text in one UTC format, whose order is that of the instants.
pub record Params : Type 0 where
  pub empty_attempts : Option ℕ
  pub error_retries : Option ℕ
  pub next_attempt_at : Option ℕ
  pub others : List (String × String)

-- The times of a row are instants in UTC: the columns have a time zone.
pub record Task : Type 0 where
  pub id : ℕ
  pub endpoint : String
  pub params : Params
  pub cursor_kind : Option String
  pub fixture_id : Option ℕ
  pub day_utc : Option ℕ
  pub status : String
  pub attempt_count : ℕ
  pub last_error : Option String
  pub paging_current : Option ℕ
  pub paging_total : Option ℕ
  pub started_at : Option ℕ
  pub updated_at : Option ℕ
  pub completed_at : Option ℕ

-- ===== src/Queue/Ensure.antt =====
-- Rows that services/queue/core.py makes sure of: the cursors, the dictionary tasks, and one task
-- for an endpoint or a day.
use predictor.Prelude.{
  ℕ, ◌+◌, String, Bool, false, ◌&&◌, Option, none, some, List, [], ◌∷◌, ◌++◌, is_none, str_eq,
  if◌then◌else◌, any,
}
use predictor.Queue.Task.{Params, Task}

-- The table with its sequence of ids.
pub record Table : Type 0 where
  pub tasks : List Task
  pub next_id : ℕ

abbrev pub no_params : Params
no_params = record {
  empty_attempts = none;
  error_retries = none;
  next_attempt_at = none;
  others = [];
}

abbrev pub new_task : ℕ → String → Option String → Option ℕ → Params → Task
new_task id endpoint cursor_kind day params = record {
  id = id;
  endpoint = endpoint;
  params = params;
  cursor_kind = cursor_kind;
  fixture_id = none;
  day_utc = day;
  status = "pending";
  attempt_count = 0;
  last_error = none;
  paging_current = none;
  paging_total = none;
  started_at = none;
  updated_at = none;
  completed_at = none;
}

-- `session.add` and the flush that gives the id
unfoldable pub add : String → Option String → Option ℕ → Params → Table → Table
add endpoint cursor_kind day params t = record {
  tasks = t.tasks ++ new_task t.next_id endpoint cursor_kind day params ∷ [];
  next_id = t.next_id + 1;
}

abbrev pub has_kind : String → Task → Bool
has_kind kind task = elim task.cursor_kind [ none ↦ false | some k ↦ str_eq k kind ]

abbrev pub is_endpoint : String → Task → Bool
is_endpoint endpoint task = str_eq task.endpoint endpoint && is_none task.cursor_kind

unfoldable pub ensure_cursor : String → String → Table → Table
unfolding add
ensure_cursor kind endpoint t =
    if any (has_kind kind) t.tasks then t else add endpoint (some kind) none no_params t

-- `ensure_cursors`, over CURSOR_KINDS
unfoldable pub ensure_cursors : Table → Table
unfolding ensure_cursor
ensure_cursors t =
    ensure_cursor "enrichment" "cursor/enrichment"
      (ensure_cursor "backfill" "cursor/backfill" (ensure_cursor "forward" "cursor/forward" t))

abbrev pub dictionary_endpoints : List String
dictionary_endpoints =
    "/timezone" ∷ "/countries" ∷ "/teams/countries" ∷ "/leagues/seasons" ∷ "/leagues"
    ∷ "/odds/bookmakers" ∷ "/odds/bets" ∷ "/odds/live/bets" ∷ []

unfoldable pub ensure_endpoint : String → Table → Table
unfolding add
ensure_endpoint endpoint t =
    if any (is_endpoint endpoint) t.tasks then t else add endpoint none none no_params t

unfoldable pub ensure_endpoints : List String → Table → Table
unfolding ensure_endpoint
ensure_endpoints [] t = t
ensure_endpoints (endpoint ∷ endpoints) t = ensure_endpoints endpoints (ensure_endpoint endpoint t)

-- `ensure_dictionary_tasks`
unfoldable pub ensure_dictionary_tasks : Table → Table
unfolding ensure_endpoints
ensure_dictionary_tasks t = ensure_endpoints dictionary_endpoints t

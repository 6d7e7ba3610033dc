-- ===== src/Queue/Claim.antt =====
-- Claims, checkpoints and repairs of services/queue/core.py. The table is in the order of the ids,
-- which are given in sequence, so `ORDER BY id` is the order of the list. `locked` tells the rows
-- that another session has locked, which SKIP LOCKED passes over.
use predictor.Prelude.{
  ℕ, zero, suc, ◌+◌, String, Bool, true, not, ◌&&◌, ◌||◌, Option, none, some, List, [], ◌∷◌, leb,
  is_none, is_in, str_eq, if◌then◌else◌,
}
use predictor.Queue.Task.{Params, Task, claimable_statuses, etl_statuses, terminal_statuses}

-- `_mark_claimed`, and the same lines at the end of `claim_next` and `claim_rounds_task`
unfoldable pub mark_claimed : ℕ → Task → Task
mark_claimed now task = record task {
  status = "in_progress";
  started_at = some now;
  updated_at = some now;
  attempt_count = task.attempt_count + 1;
}

-- `_due_clause`
unfoldable pub due_clause : ℕ → Task → Bool
due_clause now task =
    str_eq task.status "pending"
    || (elim task.params.next_attempt_at [ none ↦ true | some at ↦ leb at now ])

abbrev pub open_task : Task → Bool
open_task task = is_in task.status claimable_statuses && is_none task.cursor_kind

-- Marks the first rows that pass the test, at most `limit`, and returns them.
unfoldable pub claim_where : (Task → Bool) → ℕ → ℕ → List Task → List Task × List Task
unfolding mark_claimed
claim_where test zero now tasks = ([], tasks)
claim_where test (suc limit) now [] = ([], [])
claim_where test (suc limit) now (task ∷ tasks) =
    let (claimed, rest) = claim_where test limit now tasks in
    let (claimed', rest') = claim_where test (suc limit) now tasks in
    if test task
    then (mark_claimed now task ∷ claimed, mark_claimed now task ∷ rest)
    else (claimed', task ∷ rest')

abbrev pub first : List Task → Option Task
first [] = none
first (task ∷ tasks) = some task

unfoldable pub claim_next : (ℕ → Bool) → ℕ → List Task → Option Task × List Task
unfolding claim_where
claim_next locked now tasks =
    let (claimed, tasks') =
      claim_where (λ task. open_task task && not (locked task.id)) 1 now tasks in
    (first claimed, tasks')

-- `_claim_endpoint_rows`; `limit <= 0` claims nothing
unfoldable pub claim_endpoint_rows : (ℕ → Bool) → String → ℕ → ℕ → List Task → List Task × List Task
unfolding claim_where due_clause
claim_endpoint_rows locked endpoint limit now tasks =
    claim_where
      (λ task.
        str_eq task.endpoint endpoint
        && open_task task
        && due_clause now task
        && not (locked task.id))
      limit now tasks

-- `requeue_orphans`: the number of rows and the table
unfoldable pub requeue : ℕ → Task → Task
requeue now task = record task {
  status = "pending";
  last_error = some "orphaned_in_progress";
  attempt_count = task.attempt_count + 1;
  updated_at = some now;
}

unfoldable pub requeue_orphans : ℕ → List Task → ℕ × List Task
unfolding requeue
requeue_orphans now [] = (0, [])
requeue_orphans now (task ∷ tasks) =
    let (count, rest) = requeue_orphans now tasks in
    if str_eq task.status "in_progress"
    then (1 + count, requeue now task ∷ rest)
    else (count, task ∷ rest)

abbrev or_keep {ℓ} : {A : Type ℓ} → Option A → Option A → Option A
or_keep none old = old
or_keep (some new) old = some new

abbrev or_same {ℓ} : {A : Type ℓ} → Option A → A → A
or_same none old = old
or_same (some new) old = new

-- The optional arguments of `complete_task`.
pub record Checkpoint : Type 0 where
  pub error : Option String
  pub paging_current : Option ℕ
  pub paging_total : Option ℕ
  pub params : Option Params

-- `complete_task`: `none` is the ValueError on a status that the queue does not know
unfoldable pub complete_task : ℕ → String → Checkpoint → Task → Option Task
complete_task now status c task =
    if not (is_in status etl_statuses)
    then none
    else some (record task {
      status = status;
      updated_at = some now;
      last_error = or_keep c.error task.last_error;
      paging_current = or_keep c.paging_current task.paging_current;
      paging_total = or_keep c.paging_total task.paging_total;
      params = or_same c.params task.params;
      completed_at = if is_in status terminal_statuses then some now else task.completed_at;
    })

-- ===== src/Queue/Tests.antt =====
-- The laws of the queue at small tables.
use predictor.Prelude.{
  ℕ, ◌≡◌, refl, Bool, ◌&&◌, none, some, List, [], ◌∷◌, map, take, drop, keep, ltb, if◌then◌else◌,
}
use predictor.Queue.Task.{Task}
use predictor.Queue.Retry.{error_retry_status}
use predictor.Queue.Claim.{mark_claimed, claim_next, claim_endpoint_rows, Checkpoint}
use predictor.Queue.Ensure.{Table, no_params, new_task}
use predictor.Queue.RetryLaws.{after_failures, error_retry_status-exhausts}
use predictor.Queue.ClaimLaws.{due_row, claim_endpoint_rows-take}
use predictor.Queue.DrainLaws.{claim_all, claim_all-none}

abbrev waiting : ℕ → Task
waiting id = new_task id "/fixtures" none none no_params

abbrev running : Task
running = record (waiting 2) { status = "in_progress"; started_at = some 5 }

abbrev backlog : List Task
backlog = waiting 1 ∷ running ∷ waiting 3 ∷ waiting 4 ∷ []

abbrev lock_three : ℕ → Bool
lock_three id = ltb 2 id && ltb id 4

error_retry_status-exhausts_example :
    (error_retry_status 2 60 3600 (after_failures 2 60 3600 (10 ∷ 20 ∷ []) no_params) 30).status
    ≡ (if ltb 2 2 then "retryable_error" else "permanent_error")
error_retry_status-exhausts_example =
    error_retry_status-exhausts 2 60 3600 (10 ∷ 20 ∷ []) 30 no_params refl

claim_endpoint_rows-take_example :
    let (claimed, rest) = claim_endpoint_rows lock_three "/fixtures" 2 50 backlog in
    (claimed ≡ map (mark_claimed 50) (take 2 (keep (due_row lock_three "/fixtures" 50) backlog)))
    × (keep (due_row lock_three "/fixtures" 50) rest
        ≡ drop 2 (keep (due_row lock_three "/fixtures" 50) backlog))
claim_endpoint_rows-take_example = claim_endpoint_rows-take lock_three "/fixtures" 2 50 backlog

claim_all-none_example :
    (claim_next lock_three 60 (claim_all lock_three (50 ∷ 55 ∷ []) backlog)).0 ≡ none
claim_all-none_example = claim_all-none lock_three (50 ∷ 55 ∷ []) 60 backlog refl

abbrev no_checkpoint : Checkpoint
no_checkpoint = record { error = none; paging_current = none; paging_total = none; params = none }

abbrev completed : Task
completed = record running { status = "complete"; updated_at = some 50; completed_at = some 50 }

abbrev two_tasks : Table
two_tasks = record {
  tasks = waiting 1 ∷ new_task 2 "/countries" none none no_params ∷ [];
  next_id = 3;
}

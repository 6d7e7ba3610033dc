-- ===== src/Queue/ClaimLaws.antt =====
-- What a claim takes: the first open rows in the order of their ids, each once.
use predictor.Prelude.{
  ℕ, zero, suc, ◌≡◌, refl, String, Bool, false, not, ◌&&◌, List, [], ◌∷◌, map, arith, keep, take,
  drop, str_eq, Bool-cases, inl, inr,
}
use predictor.Queue.Task.{Task}
use predictor.Queue.Claim.{
  mark_claimed, due_clause, open_task, claim_where, claim_next, claim_endpoint_rows, first,
}

-- A row that is claimed passes the test no longer.
abbrev pub IsExclusive : (Task → Bool) → ℕ → Type 0
IsExclusive test now = (task : Task) → test (mark_claimed now task) ≡ false

claim_where-take :
    (test : Task → Bool) (limit now : ℕ) (tasks : List Task)
    → (claim_where test limit now tasks).0 ≡ map (mark_claimed now) (take limit (keep test tasks))
unfolding claim_where
claim_where-take test zero now tasks = refl
claim_where-take test (suc limit) now [] = refl
claim_where-take test (suc limit) now (task ∷ tasks) = elim (Bool-cases (test task)) [
  | inl e ↦ rw (e, claim_where-take test limit now tasks)
  | inr e ↦ rw (e, claim_where-take test (suc limit) now tasks)
]

claim_where-drop :
    (test : Task → Bool) (limit now : ℕ) (tasks : List Task)
    → IsExclusive test now
    → keep test (claim_where test limit now tasks).1 ≡ drop limit (keep test tasks)
unfolding claim_where
claim_where-drop test zero now tasks x = refl
claim_where-drop test (suc limit) now [] x = refl
claim_where-drop test (suc limit) now (task ∷ tasks) x = elim (Bool-cases (test task)) [
  | inl e ↦ rw (e, x task, claim_where-drop test limit now tasks x)
  | inr e ↦ rw (e, e, claim_where-drop test (suc limit) now tasks x)
]

open_task-IsExclusive :
    (locked : ℕ → Bool) (now : ℕ) → IsExclusive (λ task. open_task task && not (locked task.id)) now
unfolding mark_claimed
open_task-IsExclusive locked now task = refl

-- `claim_next` takes the first open task that no other session has locked, marks it and only it;
-- the tasks that are left to claim are exactly the others.
pub claim_next-first :
    (locked : ℕ → Bool) (now : ℕ) (tasks : List Task)
    → let test = λ (task : Task). open_task task && not (locked task.id) in
      let (claimed, rest) = claim_next locked now tasks in
      (claimed ≡ first (map (mark_claimed now) (take 1 (keep test tasks))))
      × (keep test rest ≡ drop 1 (keep test tasks))
unfolding claim_next
claim_next-first locked now tasks =
    let test = λ (task : Task). open_task task && not (locked task.id) in
    (
      rw (claim_where-take test 1 now tasks),
      claim_where-drop test 1 now tasks (open_task-IsExclusive locked now),
    )

-- the rows that `_claim_endpoint_rows` selects
abbrev pub due_row : (ℕ → Bool) → String → ℕ → Task → Bool
due_row locked endpoint now task =
    str_eq task.endpoint endpoint && open_task task && due_clause now task && not (locked task.id)

due_row-IsExclusive :
    (locked : ℕ → Bool) (endpoint : String) (now : ℕ)
    → IsExclusive (due_row locked endpoint now) now
unfolding mark_claimed
due_row-IsExclusive locked endpoint now task = ground arith

-- Claiming rows of an endpoint takes the first due ones, up to the limit, in the order of their ids;
-- what is then left to claim are the due rows behind them, so no row is claimed twice.
pub claim_endpoint_rows-take :
    (locked : ℕ → Bool) (endpoint : String) (limit now : ℕ) (tasks : List Task)
    → let (claimed, rest) = claim_endpoint_rows locked endpoint limit now tasks in
      (claimed ≡ map (mark_claimed now) (take limit (keep (due_row locked endpoint now) tasks)))
      × (keep (due_row locked endpoint now) rest
          ≡ drop limit (keep (due_row locked endpoint now) tasks))
unfolding claim_endpoint_rows
claim_endpoint_rows-take locked endpoint limit now tasks = (
  claim_where-take (due_row locked endpoint now) limit now tasks,
  claim_where-drop (due_row locked endpoint now) limit now tasks
      (due_row-IsExclusive locked endpoint now),
)

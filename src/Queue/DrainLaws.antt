-- ===== src/Queue/DrainLaws.antt =====
-- A queue is drained by as many claims as it has open tasks.
use predictor.Prelude.{
  ℕ, zero, suc, ◌≡◌, refl, ◌∙◌, ap, Bool, ◌&&◌, not, none, List, [], ◌∷◌, map, keep, take, drop,
  length, str_eq,
}
use predictor.Queue.Task.{Task}
use predictor.Queue.Claim.{open_task, claim_next, first, mark_claimed}
use predictor.Queue.ClaimLaws.{claim_next-first}

abbrev pub in_progress : Task → Bool
in_progress task = str_eq task.status "in_progress"

-- `claim_next` again and again, at the given times
abbrev pub claim_all : (ℕ → Bool) → List ℕ → List Task → List Task
claim_all locked [] tasks = tasks
claim_all locked (now ∷ nows) tasks = claim_all locked nows (claim_next locked now tasks).1

drop-drop {ℓ} : {A : Type ℓ} (n : ℕ) (xs : List A) → drop n (drop 1 xs) ≡ drop (suc n) xs
drop-drop zero [] = refl
drop-drop (suc n) [] = refl
drop-drop n (x ∷ xs) = refl

drop-length {ℓ} : {A : Type ℓ} (xs : List A) → drop (length xs) xs ≡ []
drop-length [] = refl
drop-length (x ∷ xs) = drop-length xs

claim_all-drop :
    (locked : ℕ → Bool) (nows : List ℕ) (tasks : List Task)
    → let test = λ (task : Task). open_task task && not (locked task.id) in
      keep test (claim_all locked nows tasks) ≡ drop (length nows) (keep test tasks)
claim_all-drop locked [] tasks = refl
claim_all-drop locked (now ∷ nows) tasks =
    claim_all-drop locked nows (claim_next locked now tasks).1
    ∙ ap (drop (length nows)) (claim_next-first locked now tasks).1
    ∙ drop-drop (length nows) (keep (λ (task : Task). open_task task && not (locked task.id)) tasks)

-- The queue is drained in as many claims as it has open unlocked tasks: the next claim finds none.
pub claim_all-none :
    (locked : ℕ → Bool) (nows : List ℕ) (now : ℕ) (tasks : List Task)
    → length nows ≡ length (keep (λ (task : Task). open_task task && not (locked task.id)) tasks)
    → (claim_next locked now (claim_all locked nows tasks)).0 ≡ none
claim_all-none locked nows now tasks h =
    let test = λ (task : Task). open_task task && not (locked task.id) in
    (claim_next-first locked now (claim_all locked nows tasks)).0
    ∙ ap (λ (l : List Task). first (map (mark_claimed now) (take 1 l)))
        (claim_all-drop locked nows tasks
          ∙ ap (λ n. drop n (keep test tasks)) h
          ∙ drop-length (keep test tasks))

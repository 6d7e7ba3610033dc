-- ===== src/Lock/Tests.antt =====
-- Two processes and a server that keeps the session that holds the lock.
use predictor.Prelude.{
  ℕ, ◌≡◌, ◌⊎◌, refl, Bool, true, false, Option, none, some, List, [], ◌∷◌, arith, inl, inr, ◌==◌,
  if◌then◌else◌,
}
use predictor.Prelude.Int.{negsuc}
use predictor.Lock.{
  new_lock, LockServer, answered, no_pid, try_acquire, release, close, World, Event, operates,
  loses, operate, act_all, advisory_lock_parts,
}
use predictor.Lock.KeyLaws.{bigint_of, bigint_of-advisory_lock_parts}
use predictor.Lock.Laws.{act_all-held}

abbrev holds : ℕ → Option ℕ → Bool
holds k none = false
holds k (some j) = j == k

abbrev drop : ℕ → Option ℕ → Option ℕ
drop k s = if holds k s then none else s

abbrev try_lock : ℕ → Option ℕ → Bool × Option ℕ
try_lock k none = (true, some k)
try_lock k (some j) = (j == k, some j)

drop-other : (j k : ℕ) (s : Option ℕ) → (j == k) ≡ false → s ≡ some j → drop k s ≡ some j
drop-other j k none other e = cc
drop-other j k (some i) other e =
    let same : i ≡ j = cc in let spared : (i == k) ≡ false = ground arith in rw spared e

try_lock-granted :
    (k : ℕ) (s : Option ℕ)
    → (try_lock k s).0 ≡ true
    → ((try_lock k s).1 ≡ some k) × ((s ≡ none) ⊎ (s ≡ some k))
try_lock-granted k none e = (refl, inl refl)
try_lock-granted k (some j) e =
    let same : j ≡ k = ground arith in (rw same refl, inr (rw same refl))

try_lock-refused : (k : ℕ) (s : Option ℕ) → (try_lock k s).0 ≡ false → (try_lock k s).1 ≡ s
try_lock-refused k none e = cc
try_lock-refused k (some j) e = refl

abbrev one_holder : LockServer (Option ℕ)
one_holder = record {
  holder = λ s. s;
  try_lock = try_lock;
  unlock = drop;
  end_session = drop;
  granted = try_lock-granted;
  refused = try_lock-refused;
  unlocked = drop-other;
  ended = drop-other;
}

-- the second process is refused, until the session of the first one is lost
abbrev story : List (Event one_holder)
story =
    operates 1 (try_acquire (answered 41 true))
    ∷ operates 2 (try_acquire (answered 42 true))
    ∷ operates 2 close
    ∷ loses 1
    ∷ operates 1 release
    ∷ operates 2 (try_acquire no_pid)
    ∷ operates 2 (try_acquire (answered 42 true))
    ∷ []

abbrev world : World one_holder
world = record { processes = λ _. record { lock = new_lock; alive = false }; state = none }

second_holds : ((act_all one_holder story world).processes 2).lock.held ≡ true
unfolding operate
second_holds = refl

second_stands : ((act_all one_holder story world).processes 2).alive ≡ true
unfolding operate
second_stands = refl

-- the object of the first process still says so
first_believes : ((act_all one_holder story world).processes 1).lock.held ≡ true
unfolding operate
first_believes = refl

act_all-held_example : ◌≡◌ {A = ℕ} 2 2
act_all-held_example =
    act_all-held one_holder story world 2 2 (λ _. refl) second_holds second_stands second_holds
      second_stands

bigint_of-advisory_lock_parts_example :
    bigint_of (advisory_lock_parts (negsuc 739200)) ≡ negsuc 739200
bigint_of-advisory_lock_parts_example = bigint_of-advisory_lock_parts (negsuc 739200) (omega arith)

-- ===== src/Lock/Laws.antt =====
-- At most one process with a standing session believes that it holds the lock.
use predictor.Prelude.{
  ℕ, ◌≡◌, subst, ◌∙◌, Bool, true, false, not, ◌&&◌, ◌||◌, Option, some, List, [], ◌∷◌, arith,
  Bool-cases, inl, inr, ◌==◌,
}
use predictor.Lock.{
  LockServer, Attempt, no_connection, lost_at_pid, no_pid, lost_at_lock, answered, Reply, Operation,
  try_acquire, release, close, Process, World, Event, operates, loses, acquire, give_back, operate,
  put, act, act_all,
}

clash : {b : Bool} → b ≡ false → b ≡ true → ⊥
clash e f = cc

some-same : {o : Option ℕ} {i j : ℕ} → o ≡ some i → o ≡ some j → i ≡ j
some-same e f = cc

module _ {Server : Type 0} (server : LockServer Server) where
  -- What a process with a standing session believes is so.
  abbrev Believes : ℕ → Process → Server → Type 0
  Believes k p s = p.lock.held ≡ true → p.alive ≡ true → server.holder s ≡ some k

  -- Who holds the lock beside `k` holds it afterwards.
  abbrev Spares : ℕ → Server → Server → Type 0
  Spares k before after =
      (j : ℕ) → (j == k) ≡ false → server.holder before ≡ some j → server.holder after ≡ some j

  try_lock-Spares : (k : ℕ) (s : Server) → Spares k s (server.try_lock k s).1
  try_lock-Spares k s j other holds = elim (Bool-cases (server.try_lock k s).0) [
    | inr no_lock ↦ server.refused k s no_lock ∙ holds
    | inl got ↦
        let (mine, before) = server.granted k s got in
        elim before [ inl free ↦ cc | inr self ↦ let same : j ≡ k = cc in absurd (ground arith) ]
  ]

  -- An operation leaves the process right about itself, and spares the others.
  record IsFair (k : ℕ) (before : Server) (after : Reply × Process × Server) : Type 0 where
    self : Believes k after.1 after.2
    others : Spares k before after.2

  and_right : (a b : Bool) → (a && b) ≡ true → b ≡ true
  and_right true b e = e
  and_right false b e = cc

  ends-Spares : (k : ℕ) (s : Server) → Spares k s (server.end_session k s)
  ends-Spares k s j other holds = server.ended j k s other holds

  acquire-IsFair :
      (k : ℕ) (attempt : Attempt) (p : Process) (s : Server)
      → Believes k p s
      → IsFair k s (acquire server k attempt p s)
  acquire-IsFair k no_connection p s h = record { self = h; others = λ j other holds. holds }
  acquire-IsFair k lost_at_pid p s h = record { self = λ held e. cc; others = ends-Spares k s }
  acquire-IsFair k no_pid p s h = record { self = λ held e. cc; others = ends-Spares k s }
  acquire-IsFair k (lost_at_lock pid) p s h = record {
    self = λ held e. cc;
    others = λ j other holds.
        ends-Spares k (server.try_lock k s).1 j other (try_lock-Spares k s j other holds);
  }
  acquire-IsFair k (answered pid row) p s h = record {
    self = λ held e. (server.granted k s (and_right row (server.try_lock k s).0 held)).0;
    others = try_lock-Spares k s;
  }

  give_back-IsFair :
      (k : ℕ) (p : Process) (s : Server) → Believes k p s → IsFair k s (give_back server k p s)
  give_back-IsFair k p s h = elim (Bool-cases p.alive) [
    | inl e ↦ simp e (record {
      self = λ held stands. cc;
      others = λ j other holds. server.unlocked j k s other holds;
    })
    | inr e ↦ simp e (record { self = h; others = λ j other holds. holds })
  ]

  operate-IsFair :
      (k : ℕ) (operation : Operation) (p : Process) (s : Server)
      → Believes k p s
      → IsFair k s (operate server k operation p s)
  unfolding operate
  operate-IsFair k (try_acquire attempt) p s h = elim (Bool-cases p.lock.conn) [
    | inl e ↦ simp e (record { self = h; others = λ j other holds. holds })
    | inr e ↦ simp e (acquire-IsFair k attempt p s h)
  ]
  operate-IsFair k release p s h = elim (Bool-cases (not p.lock.conn || not p.lock.held)) [
    | inl e ↦ rw e (record { self = h; others = λ j other holds. holds })
    | inr e ↦ rw e (give_back-IsFair k p s h)
  ]
  operate-IsFair k close p s h = elim (Bool-cases p.lock.conn) [
    | inr e ↦ simp e (record { self = h; others = λ j other holds. holds })
    | inl e ↦ simp e (record { self = λ held stands. cc; others = ends-Spares k s })
  ]

  abbrev AllBelieve : World server → Type 0
  AllBelieve w = (j : ℕ) → Believes j (w.processes j) w.state

  -- A change of one process that is right about itself and spares the others.
  put-AllBelieve :
      (k : ℕ) (p : Process) (s : Server) (w : World server)
      → Believes k p s
      → Spares k w.state s
      → AllBelieve w
      → AllBelieve (put server k p s w)
  put-AllBelieve k p s w self others h j = elim (Bool-cases (j == k)) [
    | inl e ↦ let same : k ≡ j = ground arith in rw e (subst (λ i. Believes i p s) same self)
    | inr e ↦ rw e (λ held stands. others j e (h j held stands))
  ]

  act-AllBelieve :
      (event : Event server) (w : World server) → AllBelieve w → AllBelieve (act server event w)
  act-AllBelieve (operates k operation) w h =
      let fair = operate-IsFair k operation (w.processes k) w.state (h k) in
      put-AllBelieve k _ _ w fair.self fair.others h
  act-AllBelieve (loses k) w h =
      put-AllBelieve k (record (w.processes k) { alive = false }) (server.end_session k w.state) w
        (λ held stands. cc) (ends-Spares k w.state) h

  act_all-AllBelieve :
      (events : List (Event server)) (w : World server)
      → AllBelieve w
      → AllBelieve (act_all server events w)
  act_all-AllBelieve [] w h = h
  act_all-AllBelieve (event ∷ events) w h =
      act_all-AllBelieve events (act server event w) (act-AllBelieve event w h)

  -- Whatever the processes do with their locks, in any interleaving, and wherever a connection fails
  -- or is lost: if nobody believed to hold the lock at first, two processes that both believe so, and
  -- whose sessions still stand, are one. (An object whose session is gone may go on believing.)
  pub act_all-held :
      (events : List (Event server)) (w : World server) (i j : ℕ)
      → ((k : ℕ) → (w.processes k).lock.held ≡ false)
      → ((act_all server events w).processes i).lock.held ≡ true
      → ((act_all server events w).processes i).alive ≡ true
      → ((act_all server events w).processes j).lock.held ≡ true
      → ((act_all server events w).processes j).alive ≡ true
      → i ≡ j
  act_all-held events w i j nobody mine here yours there =
      let all = act_all-AllBelieve events w (λ k held stands. absurd (clash (nobody k) held)) in
      some-same (all i mine here) (all j yours there)

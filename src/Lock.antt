-- ===== src/Lock.antt =====
-- The lock of the single writer (services/lock.py): `advisory_lock_parts`, and `WriterLock` as the
-- state of each process beside the server, whose lock functions are a parameter.
mod Laws
mod KeyLaws
mod Tests
use predictor.Prelude.{
  ℕ, ◌+◌, ◌-◌, ◌*◌, ◌/◌, ◌%◌, ◌^◌, ◌≡◌, ◌⊎◌, Bool, true, false, not, Option, none, some, List, [],
  ◌∷◌, ◌&&◌, ◌||◌, ◌==◌, if◌then◌else◌,
}
use predictor.Prelude.Int.{ℤ, pos, negsuc}

-- `(key >> 32) & 0xFFFFFFFF` and `key & 0xFFFFFFFF`; a negative number is in two's complement
unfoldable pub advisory_lock_parts : ℤ → ℕ × ℕ
advisory_lock_parts (pos n) = (n / 2 ^ 32 % 2 ^ 32, n % 2 ^ 32)
advisory_lock_parts (negsuc n) = (2 ^ 32 - 1 - n / 2 ^ 32 % 2 ^ 32, 2 ^ 32 - 1 - n % 2 ^ 32)

-- the fields of a `WriterLock`: whether it has a connection, and what it believes
pub record WriterLock : Type 0 where
  pub conn : Bool
  pub held : Bool
  pub backend_pid : Option ℕ

abbrev pub new_lock : WriterLock
new_lock = record { conn = false; held = false; backend_pid = none }

-- The server's advisory lock on the key, by sessions: `pg_try_advisory_lock`, `pg_advisory_unlock` of
-- a session that took it once, and the end of a session.
pub record LockServer (Server : Type 0) : Type 0 where
  pub holder : Server → Option ℕ
  pub try_lock : ℕ → Server → Bool × Server
  pub unlock : ℕ → Server → Server
  pub end_session : ℕ → Server → Server
  pub granted :
      (k : ℕ) (s : Server)
      → (try_lock k s).0 ≡ true
      → (holder (try_lock k s).1 ≡ some k) × ((holder s ≡ none) ⊎ (holder s ≡ some k))
  pub refused : (k : ℕ) (s : Server) → (try_lock k s).0 ≡ false → holder (try_lock k s).1 ≡ holder s
  pub unlocked :
      (j k : ℕ) (s : Server) → (j == k) ≡ false → holder s ≡ some j → holder (unlock k s) ≡ some j
  pub ended :
      (j k : ℕ) (s : Server)
      → (j == k) ≡ false
      → holder s ≡ some j
      → holder (end_session k s) ≡ some j

-- What an acquisition meets: no connection; a connection that is lost at the first question or at the
-- second; no row with the process id; or the id and whether the lock's row came back.
pub data Attempt : Type 0 where
  no_connection lost_at_pid no_pid : Attempt
  lost_at_lock : ℕ → Attempt
  answered : ℕ → Bool → Attempt

-- what an operation returns or raises
pub data Reply : Type 0 where
  returned : Bool → Reply
  runtime_error connection_error : Reply

-- what a process does with its lock
pub data Operation : Type 0 where
  try_acquire : Attempt → Operation
  release close : Operation

-- the object of a process, and whether the session of its connection still stands
pub record Process : Type 0 where
  pub lock : WriterLock
  pub alive : Bool

module _ {Server : Type 0} (server : LockServer Server) where
  -- the last question of `try_acquire`
  abbrev pub try_held : ℕ → ℕ → Bool → Bool × Server → Reply × Process × Server
  try_held k pid row (granted, s) = (
    returned (row && granted),
    record {
      lock = record { conn = true; held = row && granted; backend_pid = some pid };
      alive = true;
    },
    s,
  )

  -- the connected part of `try_acquire`; an error of a question leaves the connection in the object
  abbrev pub acquire : ℕ → Attempt → Process → Server → Reply × Process × Server
  acquire k no_connection p s = (connection_error, p, s)
  acquire k lost_at_pid p s = (
    connection_error,
    record { lock = record p.lock { conn = true }; alive = false },
    server.end_session k s,
  )
  acquire k no_pid p s = (
    runtime_error,
    record { lock = record p.lock { conn = false; held = false }; alive = false },
    server.end_session k s,
  )
  acquire k (lost_at_lock pid) p s = (
    connection_error,
    record { lock = record p.lock { conn = true; backend_pid = some pid }; alive = false },
    server.end_session k (server.try_lock k s).1,
  )
  acquire k (answered pid row) p s = try_held k pid row (server.try_lock k s)

  -- `release` of a lock that is believed to be held: on a lost connection the question raises
  abbrev pub give_back : ℕ → Process → Server → Reply × Process × Server
  give_back k p s =
      if p.alive
      then (returned false, record p { lock = record p.lock { held = false } }, server.unlock k s)
      else (connection_error, p, s)

  -- one method of `WriterLock`: what it returns or raises, the process and the server afterwards
  unfoldable pub operate : ℕ → Operation → Process → Server → Reply × Process × Server
  operate k (try_acquire attempt) p s =
      if p.lock.conn then (runtime_error, p, s) else acquire k attempt p s
  operate k release p s =
      if not p.lock.conn || not p.lock.held then (returned false, p, s) else give_back k p s
  operate k close p s =
      if p.lock.conn
      then (
        returned false,
        record { lock = record p.lock { conn = false; held = false }; alive = false },
        server.end_session k s,
      )
      else (returned false, p, s)

  -- all processes, and the server
  pub record World : Type 0 where
    pub processes : ℕ → Process
    pub state : Server

  -- a method of one process, or the loss of its connection, of which its object learns nothing
  pub data Event : Type 0 where
    operates : ℕ → Operation → Event
    loses : ℕ → Event

  abbrev put : ℕ → Process → Server → World → World
  put k p s w = record { processes = λ j. if j == k then p else w.processes j; state = s }

  abbrev pub act : Event → World → World
  act (operates k operation) w =
      let (reply, p, s) = operate k operation (w.processes k) w.state in put k p s w
  act (loses k) w =
      put k (record (w.processes k) { alive = false }) (server.end_session k w.state) w

  abbrev pub act_all : List Event → World → World
  act_all [] w = w
  act_all (event ∷ events) w = act_all events (act event w)

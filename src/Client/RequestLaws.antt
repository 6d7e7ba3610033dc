-- ===== src/Client/RequestLaws.antt =====
-- What a request guarantees, over all its attempts and whatever the network answers.
use predictor.Prelude.{
  ℕ, zero, suc, ◌+◌, ◌≡◌, refl, String, Bool, true, false, not, ◌&&◌, arith, Bool-cases, inl, inr,
  subst, sym, ◌∙◌, str_eq,
}
use predictor.Client.State.{
  Client, Error, writer_lock_required, auth_blocked_error, quota_exhausted,
}
use predictor.Client.Window.{refuse_closed_window, note_call}
use predictor.Client.Request.{
  Exchange, Reply, transport_error, answered, Result, raised, receive, send_if, send_once,
  is_retryable, attempt, request, daily_quota_blocked,
}
use predictor.Client.WindowLaws.{IsCapped, receive-IsFramed, send_once-IsCapped}

attempt-IsCapped :
    (exchange : ℕ → Exchange) (left i : ℕ) (c : Client)
    → IsCapped c
    → IsCapped (attempt exchange left i c).1
unfolding attempt
attempt-IsCapped exchange zero i c h = send_once-IsCapped (exchange i) c h
attempt-IsCapped exchange (suc left) i c h =
    let capped = send_once-IsCapped (exchange i) c h in
    elim (Bool-cases (is_retryable (send_once (exchange i) c).0)) [
      | inl again ↦
          rw again (attempt-IsCapped exchange left (i + 1) (send_once (exchange i) c).1 capped)
      | inr stop ↦ rw stop capped
    ]

-- what holds of a request that is refused and of one that is sent
request-cases :
    (P : Result × Client → Type 0) (exchange : ℕ → Exchange) (now : ℕ) (path : String) (c : Client)
    → ((e : Error) → P (raised e, c))
    → P (attempt exchange 4 0 c)
    → P (request exchange now path c)
unfolding request
request-cases P exchange now path c refused sent = elim (Bool-cases (not c.locked)) [
  | inl e ↦
      subst P {x = (raised writer_lock_required, c)} (sym (simp (e))) (refused writer_lock_required)
  | inr l ↦ elim (Bool-cases c.auth_blocked) [
    | inl e ↦
        subst P {x = (raised auth_blocked_error, c)} (sym (simp (l, e)))
          (refused auth_blocked_error)
    | inr a ↦ elim (Bool-cases (daily_quota_blocked now c && not (str_eq path "/status"))) [
      | inl e ↦
          subst P {x = (raised quota_exhausted, c)} (sym (simp (l, a, e))) (refused quota_exhausted)
      | inr q ↦ subst P {x = attempt exchange 4 0 c} (sym (simp (l, a, q))) sent
    ]
  ]
]

-- A request in an open history window never takes the calls of the client past the window's
-- ceiling: whatever the answers and however often it is tried again, the bound that held before it
-- holds after it.
pub request-IsCapped :
    (exchange : ℕ → Exchange) (now : ℕ) (path : String) (c : Client)
    → IsCapped c
    → IsCapped (request exchange now path c).1
request-IsCapped exchange now path c h =
    request-cases (λ r. IsCapped r.1) exchange now path c (λ _. h)
      (attempt-IsCapped exchange 4 0 c h)

refuse-lock : (x : Exchange) (c : Client) → (refuse_closed_window x.readings c).1.locked ≡ c.locked
unfolding refuse_closed_window
refuse-lock x c = ground arith

note_call-lock : (now : ℕ) (c : Client) → (note_call now c).locked ≡ c.locked
unfolding note_call
note_call-lock now c = ground arith

send_if-lock : (r : Bool × Client) (x : Exchange) → (send_if r x).1.locked ≡ r.1.locked
send_if-lock (true, c) x = refl
send_if-lock (false, c) x =
    (receive-IsFramed x.now x.reply (note_call x.sent_at c)).lock ∙ note_call-lock x.sent_at c

send_once-lock : (x : Exchange) (c : Client) → (send_once x c).1.locked ≡ c.locked
unfolding send_once
send_once-lock x c = send_if-lock (refuse_closed_window x.readings c) x ∙ refuse-lock x c

attempt-lock :
    (exchange : ℕ → Exchange) (left i : ℕ) (c : Client)
    → c.locked ≡ true
    → (attempt exchange left i c).1.locked ≡ true
unfolding attempt
attempt-lock exchange zero i c l = send_once-lock (exchange i) c ∙ l
attempt-lock exchange (suc left) i c l =
    let once = send_once-lock (exchange i) c ∙ l in
    elim (Bool-cases (is_retryable (send_once (exchange i) c).0)) [
      | inl again ↦ rw again (attempt-lock exchange left (i + 1) (send_once (exchange i) c).1 once)
      | inr stop ↦ rw stop once
    ]

-- That an answer in `result` which refuses the key has closed the client.
record IsClosing (result : Result × Client) : Type 0 where
  closed : result.0 ≡ raised auth_blocked_error → result.1.auth_blocked ≡ true

receive-IsClosing : (now : ℕ) (reply : Reply) (c : Client) → IsClosing (receive now reply c)
unfolding receive
receive-IsClosing now transport_error c = ground arith
receive-IsClosing now (answered r) c = ground arith

send_if-IsClosing : (r : Bool × Client) (x : Exchange) → IsClosing (send_if r x)
send_if-IsClosing (true, c) x = ground arith
send_if-IsClosing (false, c) x = receive-IsClosing x.now x.reply (note_call x.sent_at c)

send_once-IsClosing : (x : Exchange) (c : Client) → IsClosing (send_once x c)
unfolding send_once
send_once-IsClosing x c = send_if-IsClosing (refuse_closed_window x.readings c) x

attempt-IsClosing :
    (exchange : ℕ → Exchange) (left i : ℕ) (c : Client) → IsClosing (attempt exchange left i c)
unfolding attempt
attempt-IsClosing exchange zero i c = send_once-IsClosing (exchange i) c
attempt-IsClosing exchange (suc left) i c =
    elim (Bool-cases (is_retryable (send_once (exchange i) c).0)) [
      | inl again ↦ rw again (attempt-IsClosing exchange left (i + 1) (send_once (exchange i) c).1)
      | inr stop ↦ rw stop (send_once-IsClosing (exchange i) c)
    ]

-- a client whose key is refused refuses every request
request-refuses :
    (exchange : ℕ → Exchange) (now : ℕ) (path : String) (c : Client)
    → c.locked ≡ true
    → c.auth_blocked ≡ true
    → request exchange now path c ≡ (raised auth_blocked_error, c)
unfolding request
request-refuses exchange now path c l a = simp (l, a)

-- An answer that refuses the key closes the client for good: when a request that was sent ends in
-- that error, every later request, on any path and at any time, is refused the same way and leaves
-- the client as it is, no call counted.
pub attempt-request-closed :
    (exchange later : ℕ → Exchange) (left i now : ℕ) (path : String) (c : Client)
    → c.locked ≡ true
    → (attempt exchange left i c).0 ≡ raised auth_blocked_error
    → request later now path (attempt exchange left i c).1
      ≡ (raised auth_blocked_error, (attempt exchange left i c).1)
attempt-request-closed exchange later left i now path c l e =
    request-refuses later now path (attempt exchange left i c).1 (attempt-lock exchange left i c l)
      ((attempt-IsClosing exchange left i c).closed e)

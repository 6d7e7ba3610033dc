-- ===== src/Client/WindowLaws.antt =====
-- What an open spend window guarantees: its ceiling of calls and its two minute budgets.
use predictor.Prelude.{ℕ, ◌≤◌, ◌<◌, ◌≡◌, refl, Bool, true, false, arith, is_some}
use predictor.Client.State.{Client}
use predictor.Client.Window.{Readings, refuse_closed_window, note_call}
use predictor.Client.Request.{
  Exchange, Reply, transport_error, answered, receive, send_if, send_once,
}

-- What reading an answer leaves alone.
pub record IsFramed (c c' : Client) : Type 0 where
  pub lock : c'.locked ≡ c.locked
  pub calls : c'.calls_made ≡ c.calls_made
  pub marks : c'.call_marks ≡ c.call_marks
  pub history : c'.history_marks ≡ c.history_marks
  pub deadline : c'.window_deadline ≡ c.window_deadline
  pub ceiling : c'.window_ceiling ≡ c.window_ceiling
  pub per_minute : c'.window_per_minute ≡ c.window_per_minute
  pub vendor : c'.vendor_per_minute ≡ c.vendor_per_minute

pub receive-IsFramed : (now : ℕ) (reply : Reply) (c : Client) → IsFramed c (receive now reply c).1
unfolding receive
receive-IsFramed now transport_error c = ground arith
receive-IsFramed now (answered r) c = ground arith

-- A window is open, and the calls made are within its ceiling.
pub record IsCapped (c : Client) : Type 0 where
  pub window : is_some c.window_deadline ≡ true
  pub within : c.calls_made ≤ c.window_ceiling

refuse-IsCapped : (r : Readings) (c : Client) → IsCapped c → IsCapped (refuse_closed_window r c).1
unfolding refuse_closed_window
refuse-IsCapped r c h = ground arith

refuse_below :
    (r : Readings) (c : Client)
    → IsCapped c
    → (refuse_closed_window r c).0 ≡ false
    → (refuse_closed_window r c).1.calls_made < (refuse_closed_window r c).1.window_ceiling
unfolding refuse_closed_window
refuse_below r c h e = ground arith

note_call-IsCapped :
    (now : ℕ) (c : Client)
    → is_some c.window_deadline ≡ true
    → c.calls_made < c.window_ceiling
    → IsCapped (note_call now c)
unfolding note_call
note_call-IsCapped now c w h = ground arith

IsFramed-IsCapped : {c c' : Client} → IsFramed c c' → IsCapped c → IsCapped c'
IsFramed-IsCapped f h = ground arith

send_if-IsCapped :
    (r : Bool × Client) (x : Exchange)
    → IsCapped r.1
    → (r.0 ≡ false → r.1.calls_made < r.1.window_ceiling)
    → IsCapped (send_if r x).1
send_if-IsCapped (true, c) x h below = h
send_if-IsCapped (false, c) x h below =
    IsFramed-IsCapped (receive-IsFramed x.now x.reply (note_call x.sent_at c))
      (note_call-IsCapped x.sent_at c h.window (below refl))

pub send_once-IsCapped : (x : Exchange) (c : Client) → IsCapped c → IsCapped (send_once x c).1
unfolding send_once
send_once-IsCapped x c h =
    send_if-IsCapped (refuse_closed_window x.readings c) x (refuse-IsCapped x.readings c h)
      (refuse_below x.readings c h)

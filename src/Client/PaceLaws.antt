-- ===== src/Client/PaceLaws.antt =====
-- How many calls of a spend window fall into a minute, counted from the times at which they were sent.
use predictor.Prelude.{
  ℕ, ◌≤◌, ◌<◌, ◌≡◌, ◌⊎◌, refl, sym, subst, ap, ◌∙◌, Bool, true, false, List, [], ◌∷◌, ◌++◌, arith,
  length, length-append, inl, inr, is_some, if◌then◌else◌,
}
use predictor.Client.State.{Client, spend_window_closed}
use predictor.Client.Window.{
  Readings, minute, recent, refuse_closed_window, window_full, count_history, calls_in_recent,
  note_call,
}
use predictor.Client.Request.{
  Exchange, Reply, transport_error, answered, Result, raised, receive, send_if, send_once,
}
use predictor.Client.MarkLaws.{
  in_minute, Tracks, later, recent-Tracks, snoc-Tracks, Tracks-in_minute,
}
use predictor.Client.WindowLaws.{IsFramed, receive-IsFramed}

-- the attempt was not sent: the window is closed
abbrev pub is_refused : Result → Bool
is_refused (raised spend_window_closed) = true
is_refused _ = false

-- the times at which calls were sent, oldest first: all of them, and those of the window
pub record Log : Type 0 where
  pub all : List ℕ
  pub own : List ℕ

abbrev add : Bool → ℕ → Log → Log
add refused t log =
    if refused then log else record { all = log.all ++ t ∷ []; own = log.own ++ t ∷ [] }

abbrev pub sent : Exchange → Client → Log → Log
sent x c log = add (is_refused (send_once x c).0) x.sent_at log

-- The window is open on its budgets, and both lists of marks track the times sent.
pub record Kept (vendor own t : ℕ) (log : Log) (c : Client) : Type 0 where
  pub window : is_some c.window_deadline ≡ true
  pub vendor_budget : c.vendor_per_minute ≡ vendor
  pub own_budget : c.window_per_minute ≡ own
  pub all_marks : Tracks t c.call_marks log.all
  pub own_marks : Tracks t c.history_marks log.own

refuse-framed :
    (r : Readings) (c : Client)
    → ((refuse_closed_window r c).1.window_deadline ≡ c.window_deadline)
      × ((refuse_closed_window r c).1.vendor_per_minute ≡ c.vendor_per_minute)
      × ((refuse_closed_window r c).1.window_per_minute ≡ c.window_per_minute)
unfolding refuse_closed_window window_full count_history calls_in_recent
refuse-framed r c = ground arith

refuse-call_marks :
    (r : Readings) (c : Client)
    → ((refuse_closed_window r c).1.call_marks ≡ c.call_marks)
      ⊎ ((refuse_closed_window r c).1.call_marks ≡ recent r.at_vendor minute c.call_marks)
unfolding refuse_closed_window window_full count_history calls_in_recent
refuse-call_marks r c = ground arith

refuse-history_marks :
    (r : Readings) (c : Client)
    → ((refuse_closed_window r c).1.history_marks ≡ c.history_marks)
      ⊎ ((refuse_closed_window r c).1.history_marks ≡ recent r.at_history minute c.history_marks)
unfolding refuse_closed_window window_full count_history calls_in_recent
refuse-history_marks r c = ground arith

-- room for one more call in both budgets
record HasRoom (c : Client) : Type 0 where
  own : length c.history_marks < c.window_per_minute
  all : length c.call_marks < c.vendor_per_minute

refuse-HasRoom :
    (r : Readings) (c : Client)
    → is_some c.window_deadline ≡ true
    → (refuse_closed_window r c).0 ≡ false
    → HasRoom (refuse_closed_window r c).1
unfolding refuse_closed_window
refuse-HasRoom r c w e = ground arith

-- The clock does not go back: its readings for the history, for all calls, and for the mark.
pub record IsOrdered (t : ℕ) (x : Exchange) : Type 0 where
  pub history : t ≤ x.readings.at_history
  pub vendor : x.readings.at_history ≤ x.readings.at_vendor
  pub mark : x.readings.at_vendor ≤ x.sent_at

module _ (vendor own t : ℕ) (log : Log) (x : Exchange) (c : Client) where
  refuse-Kept :
      IsOrdered t x
      → Kept vendor own t log c
      → Kept vendor own x.sent_at log (refuse_closed_window x.readings c).1
  refuse-Kept clock kept =
      let (deadline, of_vendor, of_own) = refuse-framed x.readings c in
      record {
        window = ap is_some deadline ∙ kept.window;
        vendor_budget = of_vendor ∙ kept.vendor_budget;
        own_budget = of_own ∙ kept.own_budget;
        all_marks = elim (refuse-call_marks x.readings c) [
          | inl e ↦ rw e (
              later t x.sent_at c.call_marks log.all
                (omega (arith, clock.history, clock.vendor, clock.mark)) kept.all_marks)
          | inr e ↦ rw e (
              later x.readings.at_vendor x.sent_at _ log.all clock.mark (
                recent-Tracks t x.readings.at_vendor c.call_marks log.all
                  (omega (arith, clock.history, clock.vendor)) kept.all_marks))
        ];
        own_marks = elim (refuse-history_marks x.readings c) [
          | inl e ↦ rw e (
              later t x.sent_at c.history_marks log.own
                (omega (arith, clock.history, clock.vendor, clock.mark)) kept.own_marks)
          | inr e ↦ rw e (
              later x.readings.at_history x.sent_at _ log.own
                (omega (arith, clock.vendor, clock.mark))
                (recent-Tracks t x.readings.at_history c.history_marks log.own clock.history
                  kept.own_marks))
        ];
      }

-- what `_note_call` does in an open window
record IsNoted (now : ℕ) (c c' : Client) : Type 0 where
  marks : c'.call_marks ≡ c.call_marks ++ now ∷ []
  history : c'.history_marks ≡ c.history_marks ++ now ∷ []
  deadline : c'.window_deadline ≡ c.window_deadline
  vendor : c'.vendor_per_minute ≡ c.vendor_per_minute
  per_minute : c'.window_per_minute ≡ c.window_per_minute

note_call-IsNoted :
    (now : ℕ) (c : Client) → is_some c.window_deadline ≡ true → IsNoted now c (note_call now c)
unfolding note_call
note_call-IsNoted now c w = ground arith

receive-open : (now : ℕ) (reply : Reply) (c : Client) → is_refused (receive now reply c).0 ≡ false
unfolding receive
receive-open now transport_error c = refl
receive-open now (answered r) c = ground arith

-- What an attempt leaves: the times are tracked, and it was refused or is within both budgets.
abbrev Step : ℕ → ℕ → ℕ → Log → Result × Client → Type 0
Step vendor own now log r =
    Kept vendor own now (add (is_refused r.0) now log) r.1
    × ((is_refused r.0 ≡ true)
        ⊎ ((in_minute now (add (is_refused r.0) now log).all ≤ vendor)
            × (in_minute now (add (is_refused r.0) now log).own ≤ own)))

IsNoted-Kept :
    (vendor own now : ℕ) (log : Log) (c c' : Client)
    → IsNoted now c c'
    → Kept vendor own now log c
    → Kept vendor own now (add false now log) c'
IsNoted-Kept vendor own now log c c' noted kept = record {
  window = ap is_some noted.deadline ∙ kept.window;
  vendor_budget = noted.vendor ∙ kept.vendor_budget;
  own_budget = noted.per_minute ∙ kept.own_budget;
  all_marks =
      subst (λ m. Tracks now m (log.all ++ now ∷ [])) (sym noted.marks)
        (snoc-Tracks now now c.call_marks log.all kept.all_marks);
  own_marks =
      subst (λ m. Tracks now m (log.own ++ now ∷ [])) (sym noted.history)
        (snoc-Tracks now now c.history_marks log.own kept.own_marks);
}

IsFramed-Kept :
    {vendor own now : ℕ} {log : Log} {c c' : Client}
    → IsFramed c c'
    → Kept vendor own now log c
    → Kept vendor own now log c'
IsFramed-Kept {now = now} {log = log} f kept = record {
  window = ap is_some f.deadline ∙ kept.window;
  vendor_budget = f.vendor ∙ kept.vendor_budget;
  own_budget = f.per_minute ∙ kept.own_budget;
  all_marks = subst (λ m. Tracks now m log.all) (sym f.marks) kept.all_marks;
  own_marks = subst (λ m. Tracks now m log.own) (sym f.history) kept.own_marks;
}

-- The marks are one more than there was room for.
noted-Step :
    (vendor own now : ℕ) (log : Log) (c : Client) (wall : ℕ) (reply : Reply)
    → HasRoom c
    → Kept vendor own now log c
    → Step vendor own now log (receive wall reply (note_call now c))
noted-Step vendor own now log c wall reply room kept =
    let noted = note_call-IsNoted now c kept.window in
    let after = IsNoted-Kept vendor own now log c (note_call now c) noted kept in
    let all =
      Tracks-in_minute now (note_call now c).call_marks (log.all ++ now ∷ []) after.all_marks in
    let mine =
      Tracks-in_minute now (note_call now c).history_marks (log.own ++ now ∷ []) after.own_marks in
    rw (receive-open wall reply (note_call now c)) (
      IsFramed-Kept (receive-IsFramed wall reply (note_call now c)) after,
      inr (
        omega (
          arith,
          all,
          ap length noted.marks,
          length-append c.call_marks (now ∷ []),
          room.all,
          kept.vendor_budget,
        ),
        omega (
          arith,
          mine,
          ap length noted.history,
          length-append c.history_marks (now ∷ []),
          room.own,
          kept.own_budget,
        ),
      ),
    )

send_if-Step :
    (vendor own : ℕ) (log : Log) (x : Exchange) (r : Bool × Client)
    → (r.0 ≡ false → HasRoom r.1)
    → Kept vendor own x.sent_at log r.1
    → Step vendor own x.sent_at log (send_if r x)
send_if-Step vendor own log x (true, c) room kept = (kept, inl refl)
send_if-Step vendor own log x (false, c) room kept =
    noted-Step vendor own x.sent_at log c x.now x.reply (room refl) kept

send_once-Step :
    (vendor own t : ℕ) (log : Log) (x : Exchange) (c : Client)
    → IsOrdered t x
    → Kept vendor own t log c
    → Step vendor own x.sent_at log (send_once x c)
unfolding send_once
send_once-Step vendor own t log x c clock kept =
    send_if-Step vendor own log x (refuse_closed_window x.readings c)
      (refuse-HasRoom x.readings c kept.window) (refuse-Kept vendor own t log x c clock kept)

-- the readings of all attempts, one behind the other
abbrev pub AllOrdered : ℕ → List Exchange → Type 0
AllOrdered t [] = Unit
AllOrdered t (x ∷ xs) = IsOrdered t x × AllOrdered x.sent_at xs

-- Each attempt is refused, or else the calls of the minute behind it are within both budgets.
abbrev pub IsPaced : ℕ → ℕ → List Exchange → Client → Log → Type 0
IsPaced vendor own [] c log = Unit
IsPaced vendor own (x ∷ xs) c log =
    let after = sent x c log in
    ((is_refused (send_once x c).0 ≡ true)
      ⊎ ((in_minute x.sent_at after.all ≤ vendor) × (in_minute x.sent_at after.own ≤ own)))
    × IsPaced vendor own xs (send_once x c).1 after

-- In an open history window, whatever is answered: each attempt is refused as outside the window, or
-- it is sent, and then of all calls that were sent, no more fall into the last minute than the vendor
-- allows, and of those of the window no more than its own budget. The marks at the start are the calls
-- sent before, but for some that are older than a minute, and the clock does not go back.
pub send_once-IsPaced :
    (vendor own t : ℕ) (xs : List Exchange) (log : Log) (c : Client)
    → AllOrdered t xs
    → Kept vendor own t log c
    → IsPaced vendor own xs c log
send_once-IsPaced vendor own t [] log c clock kept = tt
send_once-IsPaced vendor own t (x ∷ xs) log c (clock, later) kept =
    let (next, paced) = send_once-Step vendor own t log x c clock kept in
    (paced, send_once-IsPaced vendor own x.sent_at xs (sent x c log) (send_once x c).1 later next)

-- ===== src/Client/Window.antt =====
-- The minute marks and the spend window of `FootballClient`. An operation that reads the clock
-- takes the reading; `or` reads no further once it is decided, so a later count is not taken.
use predictor.Prelude.{
  ℕ, ◌+◌, ◌-◌, ◌*◌, min, Bool, true, false, Option, none, some, List, [], ◌∷◌, ◌++◌, ltb, leb,
  length, if◌then◌else◌,
}
use predictor.Prelude.Time.{second}
use predictor.Client.State.{Client}
use predictor.Client.Lane.{LaneSplit}

abbrev pub minute : ℕ
minute = 60 * second

-- `_recent`: the marks that are left; the oldest stand first
unfoldable pub recent : ℕ → ℕ → List ℕ → List ℕ
recent now seconds [] = []
recent now seconds (mark ∷ marks) =
    let rest = recent now seconds marks in if ltb (mark + seconds) now then rest else mark ∷ marks

unfoldable pub apply_lane : LaneSplit → Client → Client
apply_lane split c = record c {
  live_per_minute = split.live_per_minute;
  history_per_minute = split.history_per_minute;
  live_concurrency = split.live_concurrency;
  history_concurrency = split.history_concurrency;
}

unfoldable pub open_history_window : ℕ → ℕ → ℕ → Client → Client
open_history_window deadline call_ceiling per_minute c = record c {
  window_deadline = some deadline;
  window_ceiling = call_ceiling;
  window_per_minute = per_minute;
}

unfoldable pub close_history_window : Client → Client
close_history_window c = record c { window_deadline = none }

-- a count of recent marks, and the client without the old ones
unfoldable pub count_history : ℕ → Client → ℕ × Client
unfolding recent
count_history now c =
    let marks = recent now minute c.history_marks in
    (length marks, record c { history_marks = marks })

unfoldable pub count_live : ℕ → Client → ℕ × Client
unfolding recent
count_live now c =
    let marks = recent now minute c.live_marks in (length marks, record c { live_marks = marks })

-- `calls_in_recent_seconds`
unfoldable pub calls_in_recent : ℕ → ℕ → Client → ℕ × Client
unfolding recent
calls_in_recent seconds now c =
    let marks = recent now seconds c.call_marks in (length marks, record c { call_marks = marks })

-- the three readings of the clock in a row
pub record Readings : Type 0 where
  pub at_deadline : ℕ
  pub at_history : ℕ
  pub at_vendor : ℕ

-- `history_room`
unfoldable pub history_room : Readings → Client → Option ℕ × Client
unfolding count_history calls_in_recent
history_room r c = elim c.window_deadline [
  | none ↦ (none, c)
  | some deadline ↦
      if leb deadline r.at_deadline
      then (some 0, c)
      else let (history, c1) = count_history r.at_history c in
        let (calls, c2) = calls_in_recent minute r.at_vendor c1 in
        (
          some (
              min (min (c.window_ceiling - c.calls_made) (c.window_per_minute - history))
                (c.vendor_per_minute - calls)),
          c2,
        )
]

-- the last operand of the `or` in `_refuse_closed_window` and in the two `..._minute_full`
abbrev pub vendor_full : ℕ → Client → Bool × Client
vendor_full now c =
    let (calls, c') = calls_in_recent minute now c in (leb c.vendor_per_minute calls, c')

-- `history_minute_full`
unfoldable pub history_minute_full : Readings → Client → Bool × Client
unfolding count_history calls_in_recent
history_minute_full r c =
    let cap : ℕ = elim c.window_deadline [
      | none ↦ c.history_per_minute
      | some _ ↦ c.window_per_minute
    ] in
    let (history, c') = count_history r.at_history c in
    if leb cap history then (true, c') else vendor_full r.at_vendor c'

-- `live_minute_full`
unfoldable pub live_minute_full : Readings → Client → Bool × Client
unfolding count_live calls_in_recent
live_minute_full r c =
    let (live, c') = count_live r.at_history c in
    if leb c.live_per_minute live then (true, c') else vendor_full r.at_vendor c'

-- the counts of `_refuse_closed_window`, behind the deadline and the ceiling
unfoldable pub window_full : Readings → Client → Bool × Client
unfolding count_history calls_in_recent
window_full r c =
    let (history, c') = count_history r.at_history c in
    if leb c.window_per_minute history then (true, c') else vendor_full r.at_vendor c'

-- `_refuse_closed_window`: true if it raises `SpendWindowClosed`
unfoldable pub refuse_closed_window : Readings → Client → Bool × Client
unfolding window_full
refuse_closed_window r c = elim c.window_deadline [
  | none ↦ (false, c)
  | some deadline ↦
      if leb deadline r.at_deadline
      then (true, c)
      else if leb c.window_ceiling c.calls_made
      then (true, c)
      else window_full r c
]

-- `_note_call`
unfoldable pub note_call : ℕ → Client → Client
note_call now c = elim c.window_deadline [
  | none ↦ record c {
    calls_made = c.calls_made + 1;
    call_marks = c.call_marks ++ now ∷ [];
    live_marks = c.live_marks ++ now ∷ [];
  }
  | some _ ↦ record c {
    calls_made = c.calls_made + 1;
    call_marks = c.call_marks ++ now ∷ [];
    history_marks = c.history_marks ++ now ∷ [];
  }
]

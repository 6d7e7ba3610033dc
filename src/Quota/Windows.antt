-- ===== src/Quota/Windows.antt =====
-- The forecast of the day in services/quota.py: the windows in which matches are live, the segments
-- between their ends, and what is summed over them. Instants are microseconds in UTC.
use predictor.Prelude.{
  ℕ, ◌+◌, ◌-◌, ◌*◌, ◌/◌, min, max, ◌&&◌, Option, none, some, List, [], ◌∷◌, ◌++◌, ltb, leb, ◌==◌,
  if◌then◌else◌,
}
use predictor.Prelude.Ratio.{Ratio, whole, ◌⊕◌}
use predictor.Prelude.Time.{DateTime, naive, aware, second}
use predictor.Prelude.Result.{Result, ok, value_error, ◌>>=◌}
use predictor.Quota.{match_live_hours}

pub record KickoffLoad : Type 0 where
  pub kickoff : DateTime
  pub count : ℕ

-- `_Window`
pub record Window : Type 0 where
  pub start : ℕ
  pub end : ℕ
  pub count : ℕ

-- `_Segment`
pub record Segment : Type 0 where
  pub start : ℕ
  pub end : ℕ
  pub concurrency : ℕ

-- the `_as_utc` of this module refuses a naive time
abbrev pub utc : DateTime → Result ℕ
utc (naive _) = value_error
utc (aware t) = ok t

abbrev pub span : ℕ
span = match_live_hours * 3600 * second

-- `_resolve_forecast`: the kickoffs of the forecast, or a bare count of matches as of now
unfoldable pub resolve_forecast : Option (List KickoffLoad) → Option ℕ → ℕ → List KickoffLoad
resolve_forecast (some kickoffs) matches_left now = kickoffs
resolve_forecast none none now = []
resolve_forecast none (some matches) now =
    if matches == 0 then [] else record { kickoff = aware now; count = matches } ∷ []

abbrev pub live_window : ℕ → ℕ → ℕ → List Window
live_window now midnight live_matches =
    if ltb 0 live_matches && ltb now (min midnight (now + span))
    then record { start = now; end = min midnight (now + span); count = live_matches } ∷ []
    else []

abbrev add_window : ℕ → ℕ → ℕ → ℕ → List Window → List Window
add_window now midnight kickoff count windows =
    let start = max kickoff now in
    let end = min (kickoff + span) midnight in
    if leb end start then windows else record { start = start; end = end; count = count } ∷ windows

unfoldable pub kickoff_windows : ℕ → ℕ → List KickoffLoad → Result (List Window)
kickoff_windows now midnight [] = ok []
kickoff_windows now midnight (item ∷ kickoffs) =
    let behind = kickoff_windows now midnight kickoffs in
    if item.count == 0 then behind else (do
      kickoff ← utc item.kickoff
      windows ← behind
      ok (add_window now midnight kickoff item.count windows))

-- `_windows`
unfoldable pub windows_of : ℕ → ℕ → ℕ → List KickoffLoad → Result (List Window)
unfolding kickoff_windows
windows_of now midnight live_matches kickoffs = do
  windows ← kickoff_windows now midnight kickoffs
  ok (live_window now midnight live_matches ++ windows)

-- a set of instants, in order
unfoldable pub add_point : ℕ → List ℕ → List ℕ
add_point p [] = p ∷ []
add_point p (q ∷ qs) =
    let behind = add_point p qs in
    if ltb p q then p ∷ q ∷ qs else if p == q then q ∷ qs else q ∷ behind

abbrev add_inside : ℕ → ℕ → ℕ → List ℕ → List ℕ
add_inside now midnight p points =
    if ltb now p && ltb p midnight then add_point p points else points

unfoldable pub points_of : ℕ → ℕ → List Window → List ℕ
unfolding add_point
points_of now midnight [] = add_point now (midnight ∷ [])
points_of now midnight (window ∷ windows) =
    add_inside now midnight window.end
      (add_inside now midnight window.start (points_of now midnight windows))

-- how many matches are live at an instant
unfoldable pub live_at : ℕ → List Window → ℕ
live_at t [] = 0
live_at t (window ∷ windows) =
    (if leb window.start t && ltb t window.end then window.count else 0) + live_at t windows

-- the middle of a segment, down to the microsecond
abbrev pub middle : ℕ → ℕ → ℕ
middle left right = left + (right - left) / 2

abbrev pub segment : ℕ → ℕ → List Window → Segment
segment left right windows = record {
  start = left;
  end = right;
  concurrency = live_at (middle left right) windows;
}

unfoldable pub between : ℕ → List ℕ → List Window → List Segment
unfolding live_at
between left [] windows = []
between left (right ∷ points) windows =
    let behind = between right points windows in
    if leb right left then behind else segment left right windows ∷ behind

abbrev pub segments_on : List ℕ → List Window → List Segment
segments_on [] windows = []
segments_on (first ∷ points) windows = between first points windows

-- `_segments`
unfoldable pub segments_of : ℕ → ℕ → List Window → List Segment
unfolding points_of between
segments_of now midnight windows = segments_on (points_of now midnight windows) windows

-- `_match_seconds`, in microseconds
unfoldable pub match_time : ℕ → ℕ → List Window → ℕ
match_time now midnight [] = 0
match_time now midnight (window ∷ windows) =
    window.count * (min window.end midnight - max window.start now)
    + match_time now midnight windows

abbrev pub busy_part : Segment → ℕ
busy_part s = if ltb 0 s.concurrency then s.end - s.start else 0

-- `_busy_seconds`, in microseconds
unfoldable pub busy_time : List Segment → ℕ
busy_time [] = 0
busy_time (s ∷ segments) = busy_part s + busy_time segments

abbrev pub idle_part : Segment → ℕ
idle_part s = if ltb 0 s.concurrency then 0 else s.end - s.start

unfoldable pub idle_time : List Segment → ℕ
idle_time [] = 0
idle_time (s ∷ segments) = idle_part s + idle_time segments

abbrev polls_in : ℕ → ℕ → Ratio
polls_in time seconds =
    if seconds == 0 then whole 0 else record { num = time; den = seconds * second }

-- `_integrated_polls`: the sum over the segments, each divided by its interval, is here the two sums
-- of time, each divided once
unfoldable pub integrated_polls : List Segment → ℕ → ℕ → Ratio
unfolding busy_time idle_time
integrated_polls segments busy_seconds idle_seconds =
    polls_in (busy_time segments) busy_seconds ⊕ polls_in (idle_time segments) idle_seconds

-- ===== src/OperatorBets/Goals.antt =====
-- Which goals settle a bet: `goal_counts_for_next_goal`, `_scoring_side`,
-- `has_counting_goal_since_snapshot` and `resolve_auto_outcome` of services/operator_bets.py.
use predictor.Prelude.{
  ℕ, ◌+◌, String, Bool, true, false, not, ◌&&◌, ◌||◌, Option, none, some, List, [], ◌∷◌, ltb, leb,
  ◌==◌, str_eq, is_some, if◌then◌else◌,
}
use predictor.Prelude.Codes.{upper, strip_lower, codes, code_eq, is_code_in}

pub record FixtureEvent : Type 0 where
  pub id : ℕ
  pub fixture_id : ℕ
  pub event_type : String
  pub team_id : Option ℕ
  pub detail : Option String
  pub minute : Option ℕ
  pub minute_extra : Option ℕ

pub data Side : Type 0 where
  home away : Side

unfoldable pub goal_counts_for_next_goal : Option ℕ → Option ℕ → Bool
goal_counts_for_next_goal minute minute_extra = is_some minute

-- the detail as the code compares it, empty when it is missing
abbrev detail_words : Option String → List ℕ
detail_words none = []
detail_words (some detail) = strip_lower detail

unfoldable pub scoring_side : Option ℕ → ℕ → ℕ → Option String → Option Side
unfolding strip_lower code_eq
scoring_side none home_id away_id detail = none
scoring_side (some team_id) home_id away_id detail =
    if code_eq (detail_words detail) (codes "missed penalty")
    then none
    else if code_eq (detail_words detail) (codes "own goal")
    then (if team_id == home_id then some away else if team_id == away_id then some home else none)
    else if team_id == home_id
    then some home
    else if team_id == away_id
    then some away
    else none

-- the side that an event scores for, none if it is no goal
unfoldable pub event_side : ℕ → ℕ → FixtureEvent → Option Side
unfolding scoring_side
event_side home_id away_id event =
    if str_eq event.event_type "Goal"
    then scoring_side event.team_id home_id away_id event.detail
    else none

abbrev pub add_home : Side → ℕ → ℕ
add_home home n = n + 1
add_home away n = n

abbrev pub add_away : Side → ℕ → ℕ
add_away home n = n
add_away away n = n + 1

-- The loop: `home_goals` and `away_goals` of the events so far, and the events that are left.
unfoldable pub goal_since : ℕ → ℕ → ℕ → ℕ → ℕ → ℕ → List FixtureEvent → Bool
unfolding goal_counts_for_next_goal
goal_since home_id away_id snap_home snap_away home_goals away_goals [] = false
goal_since home_id away_id snap_home snap_away home_goals away_goals (event ∷ events) =
    elim (event_side home_id away_id event) [
      | none ↦ goal_since home_id away_id snap_home snap_away home_goals away_goals events
      | some side ↦
          let home' = add_home side home_goals in
          let away' = add_away side away_goals in
          let rest = goal_since home_id away_id snap_home snap_away home' away' events in
          if leb home' snap_home && leb away' snap_away
          then rest
          else if not (goal_counts_for_next_goal event.minute event.minute_extra)
          then rest
          else true
    ]

unfoldable pub has_counting_goal_since_snapshot : List FixtureEvent → ℕ → ℕ → ℕ → ℕ → Bool
has_counting_goal_since_snapshot events home_id away_id snap_home snap_away =
    goal_since home_id away_id snap_home snap_away 0 0 events

abbrev pub finished_no_goal : List String
finished_no_goal = "FT" ∷ "AET" ∷ "PEN" ∷ []

abbrev pub leave_open : List String
leave_open = "PST" ∷ "CANC" ∷ "ABD" ∷ "AWD" ∷ "WO" ∷ []

abbrev pub short_of : Option String → List ℕ
short_of none = []
short_of (some status) = upper status

-- The arguments `elapsed` and `has_goal_events` do not change the result.
unfoldable pub resolve_auto_outcome : ℕ → ℕ → ℕ → ℕ → Option String → Bool → Option String
resolve_auto_outcome snap_home snap_away now_home now_away status_short counting_goal =
    if counting_goal
    then some "won"
    else if ltb now_home snap_home || ltb now_away snap_away
    then none
    else if is_code_in (short_of status_short) leave_open
    then none
    else if is_code_in (short_of status_short) finished_no_goal
    then (if ltb (snap_home + snap_away) (now_home + now_away) then some "won" else some "lost")
    else none

-- ===== src/Advisor/Domain.antt =====
-- services/advisor/domain.py: the values that the next-goal rules work on, and the status sets of
-- constants.py and domain.py. Scores, minutes and identifiers are counts, so they are naturals. An
-- odd is a whole number of thousandths, as in the database columns.
use predictor.Prelude.{ℕ, String, Bool, Option, none, some, List, [], ◌∷◌, is_in, is_none}
use predictor.Prelude.{if◌then◌else◌}
use predictor.Prelude.Time.{DateTime}

abbrev pub irregular_fixture_statuses : List String
irregular_fixture_statuses = "PST" ∷ "CANC" ∷ "ABD" ∷ "AWD" ∷ "WO" ∷ []

abbrev pub finished_fixture_statuses : List String
finished_fixture_statuses = "FT" ∷ "AET" ∷ "PEN" ∷ []

abbrev pub regulation_statuses : List String
regulation_statuses = "1H" ∷ "HT" ∷ "2H" ∷ []

abbrev pub extra_time_statuses : List String
extra_time_statuses = "ET" ∷ "BT" ∷ []

abbrev pub penalties_statuses : List String
penalties_statuses = "P" ∷ []

abbrev pub regulation_ended : List String
regulation_ended = "ET" ∷ "BT" ∷ "P" ∷ "FT" ∷ "AET" ∷ "PEN" ∷ []

abbrev pub extra_time_ended : List String
extra_time_ended = "P" ∷ "FT" ∷ "AET" ∷ "PEN" ∷ []

abbrev pub in_play_pause : List String
in_play_pause = "SUSP" ∷ "INT" ∷ "LIVE" ∷ []

pub data Period : Type 0 where
  regulation extra_time : Period

pub data Skip : Type 0 where
  no_line suspended stale_odd minute_cutoff penalties not_in_play open_coupon : Skip
  rejected_state : Skip

pub data PromptGate : Type 0 where
  period_goals favorite_odd short_late : PromptGate

pub data Settlement : Type 0 where
  pending won lost void manual : Settlement

pub data LiveProgress : Type 0 where
  hit open_leg lost void unknown : LiveProgress

pub record StateKey : Type 0 where
  pub fixture_id : ℕ
  pub period : Period
  pub goals_home : ℕ
  pub goals_away : ℕ
  pub ordinal : ℕ

pub record LineQuote : Type 0 where
  pub odd : Option ℕ
  pub tradable : Bool
  pub captured_at : Option DateTime

pub record CandidateView : Type 0 where
  pub fixture_id : ℕ
  pub status_short : String
  pub elapsed : Option ℕ
  pub extra : Option ℕ
  pub goals_home : Option ℕ
  pub goals_away : Option ℕ
  pub extratime_home : Option ℕ
  pub extratime_away : Option ℕ
  pub quote : Option LineQuote
  pub market_known : Bool
  pub in_open_coupon : Bool
  pub state_rejected : Bool

pub record PlayLimits : Type 0 where
  pub max_minute_regulation : ℕ
  pub max_minute_extra : ℕ
  pub max_quote_age : ℕ  -- microseconds

pub record Playability : Type 0 where
  pub code : Option Skip
  pub period : Option Period
  pub n : Option ℕ
  pub state : Option StateKey

abbrev pub playable : Playability → Bool
playable p = is_none p.code

pub record FinalScore : Type 0 where
  pub status_short : String
  pub fulltime_home : Option ℕ
  pub fulltime_away : Option ℕ
  pub extratime_home : Option ℕ
  pub extratime_away : Option ℕ
  pub final_refreshed : Bool
  pub awaiting_manual : Bool

pub record LiveScore : Type 0 where
  pub status_short : String
  pub goals_home : Option ℕ
  pub goals_away : Option ℕ
  pub fulltime_home : Option ℕ
  pub fulltime_away : Option ℕ
  pub extratime_home : Option ℕ
  pub extratime_away : Option ℕ

unfoldable pub period_for : String → Option Period
period_for status_short =
    if is_in status_short regulation_statuses
    then some Period.regulation
    else if is_in status_short extra_time_statuses
    then some Period.extra_time
    else none

-- `_pair`
unfoldable pub pair : Option ℕ → Option ℕ → Option (ℕ × ℕ)
pair (some home) (some away) = some (home, away)
pair _ _ = none

-- ===== src/Advisor/Candidates/Tests.antt =====
-- A match at 1-0 in the second half, with a row before its goal and one behind it.
use predictor.Prelude.{ℕ, ◌*◌, ◌≡◌, refl, false, true, none, some, List, [], ◌∷◌}
use predictor.Prelude.Time.{aware, second}
use predictor.Advisor.Domain.{regulation, period_for}
use predictor.Advisor.Play.{assess}
use predictor.Advisor.Candidates.{
  OverUnderRow, over, MatchSnapshot, CycleCandidate, Request, playable_candidate, quote_for_period,
  first_line, over_line_matches,
}
use predictor.Advisor.Candidates.Laws.{IsBacked, playable_candidate-IsBacked}

abbrev match : MatchSnapshot
match = record {
  fixture_id = 9;
  status_short = "2H";
  elapsed = some 60;
  extra = none;
  goals_home = some 1;
  goals_away = some 0;
  extratime_home = none;
  extratime_away = none;
  rule = "board";
  league_id = 39;
  favorite_odd = none;
}

abbrev row : ℕ → ℕ → ℕ → OverUnderRow
row home line odd = record {
  fixture_id = 9;
  label = over;
  handicap = some line;
  odd = odd;
  tradable = true;
  captured_at = aware (100 * second);
  market = regulation;
  home_goals = some home;
  away_goals = some 0;
}

abbrev rows : List OverUnderRow
rows = row 0 150 1200 ∷ row 1 150 1650 ∷ []

abbrev request : Request
request = record {
  limits = record {
    max_minute_regulation = 80;
    max_minute_extra = 110;
    max_quote_age = 60 * second;
  };
  now = aware (120 * second);
  open_fixtures = λ _. false;
  rejected = λ _. false;
  for_llm = false;
}

abbrev candidate : CycleCandidate
candidate = record {
  fixture_id = 9;
  period = regulation;
  goals_home = 1;
  goals_away = 0;
  ordinal = 2;
  candidate_rule = "board";
  odd = 1650;
  n = 1;
}

made : playable_candidate request match rows ≡ some candidate
unfolding playable_candidate period_for assess quote_for_period first_line over_line_matches
made = refl

playable_candidate-IsBacked_example : IsBacked match rows candidate
playable_candidate-IsBacked_example =
    playable_candidate-IsBacked request (120 * second) match rows candidate refl made

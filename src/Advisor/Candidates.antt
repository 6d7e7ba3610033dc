-- ===== src/Advisor/Candidates.antt =====
-- services/advisor/candidates.py: which matches of the board become a priced leg, and which need
-- fresh odds. A row of odds has its texts read already: the market as the period it settles, the
-- label as what it names, a line in hundredths.
mod Laws
mod Tests
use predictor.Prelude.{
  ℕ, ◌+◌, ◌*◌, max, String, Bool, true, false, not, ◌&&◌, ◌||◌, Option, none, some, List, [], ◌∷◌,
  keep, any, is_in, is_some, leb, ltb, or_zero, ◌==◌, if◌then◌else◌,
}
use predictor.Prelude.Time.{DateTime}
use predictor.Advisor.Domain.{
  Period, regulation, extra_time, Skip, PromptGate, StateKey, LineQuote, CandidateView, PlayLimits,
  Playability, period_for,
}
use predictor.Advisor.Play.{assess, match_minute}
use predictor.Advisor.Odds.{prompt_gate_misses}
use predictor.Advisor.Coupons.Actions.{same_period}

-- a label that is "over", one that names a line, and any other
pub data Label : Type 0 where
  over : Label
  over_line : Option ℕ → Label
  other : Label

pub record OverUnderRow : Type 0 where
  pub fixture_id : ℕ
  pub label : Label
  pub handicap : Option ℕ
  pub odd : ℕ
  pub tradable : Bool
  pub captured_at : DateTime
  pub market : Period
  pub home_goals : Option ℕ
  pub away_goals : Option ℕ

pub record MatchSnapshot : Type 0 where
  pub fixture_id : ℕ
  pub status_short : String
  pub elapsed : Option ℕ
  pub extra : Option ℕ
  pub goals_home : Option ℕ
  pub goals_away : Option ℕ
  pub extratime_home : Option ℕ
  pub extratime_away : Option ℕ
  pub rule : String
  pub league_id : ℕ
  pub favorite_odd : Option ℕ

pub record CycleCandidate : Type 0 where
  pub fixture_id : ℕ
  pub period : Period
  pub goals_home : ℕ
  pub goals_away : ℕ
  pub ordinal : ℕ
  pub candidate_rule : String
  pub odd : ℕ
  pub n : ℕ

abbrev pub llm_statuses : List String
llm_statuses = "2H" ∷ "ET" ∷ "BT" ∷ []

abbrev pub min_analysis_odd : ℕ
min_analysis_odd = 1300

abbrev pub llm_single_min_odd : ℕ
llm_single_min_odd = 1800

-- `over_half_line`
abbrev pub over_half_line : ℕ → ℕ
over_half_line n = 100 * n + 50

abbrev is_line : Option ℕ → ℕ → Bool
is_line none line = false
is_line (some a) line = a == line

-- `over_line_matches`
unfoldable pub over_line_matches : Label → Option ℕ → ℕ → Bool
over_line_matches over handicap n = is_line handicap (over_half_line n)
over_line_matches (over_line named) none n = is_line named (over_half_line n)
over_line_matches (over_line named) (some line) n =
    is_line named (over_half_line n) && line == over_half_line n
over_line_matches other handicap n = false

abbrev pub same_goals : Option ℕ → ℕ → Bool
same_goals none n = false
same_goals (some m) n = m == n

-- the row's market is the period's, and its score the board's
abbrev pub is_stamped : Period → ℕ → ℕ → OverUnderRow → Bool
is_stamped period home away row =
    same_period row.market period
    && same_goals row.home_goals home
    && same_goals row.away_goals away

-- the loop of `quote_for_period`
unfoldable pub first_line : Period → ℕ → ℕ → ℕ → List OverUnderRow → Option LineQuote
first_line period home away n [] = none
first_line period home away n (row ∷ rows) =
    let rest = first_line period home away n rows in
    if is_stamped period home away row && over_line_matches row.label row.handicap n
    then some
        (record { odd = some row.odd; tradable = row.tradable; captured_at = some row.captured_at })
    else rest

-- the goals of the period, at a known score
abbrev pub goals_in : Period → ℕ → ℕ → MatchSnapshot → ℕ
goals_in regulation home away match = home + away
goals_in extra_time home away match = or_zero match.extratime_home + or_zero match.extratime_away

abbrev pub quote_at :
    Period → Option ℕ → Option ℕ → MatchSnapshot → List OverUnderRow → Option LineQuote
quote_at period (some home) (some away) match rows =
    first_line period home away (goals_in period home away match) rows
quote_at period _ _ match rows = none

-- `quote_for_period`
unfoldable pub quote_for_period : Period → MatchSnapshot → List OverUnderRow → Option LineQuote
quote_for_period period match rows = quote_at period match.goals_home match.goals_away match rows

-- the arguments of `playable_candidate`; the sets are tests
pub record Request : Type 0 where
  pub limits : PlayLimits
  pub now : DateTime
  pub open_fixtures : ℕ → Bool
  pub rejected : StateKey → Bool
  pub for_llm : Bool

abbrev pub view_of : Request → MatchSnapshot → Option LineQuote → CandidateView
view_of request match quote = record {
  fixture_id = match.fixture_id;
  status_short = match.status_short;
  elapsed = match.elapsed;
  extra = match.extra;
  goals_home = match.goals_home;
  goals_away = match.goals_away;
  extratime_home = match.extratime_home;
  extratime_away = match.extratime_away;
  quote = quote;
  market_known = true;
  in_open_coupon = request.open_fixtures match.fixture_id;
  state_rejected = false;
}

abbrev no_gate : List PromptGate → Bool
no_gate [] = true
no_gate (gate ∷ gates) = false

abbrev pub misses : Request → MatchSnapshot → Period → ℕ → ℕ → Bool
misses request match period n odd =
    request.for_llm
    && not (
        no_gate (
          prompt_gate_misses period n (match_minute match.status_short match.elapsed match.extra)
            odd match.favorite_odd))

abbrev pub candidate_of : MatchSnapshot → StateKey → ℕ → ℕ → CycleCandidate
candidate_of match state n odd = record {
  fixture_id = match.fixture_id;
  period = state.period;
  goals_home = state.goals_home;
  goals_away = state.goals_away;
  ordinal = state.ordinal;
  candidate_rule = match.rule;
  odd = odd;
  n = n;
}

-- a playable match with its odd
abbrev pub priced_candidate :
    Request
    → MatchSnapshot
    → Option Period
    → Option ℕ
    → Option StateKey
    → Option ℕ
    → Option CycleCandidate
priced_candidate request match (some period) (some n) (some state) (some odd) =
    if ltb odd min_analysis_odd
    then none
    else if misses request match period n odd
    then none
    else if request.rejected state || request.open_fixtures match.fixture_id
    then none
    else some (candidate_of match state n odd)
priced_candidate request match _ _ _ _ = none

abbrev pub odd_of : Option LineQuote → Option ℕ
odd_of none = none
odd_of (some quote) = quote.odd

abbrev pub played : Request → MatchSnapshot → Option LineQuote → Playability → Option CycleCandidate
played request match quote play =
    if is_some play.code
    then none
    else priced_candidate request match play.period play.n play.state (odd_of quote)

abbrev pub in_period :
    Request → MatchSnapshot → List OverUnderRow → Option Period → Option CycleCandidate
in_period request match rows none = none
in_period request match rows (some period) =
    let quote = quote_for_period period match rows in
    played request match quote (assess (view_of request match quote) request.limits request.now)

unfoldable pub playable_candidate :
    Request → MatchSnapshot → List OverUnderRow → Option CycleCandidate
playable_candidate request match rows =
    if request.for_llm && not (is_in match.status_short llm_statuses)
    then none
    else in_period request match rows (period_for match.status_short)

-- `lone_candidate_allowed`
unfoldable pub lone_candidate_allowed : List CycleCandidate → ℕ → Bool
lone_candidate_allowed (sole ∷ []) min_combined_odd =
    if not (same_period sole.period regulation)
    then false
    else leb (max min_combined_odd llm_single_min_odd) sole.odd
lone_candidate_allowed _ min_combined_odd = true

abbrev no_row : List OverUnderRow → Bool
no_row [] = true
no_row (row ∷ rows) = false

-- a match whose rows for its period all stand at another score
abbrev pub needs_at : List OverUnderRow → Option Period → Option ℕ → Option ℕ → Bool
needs_at rows (some period) (some home) (some away) =
    let market = keep (λ row. same_period row.market period) rows in
    not (no_row market) && not (any (is_stamped period home away) market)
needs_at rows _ _ _ = false

abbrev pub needs_refresh : (ℕ → List OverUnderRow) → MatchSnapshot → Bool
needs_refresh quotes match =
    needs_at (quotes match.fixture_id) (period_for match.status_short) match.goals_home
      match.goals_away

-- `fixtures_needing_odds_refresh`; a match that `only` leaves out fails its test
unfoldable pub fixtures_needing_odds_refresh :
    List MatchSnapshot → (ℕ → List OverUnderRow) → (ℕ → Bool) → List ℕ
fixtures_needing_odds_refresh [] quotes only = []
fixtures_needing_odds_refresh (match ∷ matches) quotes only =
    let rest = fixtures_needing_odds_refresh matches quotes only in
    if only match.fixture_id && needs_refresh quotes match then match.fixture_id ∷ rest else rest

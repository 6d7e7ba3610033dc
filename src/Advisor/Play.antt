-- ===== src/Advisor/Play.antt =====
-- `assess` of services/advisor/domain.py with its helpers, and `match_minute` of
-- services/live_board/domain.py.
pub mod Laws
use predictor.Prelude.{
  ℕ, ◌+◌, ◌-◌, String, Bool, true, false, not, ◌||◌, Option, none, some, ltb, leb, or_zero,
  if◌then◌else◌, is_in, str_eq,
}
use predictor.Prelude.Time.{DateTime, naive, aware}
use predictor.Advisor.Domain.{
  Period, regulation, extra_time, Skip, no_line, suspended, stale_odd, minute_cutoff, penalties,
  not_in_play, open_coupon, rejected_state, StateKey, CandidateView, LineQuote, PlayLimits,
  Playability, penalties_statuses, period_for, pair,
}

unfoldable pub match_minute : String → Option ℕ → Option ℕ → Option ℕ
match_minute status_short elapsed extra =
    if str_eq status_short "HT"
    then some (elim elapsed [ none ↦ 45 | some e ↦ e ] + or_zero extra)
    else elim elapsed [ none ↦ none | some e ↦ some (e + or_zero extra) ]

-- `_scoreboard`
unfoldable pub scoreboard : CandidateView → Option (ℕ × ℕ)
unfolding pair
scoreboard candidate = pair candidate.goals_home candidate.goals_away

-- `_period_goals`
unfoldable pub period_goals : Period → ℕ × ℕ → CandidateView → ℕ
period_goals regulation (home, away) candidate = home + away
period_goals extra_time score candidate =
    or_zero candidate.extratime_home + or_zero candidate.extratime_away

-- `_stale`: the age is a signed difference, so a quote from the future is stale too
unfoldable pub stale : DateTime → DateTime → ℕ → Bool
stale (aware captured) (aware now) max_age = ltb now captured || ltb max_age (now - captured)
stale _ _ max_age = true

abbrev stale_quote : Option DateTime → DateTime → ℕ → Bool
stale_quote none now max_age = true
stale_quote (some captured) now max_age = stale captured now max_age

-- the tests on a quote that is there, with an odd; 1000 thousandths is an odd of 1
priced_block : LineQuote → ℕ → ℕ → DateTime → Option Skip
unfolding stale
priced_block quote odd max_age now =
    if leb odd 1000
    then some no_line
    else if not quote.tradable
    then some suspended
    else if stale_quote quote.captured_at now max_age
    then some stale_odd
    else none

-- `_quote_block`
unfoldable pub quote_block : CandidateView → ℕ → DateTime → Option Skip
unfolding priced_block
quote_block candidate max_age now =
    if not candidate.market_known then some no_line else elim candidate.quote [
      | none ↦ some no_line
      | some quote ↦ elim quote.odd [
        | none ↦ some no_line
        | some odd ↦ priced_block quote odd max_age now
      ]
    ]

-- the code of the first obstacle behind the minute test
abbrev block_code : CandidateView → Option Skip → Option Skip
block_code candidate (some skip) = some skip
block_code candidate none =
    if candidate.in_open_coupon
    then some open_coupon
    else if candidate.state_rejected
    then some rejected_state
    else none

abbrev minute_limit : Period → PlayLimits → ℕ
minute_limit regulation limits = limits.max_minute_regulation
minute_limit extra_time limits = limits.max_minute_extra

abbrev past_limit : Option ℕ → ℕ → Bool
past_limit none limit = true
past_limit (some minute) limit = ltb limit minute

-- `assess` once the score of an open period is known
assess_board : CandidateView → PlayLimits → DateTime → Period → ℕ × ℕ → Playability
unfolding period_goals match_minute quote_block
assess_board candidate limits now period score =
    let n = period_goals period score candidate in
    let state : StateKey = record {
      fixture_id = candidate.fixture_id;
      period = period;
      goals_home = score.0;
      goals_away = score.1;
      ordinal = n + 1;
    } in
    let minute = match_minute candidate.status_short candidate.elapsed candidate.extra in
    record {
      code =
          if past_limit minute (minute_limit period limits)
          then some minute_cutoff
          else block_code candidate (quote_block candidate limits.max_quote_age now);
      period = some period;
      n = some n;
      state = some state;
    }

-- `_blocked` with no score
abbrev blocked : Skip → Option Period → Playability
blocked code period = record { code = some code; period = period; n = none; state = none }

assess_period : CandidateView → PlayLimits → DateTime → Option Period → Playability
unfolding assess_board scoreboard
assess_period candidate limits now none = blocked not_in_play none
assess_period candidate limits now (some period) = elim (scoreboard candidate) [
  | none ↦ blocked not_in_play (some period)
  | some score ↦ assess_board candidate limits now period score
]

unfoldable pub assess : CandidateView → PlayLimits → DateTime → Playability
unfolding assess_period period_for
assess candidate limits now =
    if is_in candidate.status_short penalties_statuses
    then blocked penalties none
    else assess_period candidate limits now (period_for candidate.status_short)

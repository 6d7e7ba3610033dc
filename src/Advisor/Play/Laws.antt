-- ===== src/Advisor/Play/Laws.antt =====
-- `assess` lets a match through exactly when a description of a bettable match, written without
-- the code's tests, holds; and its wait for extra time never mixes the two periods.
use predictor.Prelude.{
  ℕ, ◌+◌, ◌≤◌, ◌<◌, ◌≡◌, refl, String, true, false, Option, none, some, arith, is_in, eq_iff,
  Bool-cases, Option-cases, inl, inr, str_eq, subst,
}
use predictor.Prelude.Time.{DateTime, aware, naive}
use predictor.Advisor.Domain.{
  Period, CandidateView, LineQuote, PlayLimits, Playability, period_for, penalties_statuses,
}
use predictor.Advisor.Play.{
  match_minute, period_goals, minute_limit, quote_block, assess, priced_block, assess_board,
}

-- A quote that a bet may rest on: it is priced above 1, open, and neither from the future nor old.
pub record IsFresh (quote : Option LineQuote) (max_age now : ℕ) : Type 0 where
  pub line : LineQuote
  pub odd : ℕ
  pub captured : ℕ
  pub quoted : quote ≡ some line
  pub priced : line.odd ≡ some odd
  pub above_one : 1000 < odd
  pub tradable : line.tradable ≡ true
  pub stamped : line.captured_at ≡ some (aware captured)
  pub past : captured ≤ now
  pub recent : now ≤ captured + max_age

-- The match stands in a period with a known score, and its clock is within the limit.
pub record IsInPlay (c : CandidateView) (limits : PlayLimits) : Type 0 where
  pub period : Period
  pub home : ℕ
  pub away : ℕ
  pub minute : ℕ
  pub in_period : period_for c.status_short ≡ some period
  pub home_known : c.goals_home ≡ some home
  pub away_known : c.goals_away ≡ some away
  pub clock : match_minute c.status_short c.elapsed c.extra ≡ some minute
  pub in_time : minute ≤ minute_limit period limits

pub record IsBettable (c : CandidateView) (limits : PlayLimits) (now : ℕ) : Type 0 where
  pub in_play : IsInPlay c limits
  pub fresh : IsFresh c.quote limits.max_quote_age now
  pub market : c.market_known ≡ true
  pub uncommitted : c.in_open_coupon ≡ false
  pub unrejected : c.state_rejected ≡ false

-- what `assess` returns for such a match
abbrev pub bet_on : CandidateView → Period → ℕ → ℕ → Playability
bet_on c period home away = record {
  code = none;
  period = some period;
  n = some (period_goals period (home, away) c);
  state = some (record {
    fixture_id = c.fixture_id;
    period = period;
    goals_home = home;
    goals_away = away;
    ordinal = period_goals period (home, away) c + 1;
  });
}

-- The shoot-out belongs to no period.
period_for-penalties :
    (s : String) {p : Period} → period_for s ≡ some p → is_in s penalties_statuses ≡ false
unfolding period_for
period_for-penalties s {p} h = elim (Bool-cases (str_eq s "P")) [
  | inl e ↦ let q : s ≡ "P" = (eq_iff s "P").0 e in cc (subst (λ t. period_for t ≡ some p) q h)
  | inr e ↦ rw e
]

stamped-IsFresh :
    (quote : LineQuote) (odd captured max_age now : ℕ)
    → quote.odd ≡ some odd
    → quote.captured_at ≡ some (aware captured)
    → priced_block quote odd max_age (aware now) ≡ none
    → IsFresh (some quote) max_age now
unfolding priced_block
stamped-IsFresh quote odd captured max_age now p s h = record {
  line = quote;
  odd = odd;
  captured = captured;
  quoted = refl;
  priced = p;
  above_one = ground arith;
  tradable = ground arith;
  stamped = s;
  past = ground arith;
  recent = ground arith;
}

priced-IsFresh :
    (quote : LineQuote) (odd max_age now : ℕ) (captured : Option DateTime)
    → quote.odd ≡ some odd
    → quote.captured_at ≡ captured
    → priced_block quote odd max_age (aware now) ≡ none
    → IsFresh (some quote) max_age now
unfolding priced_block
priced-IsFresh quote odd max_age now none p s h = absurd (ground arith)
priced-IsFresh quote odd max_age now (some (naive t)) p s h = absurd (ground arith)
priced-IsFresh quote odd max_age now (some (aware t)) p s h =
    stamped-IsFresh quote odd t max_age now p s h

quote_block-IsFresh :
    (c : CandidateView) (max_age now : ℕ)
    → quote_block c max_age (aware now) ≡ none
    → IsFresh c.quote max_age now
unfolding quote_block
quote_block-IsFresh c max_age now h = elim (Option-cases c.quote) [
  | inl missing ↦ absurd (ground arith)
  | inr (quote, q) ↦ elim (Option-cases quote.odd) [
    | inl missing ↦ absurd (ground arith)
    | inr (odd, o) ↦
        rw q (priced-IsFresh quote odd max_age now quote.captured_at o refl (ground arith))
  ]
]

IsFresh-quote_block :
    (c : CandidateView) (max_age now : ℕ)
    → IsFresh c.quote max_age now
    → c.market_known ≡ true
    → quote_block c max_age (aware now) ≡ none
unfolding quote_block
IsFresh-quote_block c max_age now f m = ground arith

-- A bettable match is let through, with its period, the goals of that period as the line, and the
-- state of the score that the bet would be on.
pub assess_complete :
    (c : CandidateView) (limits : PlayLimits) (now : ℕ) (b : IsBettable c limits now)
    → assess c limits (aware now) ≡ bet_on c b.in_play.period b.in_play.home b.in_play.away
unfolding assess assess_board
assess_complete c limits now b = ground (
  arith,
  IsFresh-quote_block c limits.max_quote_age now b.fresh b.market,
  period_for-penalties c.status_short b.in_play.in_period,
)

assess-IsInPlay :
    (c : CandidateView) (limits : PlayLimits) (now : DateTime)
    → (assess c limits now).code ≡ none
    → IsInPlay c limits
unfolding assess assess_board
assess-IsInPlay c limits now h = elim (Option-cases (period_for c.status_short)) [
  | inl missing ↦ absurd (ground arith)
  | inr (p, e) ↦ elim (Option-cases c.goals_home) [
    | inl missing ↦ absurd (ground arith)
    | inr (home, eh) ↦ elim (Option-cases c.goals_away) [
      | inl missing ↦ absurd (ground arith)
      | inr (away, ea) ↦ elim (Option-cases (match_minute c.status_short c.elapsed c.extra)) [
        | inl missing ↦ absurd (ground arith)
        | inr (minute, em) ↦ record {
          period = p;
          home = home;
          away = away;
          minute = minute;
          in_period = e;
          home_known = eh;
          away_known = ea;
          clock = em;
          in_time = ground arith;
        }
      ]
    ]
  ]
]

-- A match that `assess` lets through is bettable: its period, score, clock, market and quote are
-- all as a bet needs them, and no open coupon and no rejected state stands against it.
pub assess_sound :
    (c : CandidateView) (limits : PlayLimits) (now : ℕ)
    → (assess c limits (aware now)).code ≡ none
    → IsBettable c limits now
unfolding assess assess_board
assess_sound c limits now h =
    let p = assess-IsInPlay c limits (aware now) h in
    record {
      in_play = p;
      fresh =
          quote_block-IsFresh c limits.max_quote_age now
            (ground (arith, p.in_period, p.home_known, p.away_known, p.clock));
      market = ground (arith, p.in_period, p.home_known, p.away_known, p.clock);
      uncommitted = ground (arith, p.in_period, p.home_known, p.away_known, p.clock);
      unrejected = ground (arith, p.in_period, p.home_known, p.away_known, p.clock);
    }

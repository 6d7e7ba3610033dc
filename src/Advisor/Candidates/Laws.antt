-- ===== src/Advisor/Candidates/Laws.antt =====
-- A candidate rests on a row of odds at the score of the board.
use predictor.Prelude.{
  ℕ, ◌+◌, ◌≤◌, ◌≡◌, ◌⊎◌, refl, sym, ap, subst, ◌∙◌, Bool, true, false, not, ◌&&◌, ◌||◌, Option,
  none, some, List, [], ◌∷◌, arith, is_some, is_in, ltb, inl, inr, if◌then◌else◌,
}
use predictor.Prelude.Time.{aware}
use predictor.Advisor.Domain.{Period, StateKey, LineQuote, period_for}
use predictor.Advisor.Play.{assess, period_goals}
use predictor.Advisor.Play.Laws.{IsBettable, assess_sound, assess_complete}
use predictor.Advisor.Candidates.{
  OverUnderRow, MatchSnapshot, CycleCandidate, Request, llm_statuses, min_analysis_odd,
  over_line_matches, is_stamped, first_line, goals_in, quote_at, quote_for_period, view_of, misses,
  priced_candidate, odd_of, played, in_period, playable_candidate,
}

-- a row that is so
abbrev pub AnyRow : (OverUnderRow → Type 0) → List OverUnderRow → Type 0
AnyRow P [] = ⊥
AnyRow P (row ∷ rows) = P row ⊎ AnyRow P rows

-- The row has this price for one more goal than n, at this score, in the market of the period.
pub record Prices (period : Period) (home away n odd : ℕ) (row : OverUnderRow) : Type 0 where
  pub stamped : is_stamped period home away row ≡ true
  pub line : over_line_matches row.label row.handicap n ≡ true
  pub price : row.odd ≡ odd

and_parts : (a b : Bool) → (a && b) ≡ true → (a ≡ true) × (b ≡ true)
and_parts true b e = (refl, e)
and_parts false b e = cc

if_odd :
    (test : Bool) (quote : LineQuote) (rest : Option LineQuote) {odd : ℕ}
    → odd_of (if test then some quote else rest) ≡ some odd
    → ((test ≡ true) × (quote.odd ≡ some odd)) ⊎ (odd_of rest ≡ some odd)
if_odd true quote rest e = inl (refl, e)
if_odd false quote rest e = inr e

some-ℕ : {m n : ℕ} → some m ≡ some n → m ≡ n
some-ℕ e = cc

first_line-Prices :
    (period : Period) (home away n odd : ℕ) (rows : List OverUnderRow)
    → odd_of (first_line period home away n rows) ≡ some odd
    → AnyRow (Prices period home away n odd) rows
unfolding first_line
first_line-Prices period home away n odd [] e = cc
first_line-Prices period home away n odd (row ∷ rows) e =
    elim (if_odd (is_stamped period home away row && over_line_matches row.label row.handicap n) _ _
      e) [
        | inl (hit, price) ↦
            let (stamped, line) = and_parts (is_stamped period home away row) _ hit in
            inl (record { stamped = stamped; line = line; price = some-ℕ price })
        | inr later ↦ inr (first_line-Prices period home away n odd rows later)
      ]

-- What a candidate says of its match and of the odds that the board has for it.
pub record IsBacked (match : MatchSnapshot) (rows : List OverUnderRow) (c : CycleCandidate)
    : Type 0 where
  pub period : period_for match.status_short ≡ some c.period
  pub home : match.goals_home ≡ some c.goals_home
  pub away : match.goals_away ≡ some c.goals_away
  pub goals : c.n ≡ goals_in c.period c.goals_home c.goals_away match
  pub next : c.ordinal ≡ c.n + 1
  pub worth : min_analysis_odd ≤ c.odd
  pub row : AnyRow (Prices c.period c.goals_home c.goals_away c.n c.odd) rows

-- the state that a bet on this board would be on
abbrev state_at : MatchSnapshot → Period → ℕ → ℕ → StateKey
state_at match period home away = record {
  fixture_id = match.fixture_id;
  period = period;
  goals_home = home;
  goals_away = away;
  ordinal = goals_in period home away match + 1;
}

some-period : {a b : Period} → some a ≡ some b → a ≡ b
some-period e = cc

some-candidate : {a b : CycleCandidate} → some a ≡ some b → a ≡ b
some-candidate e = cc

guarded :
    {A : Type 0} (test : Bool) (rest : Option A) {x : A}
    → (if test then none else rest) ≡ some x
    → (test ≡ false) × (rest ≡ some x)
guarded true rest e = cc
guarded false rest e = (refl, e)

priced-IsBacked :
    (request : Request) (match : MatchSnapshot) (rows : List OverUnderRow) (period : Period)
    (home away : ℕ) (quoted : Option ℕ) (c : CycleCandidate)
    → period_for match.status_short ≡ some period
    → match.goals_home ≡ some home
    → match.goals_away ≡ some away
    → odd_of (first_line period home away (goals_in period home away match) rows) ≡ quoted
    → priced_candidate request match
        (some period)
        (some (goals_in period home away match))
        (some (state_at match period home away))
        quoted
      ≡ some c
    → IsBacked match rows c
priced-IsBacked request match rows period home away none c p h a q e = cc
priced-IsBacked request match rows period home away (some odd) c p h a q e =
    let n = goals_in period home away match in
    let (worth, e) = guarded (ltb odd min_analysis_odd) _ e in
    let (gates, e) = guarded (misses request match period n odd) _ e in
    let (free, e) =
      guarded
        (request.rejected (state_at match period home away)
          || request.open_fixtures match.fixture_id)
        _ e in
    subst (IsBacked match rows) (some-candidate e) (record {
      period = p;
      home = h;
      away = a;
      goals = refl;
      next = refl;
      worth = ground arith;
      row = first_line-Prices period home away n odd rows q;
    })

period_goals-in :
    (request : Request) (match : MatchSnapshot) (quote : Option LineQuote) (period : Period)
    (home away : ℕ)
    → period_goals period (home, away) (view_of request match quote)
      ≡ goals_in period home away match
unfolding period_goals
period_goals-in request match quote Period.regulation home away = refl
period_goals-in request match quote Period.extra_time home away = refl

no_code : {A : Type 0} (o : Option A) → is_some o ≡ false → o ≡ none
no_code none e = refl
no_code (some a) e = cc

played-IsBacked :
    (request : Request) (now : ℕ) (match : MatchSnapshot) (rows : List OverUnderRow)
    (period : Period) (c : CycleCandidate)
    → period_for match.status_short ≡ some period
    → let view = view_of request match (quote_for_period period match rows) in
      IsBettable view request.limits now
      → played request match
          (quote_for_period period match rows)
          (assess view request.limits (aware now))
        ≡ some c
      → IsBacked match rows c
unfolding quote_for_period
played-IsBacked request now match rows period c p b e =
    let quote = quote_for_period period match rows in
    let view = view_of request match quote in
    let in_play = b.in_play in
    let same : period ≡ in_play.period = some-period (sym p ∙ in_play.in_period) in
    let quoted =
      ap (λ g. quote_at period g match.goals_away match rows) in_play.home_known
      ∙ ap (λ g. quote_at period (some in_play.home) g match rows) in_play.away_known
      ∙ ap (λ q. quote_at q (some in_play.home) (some in_play.away) match rows) same in
    let bet =
      subst (λ play. played request match quote play ≡ some c)
        (assess_complete view request.limits now b) e in
    priced-IsBacked request match rows in_play.period in_play.home in_play.away (odd_of quote) c
      in_play.in_period in_play.home_known in_play.away_known (ap odd_of (sym quoted))
      (subst
        (λ n.
          priced_candidate request match (some in_play.period) (some n)
            (some (record {
              fixture_id = match.fixture_id;
              period = in_play.period;
              goals_home = in_play.home;
              goals_away = in_play.away;
              ordinal = n + 1;
            }))
            (odd_of quote)
          ≡ some c)
        (period_goals-in request match quote in_play.period in_play.home in_play.away) bet)

in_period-IsBacked :
    (request : Request) (now : ℕ) (match : MatchSnapshot) (rows : List OverUnderRow)
    (period : Option Period) (c : CycleCandidate)
    → period_for match.status_short ≡ period
    → request.now ≡ aware now
    → in_period request match rows period ≡ some c
    → IsBacked match rows c
in_period-IsBacked request now match rows none c p clock e = cc
in_period-IsBacked request now match rows (some period) c p clock e =
    let quote = quote_for_period period match rows in
    let view = view_of request match quote in
    let e =
      subst (λ t. played request match quote (assess view request.limits t) ≡ some c) clock e in
    let (code, _) = guarded (is_some (assess view request.limits (aware now)).code) _ e in
    played-IsBacked request now match rows period c p
      (assess_sound view request.limits now (no_code _ code)) e

-- A candidate that `playable_candidate` makes is in the period and at the score of its match; its line
-- is the goals of the period, and the bet is on the next one; its odd is at least that of the analysis;
-- and some row of odds has that odd, for that line, in the market of the period, stamped with the score
-- of the board.
pub playable_candidate-IsBacked :
    (request : Request) (now : ℕ) (match : MatchSnapshot) (rows : List OverUnderRow)
    (c : CycleCandidate)
    → request.now ≡ aware now
    → playable_candidate request match rows ≡ some c
    → IsBacked match rows c
unfolding playable_candidate
playable_candidate-IsBacked request now match rows c clock e =
    let (status, e) =
      guarded (request.for_llm && not (is_in match.status_short llm_statuses)) _ e in
    in_period-IsBacked request now match rows (period_for match.status_short) c refl clock e

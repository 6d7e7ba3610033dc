-- ===== src/Advisor/Budget/Laws.antt =====
-- The calls of a day stay within the budget.
use predictor.Prelude.{
  ℕ, String, ◌+◌, ◌*◌, ◌≤◌, ◌≡◌, refl, subst, Bool, true, false, List, [], ◌∷◌, arith, All, leb,
  ltb, leb→le, if◌then◌else◌, ◌&&◌,
}
use predictor.Prelude.Time.{day_length, day_of}
use predictor.Prelude.Result.{Result, ok, value_error, ◌>>=◌, >>=-eq-ok, ok-injective}
use predictor.Advisor.Budget.{
  AdvisorSettings, AdvisorCycle, CycleRequest, Reply, provider_error, completion, CycleOutcome,
  estimate_call_cost, budget_cap, budget_allows, inside, spent_between, spent_today, utc_day_bounds,
  paid_cycle, run_allowed, run_locked,
}

-- One call of `run_cycle`: what it asks, when, and what the provider would do.
pub record Turn : Type 0 where
  pub request : CycleRequest
  pub now : ℕ
  pub reply : Reply

abbrev after : List AdvisorCycle → Result CycleOutcome → List AdvisorCycle
after cycles value_error = cycles
after cycles (ok outcome) = outcome.cycles

-- One call behind the other: the lock keeps them apart. A call that raises writes nothing.
abbrev pub run_turns : AdvisorSettings → List Turn → List AdvisorCycle → List AdvisorCycle
run_turns settings [] cycles = cycles
run_turns settings (turn ∷ turns) cycles =
    run_turns settings turns
      (after cycles (run_locked settings turn.request turn.now turn.reply cycles))

abbrev pub spent_on : ℕ → List AdvisorCycle → ℕ
spent_on day cycles = spent_between (day * day_length) (day * day_length + day_length) cycles

-- The cap of the call's mode is at most `cap`, and its cost at most `over` above the estimate.
pub record Fits (settings : AdvisorSettings) (cap over : ℕ) (turn : Turn) : Type 0 where
  pub capped : (c : ℕ) → budget_cap turn.request.mode settings.advisor_daily_budget ≡ ok c → c ≤ cap
  pub near :
      (paid_cycle settings turn.request turn.now turn.reply).cost_pln
      ≤ estimate_call_cost turn.request.prompt settings + over

day_in :
    (day t : ℕ)
    → leb (day * day_length) t ≡ true
    → ltb t (day * day_length + day_length) ≡ true
    → day_of t ≡ day
day_in day t low high = ground arith

and_parts : (a b : Bool) → (a && b) ≡ true → (a ≡ true) × (b ≡ true)
and_parts true b e = (refl, e)
and_parts false b e = cc

ok-true : (a b : ℕ) → ok (leb a b) ≡ ok true → a ≤ b
ok-true a b e = leb→le a b (ok-injective e)

budget_allows-le :
    (spent estimated : ℕ) (mode : String) (limit cap : ℕ)
    → ((c : ℕ) → budget_cap mode limit ≡ ok c → c ≤ cap)
    → budget_allows spent estimated mode limit ≡ ok true
    → spent + estimated ≤ cap
unfolding budget_allows
budget_allows-le spent estimated mode limit cap capped e =
    let (c, is_cap, e) =
      >>=-eq-ok (budget_cap mode limit) (λ c. ok (leb (spent + estimated) c)) e in
    omega (arith, ok-true (spent + estimated) c e, capped c is_cap)

charge :
    (test : Bool) (cost rest bound : ℕ)
    → (test ≡ true → cost + rest ≤ bound)
    → rest ≤ bound
    → (if test then cost + rest else rest) ≤ bound
charge true cost rest bound paid h = paid refl
charge false cost rest bound paid h = h

reply_started :
    (settings : AdvisorSettings) (request : CycleRequest) (now : ℕ) (reply : Reply)
    → (paid_cycle settings request now reply).started_at ≡ now
reply_started settings request now provider_error = refl
reply_started settings request now (completion tokens status) = refl

allowed_within :
    (settings : AdvisorSettings) (cap over day : ℕ) (turn : Turn) (cycles : List AdvisorCycle)
    (allowed : Result Bool)
    → Fits settings cap over turn
    → spent_on day cycles ≤ cap + over
    → budget_allows
        (spent_on (day_of turn.now) cycles)
        (estimate_call_cost turn.request.prompt settings)
        turn.request.mode
        settings.advisor_daily_budget
      ≡ allowed
    → spent_on day (
        after cycles
          (allowed >>= (λ b. ok (run_allowed settings turn.request turn.now turn.reply cycles b))))
      ≤ cap + over
allowed_within settings cap over day turn cycles value_error fits h e = h
allowed_within settings cap over day turn cycles (ok false) fits h e = h
allowed_within settings cap over day turn cycles (ok true) fits h e =
    let cycle = paid_cycle settings turn.request turn.now turn.reply in
    charge (inside (day * day_length) (day * day_length + day_length) cycle) cycle.cost_pln
      (spent_on day cycles) (cap + over)
      (λ hit.
        let (low, high) = and_parts (leb (day * day_length) cycle.started_at) _ hit in
        let same : day_of turn.now ≡ day =
          day_in day turn.now
            (subst (λ t. leb (day * day_length) t ≡ true)
              (reply_started settings turn.request turn.now turn.reply) low)
            (subst (λ t. ltb t (day * day_length + day_length) ≡ true)
              (reply_started settings turn.request turn.now turn.reply) high) in
        let room = budget_allows-le (spent_on (day_of turn.now) cycles) _ _ _ cap fits.capped e in
        let room : spent_on day cycles + estimate_call_cost turn.request.prompt settings ≤ cap =
          subst (λ d. spent_on d cycles + estimate_call_cost turn.request.prompt settings ≤ cap)
            same room in
        omega (arith, room, fits.near))
      h

run_locked_within :
    (settings : AdvisorSettings) (cap over day : ℕ) (turn : Turn) (cycles : List AdvisorCycle)
    → Fits settings cap over turn
    → spent_on day cycles ≤ cap + over
    → spent_on day (after cycles (run_locked settings turn.request turn.now turn.reply cycles))
      ≤ cap + over
unfolding run_locked spent_today utc_day_bounds
run_locked_within settings cap over day turn cycles fits h =
    allowed_within settings cap over day turn cycles _ fits h refl

-- If the caps of all the modes called are at most `cap`, and no call costs more than `over` above its
-- estimate, then a day that starts within cap + over never comes to more, whatever calls follow, on
-- this day or another, in any order, with errors of the provider or without.
pub run_turns_within :
    (settings : AdvisorSettings) (cap over day : ℕ) (turns : List Turn) (cycles : List AdvisorCycle)
    → All (Fits settings cap over) turns
    → spent_on day cycles ≤ cap + over
    → spent_on day (run_turns settings turns cycles) ≤ cap + over
run_turns_within settings cap over day [] cycles fits h = h
run_turns_within settings cap over day (turn ∷ turns) cycles (fit, fits) h =
    run_turns_within settings cap over day turns _ fits
      (run_locked_within settings cap over day turn cycles fit h)

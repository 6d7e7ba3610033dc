-- ===== src/Advisor/Budget.antt =====
-- services/advisor/budget.py, and of services/advisor/cycle.py the ledger of paid calls: the sum of
-- the day, the guard before a call and the row behind it. Prices of a million tokens, costs and limits
-- are in ten-thousandths of PLN; a prompt is its length.
mod Laws
mod Tests
use predictor.Prelude.{
  ℕ, ◌+◌, ◌*◌, ◌/◌, max, String, Bool, true, false, ◌&&◌, List, [], ◌∷◌, leb, ltb, str_eq,
  if◌then◌else◌,
}
use predictor.Prelude.Time.{DateTime, naive, aware, day_length, day_of}
use predictor.Prelude.Decimal.{round_half_up}
use predictor.Prelude.Result.{Result, ok, value_error, ◌>>=◌}

abbrev pub reserved_output_tokens : ℕ
reserved_output_tokens = 2048

pub record Tokens : Type 0 where
  pub input : ℕ
  pub output : ℕ
  pub thoughts : ℕ

pub record AdvisorSettings : Type 0 where
  pub llm_price_input : ℕ
  pub llm_price_output : ℕ
  pub advisor_daily_budget : ℕ

unfoldable pub call_cost : Tokens → AdvisorSettings → ℕ
call_cost tokens settings =
    round_half_up
      (tokens.input * settings.llm_price_input
        + (tokens.output + tokens.thoughts) * settings.llm_price_output)
      1000000

unfoldable pub estimate_tokens : ℕ → Tokens
estimate_tokens prompt = record {
  input = max 1 (prompt / 4);
  output = reserved_output_tokens;
  thoughts = 0;
}

unfoldable pub estimate_call_cost : ℕ → AdvisorSettings → ℕ
estimate_call_cost prompt settings = call_cost (estimate_tokens prompt) settings

unfoldable pub budget_cap : String → ℕ → Result ℕ
budget_cap mode limit =
    if str_eq mode "sandbox"
    then ok (round_half_up (limit * 70) 100)
    else if str_eq mode "recommendation"
    then ok limit
    else value_error

unfoldable pub budget_allows : ℕ → ℕ → String → ℕ → Result Bool
budget_allows spent estimated mode limit = do
  cap ← budget_cap mode limit
  ok (leb (spent + estimated) cap)

unfoldable pub utc_day_bounds : DateTime → Result (ℕ × ℕ)
utc_day_bounds (naive t) = value_error
utc_day_bounds (aware t) = ok (day_of t * day_length, day_of t * day_length + day_length)

pub record AdvisorCycle : Type 0 where
  pub mode : String
  pub started_at : ℕ
  pub validation_status : String
  pub tokens : Tokens
  pub cost_pln : ℕ

abbrev pub inside : ℕ → ℕ → AdvisorCycle → Bool
inside start end cycle = leb start cycle.started_at && ltb cycle.started_at end

-- the sum over the rows that started at or after `start` and before `end`
abbrev pub spent_between : ℕ → ℕ → List AdvisorCycle → ℕ
spent_between start end [] = 0
spent_between start end (cycle ∷ cycles) =
    let rest = spent_between start end cycles in
    if inside start end cycle then cycle.cost_pln + rest else rest

unfoldable pub spent_today : List AdvisorCycle → DateTime → Result ℕ
spent_today cycles now = do bounds ← utc_day_bounds now; ok (spent_between bounds.0 bounds.1 cycles)

-- the fields of a `CycleRequest` that the ledger reads
pub record CycleRequest : Type 0 where
  pub mode : String
  pub prompt : ℕ

-- What the provider does: an error of its own, or a completion, with the status of its review.
pub data Reply : Type 0 where
  provider_error : Reply
  completion : Tokens → String → Reply

pub record CycleOutcome : Type 0 where
  pub called : Bool
  pub status : String
  pub cycles : List AdvisorCycle

-- `_cycle`, newest first
abbrev pub paid_cycle : AdvisorSettings → CycleRequest → ℕ → Reply → AdvisorCycle
paid_cycle settings request now provider_error = record {
  mode = request.mode;
  started_at = now;
  validation_status = "provider_error";
  tokens = estimate_tokens request.prompt;
  cost_pln = estimate_call_cost request.prompt settings;
}
paid_cycle settings request now (completion tokens status) = record {
  mode = request.mode;
  started_at = now;
  validation_status = status;
  tokens = tokens;
  cost_pln = call_cost tokens settings;
}

abbrev pub run_allowed :
    AdvisorSettings → CycleRequest → ℕ → Reply → List AdvisorCycle → Bool → CycleOutcome
run_allowed settings request now reply cycles false = record {
  called = false;
  status = "budget";
  cycles = cycles;
}
run_allowed settings request now reply cycles true =
    let cycle = paid_cycle settings request now reply in
    record { called = true; status = cycle.validation_status; cycles = cycle ∷ cycles }

-- `_run_locked`, at the instant that the clock, which is in UTC, reads first
unfoldable pub run_locked :
    AdvisorSettings → CycleRequest → ℕ → Reply → List AdvisorCycle → Result CycleOutcome
run_locked settings request now reply cycles = do
  spent ← spent_today cycles (aware now)
  allowed ←
      budget_allows spent (estimate_call_cost request.prompt settings) request.mode
        settings.advisor_daily_budget
  ok (run_allowed settings request now reply cycles allowed)

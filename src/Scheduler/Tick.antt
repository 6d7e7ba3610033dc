-- ===== src/Scheduler/Tick.antt =====
-- `_tick` of services/scheduler.py: one turn over the slots of PRIORITY_ORDER. What the handlers, the
-- clock and the stop event do in a turn is a script; the lanes of the client and the gate of the live
-- context, which only the handlers read, are left out, as are the writes of rows.
use predictor.Prelude.{
  ℕ, ◌-◌, ◌*◌, ◌/◌, Bool, not, ◌&&◌, Option, none, some, List, [], ◌∷◌, ◌++◌, leb, ◌==◌,
  if◌then◌else◌,
}
use predictor.Prelude.Int.{pos, pos_part, leb_ℤ}
use predictor.Prelude.Time.{aware, second}
use predictor.Prelude.Result.{Result, ok, value_error}
use predictor.Client.State.{QuotaSnapshot}
use predictor.Quota.{LiveBudgetPlan}
use predictor.Quota.Windows.{KickoffLoad}
use predictor.Quota.Plan.{Inputs, plan_live_budget}
use predictor.Quota.Spend.{ContextCredit, quota_allows, context_allowance, refund_context_credit}
use predictor.Scheduler.{
  Settings, State, StatusReply, is_api, limit_of, probing_reset, status_confirms_buffer,
  ensure_quota, prefer_observed,
}

-- what the board says: `_live_match_count`, `_finishing_match_count` and `_forecast`
pub record Board : Type 0 where
  pub live_matches : ℕ
  pub finishing_matches : ℕ
  pub forecast : Option (List KickoffLoad)

-- a slot and what happens in it: whether the stop event is set, the clock, whether the target has
-- passed, and behind the handler the client's quota and calls, the live context's calls, and whether
-- it raised QuotaExhaustedError
pub record Slot : Type 0 where
  pub priority : ℕ
  pub stop : Bool
  pub now : ℕ
  pub past_target : Bool
  pub client_quota : Option QuotaSnapshot
  pub client_calls : ℕ
  pub spent_calls : ℕ
  pub exhausted : Bool

-- a handler that was called: the reading and the plan in force, and its allowance in slot 3
pub record Run : Type 0 where
  pub priority : ℕ
  pub quota : QuotaSnapshot
  pub plan : LiveBudgetPlan
  pub allowance : ℕ

-- the scheduler within a tick: `quota` is the local variable
pub record Turn : Type 0 where
  pub state : State
  pub quota : QuotaSnapshot
  pub credit : ContextCredit

-- the inputs of the plan for a reading
abbrev pub inputs_of : Settings → Board → ℕ → QuotaSnapshot → Inputs
inputs_of settings board now snapshot = record {
  live_matches = board.live_matches;
  remaining = pos_part snapshot.remaining;
  now = aware now;
  target_seconds = settings.live_poll_target_seconds;
  matches_left_today = none;
  forecast = board.forecast;
  finishing_matches = board.finishing_matches;
  limit_day = pos_part (limit_of settings snapshot.limit_day);
  buffer_percent = settings.quota_safety_buffer_percent;
}

-- `_apply_budget`; the interval is cut to the microsecond
abbrev interval_of : LiveBudgetPlan → ℕ
interval_of plan = plan.score_poll_seconds.num * second / plan.score_poll_seconds.den

abbrev pub with_plan : LiveBudgetPlan → State → State
with_plan plan s = record s { live_interval = some (interval_of plan) }

-- the rate of a plan in parts of a call, exact when its denominator divides `scale`
abbrev pub rate_of : ℕ → LiveBudgetPlan → ℕ
rate_of scale plan = plan.context_calls_per_tick.num * scale / plan.context_calls_per_tick.den

abbrev pub room_of : QuotaSnapshot → LiveBudgetPlan → ℕ
room_of quota plan = pos_part quota.remaining - plan.safety_buffer - 1

-- the handlers called in a slot, and the turn, unless the tick ends here
abbrev pub Stepped : Type 0
Stepped = List Run × Option Turn

abbrev pub go_on : Turn → Stepped
go_on turn = ([], some turn)

-- behind the handler; an exhausted quota ends the tick
abbrev pub behind : Slot → Run → Turn → ContextCredit → Stepped
behind slot called turn credit = if slot.exhausted then (called ∷ [], none) else (
  called ∷ [],
  some (record turn {
    state = record turn.state {
      client_quota = slot.client_quota;
      client_calls = slot.client_calls;
    };
    credit = credit;
  }),
)

-- a slot other than 3
abbrev pub call_plain : Slot → LiveBudgetPlan → Turn → Stepped
call_plain slot plan turn =
    behind slot
      (record { priority = slot.priority; quota = turn.quota; plan = plan; allowance = 0 }) turn
      turn.credit

-- slot 3, with its allowance; what it does not spend is put back
abbrev pub call_context : ℕ → Slot → LiveBudgetPlan → Turn → ℕ × ContextCredit → Stepped
call_context scale slot plan turn (allowance, credit) =
    if allowance == 0
    then go_on (record turn { credit = credit })
    else behind slot
        (record {
          priority = slot.priority;
          quota = turn.quota;
          plan = plan;
          allowance = allowance;
        })
        turn
        (refund_context_credit scale credit (allowance - slot.spent_calls) (rate_of scale plan))

abbrev pub call : ℕ → Slot → LiveBudgetPlan → Turn → Stepped
call scale slot plan turn =
    if slot.priority == 3
    then call_context scale slot plan turn
        (context_allowance scale turn.credit (rate_of scale plan) (room_of turn.quota plan))
    else call_plain slot plan turn

-- a slot under its plan
abbrev pub planned : ℕ → Slot → Turn → Result LiveBudgetPlan → Stepped
planned scale slot turn value_error = ([], none)
planned scale slot turn (ok plan) =
    let next = record turn { state = with_plan plan turn.state } in
    if not (quota_allows slot.priority (pos_part turn.quota.remaining) plan)
    then go_on next
    else if leb 4 slot.priority && slot.past_target
    then ([], none)
    else call scale slot plan next

-- one turn of the loop over the slots
unfoldable pub step : Settings → Board → ℕ → Slot → Turn → Stepped
step settings board scale slot turn =
    let quota = prefer_observed slot.now turn.state turn.quota in
    let next = record turn { state = record turn.state { quota = some quota }; quota = quota } in
    if slot.stop
    then ([], none)
    else planned scale slot next (plan_live_budget (inputs_of settings board slot.now quota))

-- the loop: the handlers called, in order
unfoldable pub slots : Settings → Board → ℕ → List Slot → Turn → List Run
slots settings board scale [] turn = []
slots settings board scale (slot ∷ rest) turn =
    (step settings board scale slot turn).0 ++ elim (step settings board scale slot turn).1 [
      | none ↦ []
      | some next ↦ slots settings board scale rest next
    ]

-- the part of `_tick` behind a reading
abbrev pub tick_with :
    Settings → Board → ℕ → ℕ → List Slot → ContextCredit → QuotaSnapshot × State → List Run
tick_with settings board scale now script credit (read, s) =
    let begun = record s { calls_baseline = s.client_calls } in
    let quota = prefer_observed now begun read in
    let state = record begun { quota = some quota } in
    if probing_reset settings now state
    then []
    else if is_api quota && leb_ℤ quota.remaining (pos 0)
    then []
    else if status_confirms_buffer settings now state
    then []
    else slots settings board scale script
        (record { state = state; quota = quota; credit = credit })

abbrev pub tick_if :
    Settings → Board → ℕ → ℕ → List Slot → ContextCredit → Option (QuotaSnapshot × State) → List Run
tick_if settings board scale now script credit none = []
tick_if settings board scale now script credit (some reading) =
    tick_with settings board scale now script credit reading

-- `_tick`: the handlers that it calls
unfoldable pub tick :
    Settings
    → Board
    → ℕ
    → ℕ
    → List Slot
    → ContextCredit
    → Option QuotaSnapshot
    → StatusReply
    → State
    → List Run
tick settings board scale now script credit after reply s =
    tick_if settings board scale now script credit (ensure_quota settings now after reply s)

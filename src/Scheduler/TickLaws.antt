-- ===== src/Scheduler/TickLaws.antt =====
-- No handler is called inside the safety buffer.
use predictor.Prelude.{
  ℕ, ◌+◌, ◌<◌, ◌≡◌, refl, true, ◌&&◌, Option, none, some, List, [], ◌∷◌, ◌++◌, All, arith, leb,
  Bool-cases, inl, inr, ◌==◌,
}
use predictor.Prelude.Int.{pos, pos_part, leb_ℤ}
use predictor.Prelude.Result.{Result, ok, value_error}
use predictor.Client.State.{QuotaSnapshot}
use predictor.Quota.{LiveBudgetPlan, safety_buffer_requests}
use predictor.Quota.Plan.{plan_live_budget}
use predictor.Quota.PlanLaws.{plan_live_budget-IsWithin, quota_allows-kept}
use predictor.Quota.Spend.{ContextCredit, quota_allows, context_allowance}
use predictor.Quota.CreditLaws.{context_allowance-le}
use predictor.Scheduler.{
  Settings, State, StatusReply, is_api, limit_of, probing_reset, status_confirms_buffer,
  ensure_quota, prefer_observed,
}
use predictor.Scheduler.Tick.{
  Board, Slot, Run, Turn, inputs_of, with_plan, rate_of, room_of, behind, call, planned, step,
  slots, tick_with, tick_if, tick,
}

-- the buffer of the reading of a run, by the settings
abbrev pub buffer_for : Settings → QuotaSnapshot → ℕ
buffer_for settings quota =
    safety_buffer_requests (pos_part (limit_of settings quota.limit_day))
      settings.quota_safety_buffer_percent

-- The reading has more calls left than the buffer and the allowance together, by a plan that lets the
-- priority through.
pub record IsOutside (settings : Settings) (run : Run) : Type 0 where
  pub allowed : quota_allows run.priority (pos_part run.quota.remaining) run.plan ≡ true
  pub buffer : run.plan.safety_buffer ≡ buffer_for settings run.quota
  pub outside : run.plan.safety_buffer + run.allowance < pos_part run.quota.remaining

All-append : {A : Type 0} (P : A → Type 0) (xs ys : List A) → All P xs → All P ys → All P (xs ++ ys)
All-append P [] ys h k = k
All-append P (x ∷ xs) ys (h, hs) k = (h, All-append P xs ys hs k)

module _ (settings : Settings) where
  behind-IsOutside :
      (slot : Slot) (run : Run) (turn : Turn) (credit : ContextCredit)
      → IsOutside settings run
      → All (IsOutside settings) (behind slot run turn credit).0
  behind-IsOutside slot run turn credit h = elim (Bool-cases slot.exhausted) [
    | inl e ↦ rw e (h, tt)
    | inr e ↦ rw e (h, tt)
  ]

  above_buffer :
      (priority remaining : ℕ) (plan : LiveBudgetPlan)
      → quota_allows priority remaining plan ≡ true
      → plan.safety_buffer < remaining
  above_buffer priority remaining plan e =
      let kept = quota_allows-kept priority remaining plan e in ground arith

  call-IsOutside :
      (scale : ℕ) (slot : Slot) (plan : LiveBudgetPlan) (turn : Turn)
      → quota_allows slot.priority (pos_part turn.quota.remaining) plan ≡ true
      → plan.safety_buffer ≡ buffer_for settings turn.quota
      → All (IsOutside settings) (call scale slot plan turn).0
  call-IsOutside scale slot plan turn allowed buffer =
      let above = above_buffer slot.priority (pos_part turn.quota.remaining) plan allowed in
      let (allowance, credit) =
        context_allowance scale turn.credit (rate_of scale plan) (room_of turn.quota plan) in
      let inside =
        context_allowance-le scale turn.credit (rate_of scale plan) (room_of turn.quota plan) in
      elim (Bool-cases (slot.priority == 3)) [
        | inr e ↦ rw e (
            behind-IsOutside slot _ turn turn.credit
              (record { allowed = allowed; buffer = buffer; outside = omega arith }))
        | inl e ↦ elim (Bool-cases (allowance == 0)) [
          | inl z ↦ rw (e, z) tt
          | inr z ↦
              rw (e, z)
                (behind-IsOutside slot _ turn _
                  (record { allowed = allowed; buffer = buffer; outside = omega arith }))
        ]
      ]

  planned-IsOutside :
      (scale : ℕ) (slot : Slot) (turn : Turn) (board : Board) (now : ℕ) (r : Result LiveBudgetPlan)
      → plan_live_budget (inputs_of settings board now turn.quota) ≡ r
      → All (IsOutside settings) (planned scale slot turn r).0
  planned-IsOutside scale slot turn board now value_error at = tt
  planned-IsOutside scale slot turn board now (ok plan) at =
      let (_, buffer) =
        plan_live_budget-IsWithin (inputs_of settings board now turn.quota) plan at in
      elim (Bool-cases (quota_allows slot.priority (pos_part turn.quota.remaining) plan)) [
        | inr e ↦ rw e tt
        | inl e ↦ elim (Bool-cases (leb 4 slot.priority && slot.past_target)) [
          | inl late ↦ rw (e, late) tt
          | inr late ↦
              rw (e, late)
                (call-IsOutside scale slot plan (record turn { state = with_plan plan turn.state })
                  e buffer)
        ]
      ]

  step-IsOutside :
      (board : Board) (scale : ℕ) (slot : Slot) (turn : Turn)
      → All (IsOutside settings) (step settings board scale slot turn).0
  unfolding step
  step-IsOutside board scale slot turn =
      let quota = prefer_observed slot.now turn.state turn.quota in
      let next : Turn = record turn {
        state = record turn.state { quota = some quota };
        quota = quota;
      } in
      elim (Bool-cases slot.stop) [
        | inl e ↦ rw e tt
        | inr e ↦ rw e (
            planned-IsOutside scale slot next board slot.now
              (plan_live_budget (inputs_of settings board slot.now quota)) refl)
      ]

  slots-IsOutside :
      (board : Board) (scale : ℕ) (script : List Slot) (turn : Turn)
      → All (IsOutside settings) (slots settings board scale script turn)
  unfolding slots
  slots-IsOutside board scale [] turn = tt
  slots-IsOutside board scale (slot ∷ rest) turn =
      All-append (IsOutside settings) (step settings board scale slot turn).0 _
        (step-IsOutside board scale slot turn)
        (elim (step settings board scale slot turn).1
          as (λ o.
            All (IsOutside settings)
              (elim o [ none ↦ [] | some next ↦ slots settings board scale rest next ])) [
                | none ↦ tt
                | some next ↦ slots-IsOutside board scale rest next
              ])

  tick_with-IsOutside :
      (board : Board) (scale now : ℕ) (script : List Slot) (credit : ContextCredit)
      (read : QuotaSnapshot) (s : State)
      → All (IsOutside settings) (tick_with settings board scale now script credit (read, s))
  tick_with-IsOutside board scale now script credit read s =
      let begun : State = record s { calls_baseline = s.client_calls } in
      let quota = prefer_observed now begun read in
      let state : State = record begun { quota = some quota } in
      elim (Bool-cases (probing_reset settings now state)) [
        | inl e ↦ rw e tt
        | inr e ↦ elim (Bool-cases (is_api quota && leb_ℤ quota.remaining (pos 0))) [
          | inl f ↦ rw (e, f) tt
          | inr f ↦ elim (Bool-cases (status_confirms_buffer settings now state)) [
            | inl g ↦ rw (e, f, g) tt
            | inr g ↦
                rw (e, f, g)
                  (slots-IsOutside board scale script
                    (record { state = state; quota = quota; credit = credit }))
          ]
        ]
      ]

  tick_if-IsOutside :
      (board : Board) (scale now : ℕ) (script : List Slot) (credit : ContextCredit)
      (reading : Option (QuotaSnapshot × State))
      → All (IsOutside settings) (tick_if settings board scale now script credit reading)
  tick_if-IsOutside board scale now script credit none = tt
  tick_if-IsOutside board scale now script credit (some (read, s)) =
      tick_with-IsOutside board scale now script credit read s

  -- Every handler that a tick calls runs under a plan that lets its priority through, whose safety
  -- buffer is the configured share of the limit of the reading in force; and that reading has more
  -- calls left than the buffer and, in slot 3, the allowance of the live context together.
  pub tick-IsOutside :
      (board : Board) (scale now : ℕ) (script : List Slot) (credit : ContextCredit)
      (after : Option QuotaSnapshot) (reply : StatusReply) (s : State)
      → All (IsOutside settings) (tick settings board scale now script credit after reply s)
  unfolding tick
  tick-IsOutside board scale now script credit after reply s =
      tick_if-IsOutside board scale now script credit (ensure_quota settings now after reply s)

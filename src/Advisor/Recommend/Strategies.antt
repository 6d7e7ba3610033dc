-- ===== src/Advisor/Recommend/Strategies.antt =====
-- `promote_strategy`, `set_strategy_status`, `launch_proposed` and what they call, of
-- services/advisor/recommend_ops.py. A table has its rows in the order of their ids.
use predictor.Prelude.{
  ℕ, ◌+◌, String, Bool, not, ◌&&◌, ◌||◌, Option, none, some, List, [], ◌∷◌, ◌++◌, leb, length, keep,
  is_in, str_eq, ◌==◌, if◌then◌else◌,
}
use predictor.Prelude.Int.{ℤ, pos, ◌+ℤ◌}
use predictor.Prelude.Result.{Result, ok, value_error}
use predictor.Advisor.Domain.{Settlement}
use predictor.Advisor.Odds.{settled_pnl}
use predictor.Advisor.Sandbox.Book.{Strategy, Version, Coupon, Row, coupon_rows, find_strategy}
use predictor.Advisor.Sandbox.Place.{set_status}
use predictor.Advisor.Recommend.{net_yield, max_drawdown, promotion_block}

pub record StrategyEvent : Type 0 where
  pub strategy_id : ℕ
  pub previous_status : String
  pub new_status : String
  pub source : String
  pub note : String

pub record Desk : Type 0 where
  pub strategies : List Strategy
  pub versions : List Version
  pub coupons : List Coupon
  pub events : List StrategyEvent

-- the codes of `ActionError`; `bad_value` is a ValueError from a price
pub data ActionResult (A : Type 0) : Type 0 where
  done : A → ActionResult A
  action_error : String → ActionResult A
  bad_value : ActionResult A

-- profits and stakes of the settled rows that have a price
abbrev add_pnl : ℕ → Result ℤ → Result (List ℤ × ℕ) → Result (List ℤ × ℕ)
add_pnl stake (ok pnl) (ok (pnls, stakes)) = ok (pnl ∷ pnls, stake + stakes)
add_pnl stake _ _ = value_error

abbrev settlement_of : String → Settlement
settlement_of status = if str_eq status "won" then Settlement.won else Settlement.lost

abbrev settled_rows : List Row → Result (List ℤ × ℕ)
settled_rows [] = ok ([], 0)
settled_rows ((stake, none, payout_keep, status) ∷ rows) = settled_rows rows
settled_rows ((stake, some odd, payout_keep, status) ∷ rows) =
    let rest = settled_rows rows in
    if is_in status ("won" ∷ "lost" ∷ [])
    then add_pnl stake (settled_pnl stake odd (settlement_of status) payout_keep) rest
    else rest

abbrev total : List ℤ → ℤ
total [] = pos 0
total (pnl ∷ pnls) = pnl +ℤ total pnls

-- the number of settled coupons, the yield, and the drawdown
pub record SandboxBook : Type 0 where
  pub settled : ℕ
  pub yield_net : Option ℤ
  pub drawdown : ℕ

abbrev book_of : Result (List ℤ × ℕ) → Result SandboxBook
book_of value_error = value_error
book_of (ok (pnls, stakes)) = ok (record {
  settled = length pnls;
  yield_net = net_yield (total pnls) stakes;
  drawdown = max_drawdown pnls;
})

-- `_sandbox_book` without a limit
unfoldable pub sandbox_book : Desk → ℕ → Result SandboxBook
unfolding net_yield max_drawdown settled_pnl coupon_rows ◌+ℤ◌
sandbox_book desk strategy_id =
    book_of (settled_rows (coupon_rows desk.versions strategy_id desk.coupons))

abbrev find_baseline : List Strategy → Option Strategy
find_baseline [] = none
find_baseline (strategy ∷ strategies) =
    let rest = find_baseline strategies in
    if str_eq strategy.kind "baseline" then some strategy else rest

abbrev yield_of : Result SandboxBook → Result (Option ℤ)
yield_of value_error = value_error
yield_of (ok book) = ok book.yield_net

-- `_baseline_yield`
unfoldable pub baseline_yield : Desk → Result (Option ℤ)
unfolding sandbox_book
baseline_yield desk = elim (find_baseline desk.strategies) [
  | none ↦ ok none
  | some strategy ↦ yield_of (sandbox_book desk strategy.id)
]

-- `_strategy_move`
unfoldable pub strategy_move : Strategy → String → String → String → Desk → Desk
unfolding set_status
strategy_move strategy status source note desk =
    if str_eq strategy.status status then desk else record desk {
      strategies = set_status strategy.id status desk.strategies;
      events =
          desk.events
          ++ record {
            strategy_id = strategy.id;
            previous_status = strategy.status;
            new_status = status;
            source = source;
            note = note;
          }
            ∷ [];
    }

abbrev pub find_promoted : List Strategy → Option Strategy
find_promoted [] = none
find_promoted (strategy ∷ strategies) =
    let rest = find_promoted strategies in
    if str_eq strategy.status "promoted" then some strategy else rest

-- the promoted strategy, if it is another one, goes back to the sandbox
abbrev pub replace_current : ℕ → Option Strategy → Desk → Desk
replace_current strategy_id none desk = desk
replace_current strategy_id (some current) desk =
    if current.id == strategy_id
    then desk
    else strategy_move current "sandbox" "operator" "replaced" desk

-- the strategy is read before the other one is replaced
unfoldable pub promote : Strategy → Desk → Desk
unfolding strategy_move
promote strategy desk =
    strategy_move strategy "promoted" "operator" ""
      (replace_current strategy.id (find_promoted desk.strategies) desk)

abbrev pub block_of : Result SandboxBook → Result (Option ℤ) → Result (Option String)
block_of (ok book) (ok baseline) =
    ok (promotion_block book.settled book.yield_net baseline book.drawdown)
block_of _ _ = value_error

abbrev pub promote_if : Result (Option String) → Strategy → Desk → ActionResult Desk
promote_if value_error strategy desk = bad_value
promote_if (ok (some block)) strategy desk = action_error block
promote_if (ok none) strategy desk = done (promote strategy desk)

abbrev pub promote_found : Option Strategy → Desk → ActionResult Desk
promote_found none desk = action_error "missing"
promote_found (some strategy) desk =
    if not (str_eq strategy.kind "llm") || str_eq strategy.status "retired"
    then action_error "retired"
    else promote_if (block_of (sandbox_book desk strategy.id) (baseline_yield desk)) strategy desk

unfoldable pub promote_strategy : ℕ → Desk → ActionResult Desk
promote_strategy strategy_id desk = promote_found (find_strategy desk.strategies strategy_id) desk

abbrev pub set_found : Option Strategy → String → Desk → ActionResult Desk
set_found none status desk = action_error "missing"
set_found (some strategy) status desk =
    if str_eq strategy.status "retired"
    then action_error "retired"
    else if not (is_in status ("sandbox" ∷ "paused" ∷ "retired" ∷ []))
    then action_error "status"
    else if str_eq status "sandbox" && not (str_eq strategy.status "paused")
    then action_error "status"
    else done (strategy_move strategy status "operator" "" desk)

unfoldable pub set_strategy_status : ℕ → String → Desk → ActionResult Desk
set_strategy_status strategy_id status desk =
    set_found (find_strategy desk.strategies strategy_id) status desk

abbrev pub active_llm : Strategy → Bool
active_llm strategy =
    str_eq strategy.kind "llm" && is_in strategy.status ("sandbox" ∷ "promoted" ∷ [])

abbrev pub launch_found : Option Strategy → ℕ → Desk → ActionResult Desk
launch_found none limit desk = action_error "missing"
launch_found (some strategy) limit desk =
    if not (str_eq strategy.status "proposed") || not (str_eq strategy.kind "llm")
    then action_error "status"
    else if leb limit (length (keep active_llm desk.strategies))
    then action_error "strategy_limit"
    else done (strategy_move strategy "sandbox" "operator" "launch" desk)

unfoldable pub launch_proposed : ℕ → ℕ → Desk → ActionResult Desk
launch_proposed strategy_id limit desk =
    launch_found (find_strategy desk.strategies strategy_id) limit desk

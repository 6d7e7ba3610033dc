-- ===== src/Advisor/Recommend/ReachLaws.antt =====
-- Whatever happens to the strategies, at most one of them is promoted.
use predictor.Prelude.{
  ℕ, ◌≡◌, refl, sym, subst, String, Bool, true, false, not, ◌&&◌, ◌||◌, Option, none, some, List,
  [], ◌∷◌, arith, is_in, is_in→OneOf, leb, length, keep, str_eq, inl, inr, if◌then◌else◌,
}
use predictor.Prelude.Result.{Result, ok, value_error}
use predictor.Prelude.Time.{DateTime}
use predictor.Advisor.Sandbox.Slips.{Slip}
use predictor.Advisor.Sandbox.Book.{Strategy, Coupon, Db, find_strategy}
use predictor.Advisor.Sandbox.Place.{done as placed, Ids, Placement, place_sandbox_coupons}
use predictor.Advisor.Sandbox.Release.{release_funded_strategies}
use predictor.Advisor.Recommend.DeskLaws.{place_sandbox_coupons-IsSound, release-IsSound}
use predictor.Advisor.Recommend.StrategyLaws.{IsSound, strategy_move-IsSound, promote-IsSound}
use predictor.Advisor.Recommend.Strategies.{
  Desk, ActionResult, done, action_error, strategy_move, promote_if, promote_found,
  promote_strategy, set_found, set_strategy_status, active_llm, launch_found, launch_proposed,
  block_of, sandbox_book, baseline_yield,
}

done-injective : {A : Type 0} {a b : A} → done a ≡ done b → a ≡ b
done-injective e = cc

guarded :
    (b : Bool) (code : String) (r : ActionResult Desk) {desk : Desk}
    → (if b then action_error code else r) ≡ done desk
    → (b ≡ false) × (r ≡ done desk)
guarded true code r e = cc
guarded false code r e = (refl, e)

promote_if-IsSound :
    (block : Result (Option String)) (s : Strategy) (desk desk' : Desk)
    → promote_if block s desk ≡ done desk'
    → IsSound desk.strategies
    → IsSound desk'.strategies
promote_if-IsSound value_error s desk desk' e sound = cc
promote_if-IsSound (ok (some _)) s desk desk' e sound = cc
promote_if-IsSound (ok none) s desk desk' e sound =
    subst (λ d. IsSound d.strategies) (done-injective e) (promote-IsSound s desk sound)

promote_found-IsSound :
    (found : Option Strategy) (desk desk' : Desk)
    → promote_found found desk ≡ done desk'
    → IsSound desk.strategies
    → IsSound desk'.strategies
promote_found-IsSound none desk desk' e sound = cc
promote_found-IsSound (some s) desk desk' e sound =
    let (_, passed) =
      guarded (not (str_eq s.kind "llm") || str_eq s.status "retired") "retired"
        (promote_if (block_of (sandbox_book desk s.id) (baseline_yield desk)) s desk) e in
    promote_if-IsSound (block_of (sandbox_book desk s.id) (baseline_yield desk)) s desk desk' passed
      sound

settable :
    (status : String)
    → is_in status ("sandbox" ∷ "paused" ∷ "retired" ∷ []) ≡ true
    → str_eq status "promoted" ≡ false
settable status h = elim (is_in→OneOf status ("sandbox" ∷ "paused" ∷ "retired" ∷ []) h) [
  | inl e ↦ rw e refl
  | inr (inl e) ↦ rw e refl
  | inr (inr (inl e)) ↦ rw e refl
  | inr (inr (inr e)) ↦ absurd e
]

set_found-IsSound :
    (found : Option Strategy) (status : String) (desk desk' : Desk)
    → set_found found status desk ≡ done desk'
    → IsSound desk.strategies
    → IsSound desk'.strategies
set_found-IsSound none status desk desk' e sound = cc
set_found-IsSound (some s) status desk desk' e sound =
    let moved = strategy_move s status "operator" "" desk in
    let third : ActionResult Desk =
      if str_eq status "sandbox" && not (str_eq s.status "paused")
      then action_error "status"
      else done moved in
    let second : ActionResult Desk =
      if not (is_in status ("sandbox" ∷ "paused" ∷ "retired" ∷ []))
      then action_error "status"
      else third in
    let (_, e2) = guarded (str_eq s.status "retired") "retired" second e in
    let (known, e3) =
      guarded (not (is_in status ("sandbox" ∷ "paused" ∷ "retired" ∷ []))) "status" third e2 in
    let (_, e4) =
      guarded (str_eq status "sandbox" && not (str_eq s.status "paused")) "status" (done moved)
        e3 in
    subst (λ d. IsSound d.strategies) (done-injective e4)
      (strategy_move-IsSound s status "operator" "" desk (settable status (not_false known)) sound)
  where
    not_false : {b : Bool} → not b ≡ false → b ≡ true
    not_false h = ground arith

launch_found-IsSound :
    (found : Option Strategy) (limit : ℕ) (desk desk' : Desk)
    → launch_found found limit desk ≡ done desk'
    → IsSound desk.strategies
    → IsSound desk'.strategies
launch_found-IsSound none limit desk desk' e sound = cc
launch_found-IsSound (some s) limit desk desk' e sound =
    let moved = strategy_move s "sandbox" "operator" "launch" desk in
    let second : ActionResult Desk =
      if leb limit (length (keep active_llm desk.strategies))
      then action_error "strategy_limit"
      else done moved in
    let (_, e2) =
      guarded (not (str_eq s.status "proposed") || not (str_eq s.kind "llm")) "status" second e in
    let (_, e3) =
      guarded (leb limit (length (keep active_llm desk.strategies))) "strategy_limit" (done moved)
        e2 in
    subst (λ d. IsSound d.strategies) (done-injective e3)
      (strategy_move-IsSound s "sandbox" "operator" "launch" desk refl sound)

-- What happens at the desk: the operator promotes a strategy, sets its status or launches it; coupons
-- are placed in the sandbox, from the desk's tables; paused strategies are released; and coupons are
-- settled, which leaves the strategies alone.
pub data Acts : Desk → Desk → Type 0 where
  promotes : {desk desk' : Desk} (id : ℕ) → promote_strategy id desk ≡ done desk' → Acts desk desk'
  sets :
      {desk desk' : Desk} (id : ℕ) (status : String)
      → set_strategy_status id status desk ≡ done desk'
      → Acts desk desk'
  launches :
      {desk desk' : Desk} (id limit : ℕ)
      → launch_proposed id limit desk ≡ done desk'
      → Acts desk desk'
  places :
      (desk : Desk) (db db' : Db) (placement : Placement) (in_transaction : Bool) (ids : Ids)
      (slips : List Slip) (placed_at : DateTime) (kind : String)
      → db.strategies ≡ desk.strategies
      → db.versions ≡ desk.versions
      → db.coupons ≡ desk.coupons
      → place_sandbox_coupons in_transaction ids slips placed_at kind db ≡ placed (placement, db')
      → Acts desk (record desk { strategies = db'.strategies; coupons = db'.coupons })
  releases :
      (desk : Desk) (strategies : List Strategy)
      → release_funded_strategies desk.versions desk.coupons desk.strategies ≡ ok strategies
      → Acts desk (record desk { strategies = strategies })
  settles : (desk : Desk) (coupons : List Coupon) → Acts desk (record desk { coupons = coupons })

pub data Reaches (start : Desk) : Desk → Type 0 where
  here : Reaches start start
  after : {desk desk' : Desk} → Reaches start desk → Acts desk desk' → Reaches start desk'

Acts-IsSound :
    {desk desk' : Desk} → Acts desk desk' → IsSound desk.strategies → IsSound desk'.strategies
unfolding promote_strategy set_strategy_status launch_proposed
Acts-IsSound {desk = desk} {desk' = desk'} (promotes id e) sound =
    promote_found-IsSound (find_strategy desk.strategies id) desk desk' e sound
Acts-IsSound {desk = desk} {desk' = desk'} (sets id status e) sound =
    set_found-IsSound (find_strategy desk.strategies id) status desk desk' e sound
Acts-IsSound {desk = desk} {desk' = desk'} (launches id limit e) sound =
    launch_found-IsSound (find_strategy desk.strategies id) limit desk desk' e sound
Acts-IsSound (places desk db db' placement t ids slips placed_at kind same versions coupons e)
      sound =
    place_sandbox_coupons-IsSound t ids slips placed_at kind db (placement, db') e
      (subst IsSound (sym same) sound)
Acts-IsSound (releases desk strategies e) sound =
    release-IsSound desk.versions desk.coupons desk.strategies strategies e sound
Acts-IsSound (settles desk coupons) sound = sound

-- However the operator promotes, pauses, retires and launches strategies, while sandbox coupons are
-- placed, paused strategies released and coupons settled, at most one strategy is promoted and each id
-- still names one strategy, if that was so at the start.
pub Reaches-IsSound :
    (start desk : Desk) → Reaches start desk → IsSound start.strategies → IsSound desk.strategies
Reaches-IsSound start desk here sound = sound
Reaches-IsSound start desk (after before act) sound =
    Acts-IsSound act (Reaches-IsSound start _ before sound)

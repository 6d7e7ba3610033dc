-- ===== src/Quota/CreditLaws.antt =====
-- What the credit of the live context gives, and what becomes of its fractions.
use native.Mathlib.Nat.{div-mul-le_self}
use predictor.Prelude.{
  subst, false, Bool-cases, inl, inr, refl, ℕ, ◌+◌, ◌-◌, ◌*◌, ◌≤◌, ◌≡◌, ap, min, List, [], ◌∷◌,
  arith, leb, ◌==◌, ◌/◌, if◌then◌else◌,
}
use predictor.Quota.Spend.{
  ContextCredit, draw_context_credit, refund_context_credit, context_allowance,
}

-- the calls of a number of ticks, each of a rate and a room, and the credit behind them
abbrev pub allowances : ℕ → ContextCredit → List (ℕ × ℕ) → ℕ × ContextCredit
allowances scale credit [] = (0, credit)
allowances scale credit ((rate, room) ∷ ticks) =
    let (allowed, next) = context_allowance scale credit rate room in
    let (rest, last) = allowances scale next ticks in (allowed + rest, last)

-- the sum of the rates
abbrev pub paid : List (ℕ × ℕ) → ℕ
paid [] = 0
paid ((rate, room) ∷ ticks) = rate + paid ticks

-- what the cap of a tick cuts off its credit, in parts of a call; a rate of 0 leaves the credit alone
abbrev cut : ContextCredit → ℕ → ℕ
cut credit rate = if rate == 0 then 0 else (credit.balance + rate) - rate * 3

-- the same in a number of ticks
abbrev pub lost : ℕ → ContextCredit → List (ℕ × ℕ) → ℕ
lost scale credit [] = 0
lost scale credit ((rate, room) ∷ ticks) =
    cut credit rate + lost scale (context_allowance scale credit rate room).1 ticks

-- the calls of a rate and a room: whole calls of the capped credit, and no more than the room
abbrev pub whole_calls : ℕ → ContextCredit → ℕ → ℕ → ℕ
whole_calls scale credit rate room =
    if rate == 0 then 0 else min room (min (rate * 3) (credit.balance + rate) / scale)

draw-exact :
    (scale : ℕ) (credit : ContextCredit) (rate : ℕ)
    → let (drawn, left) = draw_context_credit scale credit rate in
      left.balance + drawn * scale + cut credit rate ≡ credit.balance + rate
unfolding draw_context_credit
draw-exact scale credit rate =
    let whole = div-mul-le_self (min (rate * 3) (credit.balance + rate)) scale in ground arith

draw_under :
    (scale : ℕ) (credit : ContextCredit) (rate : ℕ)
    → (rate == 0) ≡ false
    → let (drawn, left) = draw_context_credit scale credit rate in
      left.balance + drawn * scale ≤ rate * 3
unfolding draw_context_credit
draw_under scale credit rate e =
    let whole = div-mul-le_self (min (rate * 3) (credit.balance + rate)) scale in ground arith

refund-exact :
    (scale : ℕ) (credit : ContextCredit) (unused rate : ℕ)
    → credit.balance + unused * scale ≤ rate * 3
    → (rate == 0) ≡ false
    → (refund_context_credit scale credit unused rate).balance ≡ credit.balance + unused * scale
unfolding refund_context_credit
refund-exact scale credit unused rate under e = elim (Bool-cases (unused == 0)) [
  | inl none_left ↦
      let nothing : unused ≡ 0 = ground arith in
      let gone : unused * scale ≡ 0 * scale = ap (λ n. n * scale) nothing in
      rw none_left (omega (arith, gone))
  | inr some_left ↦ rw (some_left, e) (omega (arith, under))
]

allowed-split :
    (drawn room scale : ℕ)
    → let allowed = if leb drawn room then drawn else room in
      allowed * scale + (drawn - allowed) * scale ≡ drawn * scale
allowed-split drawn room scale =
    let allowed = if leb drawn room then drawn else room in
    let whole : allowed + (drawn - allowed) ≡ drawn = ground arith in
    let scaled = ap (λ calls. calls * scale) whole in omega arith

draw-calls :
    (scale : ℕ) (credit : ContextCredit) (rate : ℕ)
    → (rate == 0) ≡ false
    → (draw_context_credit scale credit rate).0 ≡ min (rate * 3) (credit.balance + rate) / scale
unfolding draw_context_credit
draw-calls scale credit rate e = ground arith

-- One tick: the calls, and what becomes of the credit.
abbrev Exact : ℕ → ContextCredit → ℕ → ℕ → Type 0
Exact scale credit room rate =
    let (allowed, next) = context_allowance scale credit rate room in
    (allowed ≡ whole_calls scale credit rate room)
    × (next.balance + allowed * scale + cut credit rate ≡ credit.balance + rate)

idle-Exact : (scale : ℕ) (credit : ContextCredit) (room : ℕ) → Exact scale credit room 0
unfolding context_allowance draw_context_credit refund_context_credit
idle-Exact scale credit room = elim (Bool-cases (leb 0 room)) [
  | inl e ↦ rw e (refl, omega arith)
  | inr e ↦ absurd (ground arith)
]

allowance-Exact :
    (scale : ℕ) (credit : ContextCredit) (rate room : ℕ) → Exact scale credit room rate
unfolding context_allowance
allowance-Exact scale credit rate room = elim (Bool-cases (rate == 0)) [
  | inl e ↦
      let idle : 0 ≡ rate = ground arith in
      subst (Exact scale credit room) idle (idle-Exact scale credit room)
  | inr e ↦
      let (drawn, left) = draw_context_credit scale credit rate in
      let allowed = if leb drawn room then drawn else room in
      let split = allowed-split drawn room scale in
      let under = draw_under scale credit rate e in
      let back = refund-exact scale left (drawn - allowed) rate (omega (arith, split, under)) e in
      let calls = draw-calls scale credit rate e in
      (ground (arith, calls), omega (arith, split, back, draw-exact scale credit rate))
]

pub context_allowance-le :
    (scale : ℕ) (credit : ContextCredit) (rate room : ℕ)
    → (context_allowance scale credit rate room).0 ≤ room
unfolding context_allowance
context_allowance-le scale credit rate room = ground arith

-- what the ticks should give, one by one: whole calls of the capped credit, and no more than the room
abbrev pub expected : ℕ → ContextCredit → List (ℕ × ℕ) → ℕ
expected scale credit [] = 0
expected scale credit ((rate, room) ∷ ticks) =
    whole_calls scale credit rate room
    + expected scale (context_allowance scale credit rate room).1 ticks

-- In any number of ticks, each with its rate and its room, each tick gives the whole calls that its
-- credit, under a cap of three rates, comes to, or its room if that is less; and no part of a call is
-- lost but what the cap cuts off: the first credit and all rates are the calls given, the last credit,
-- and what was cut off.
pub allowances-exact :
    (scale : ℕ) (credit : ContextCredit) (ticks : List (ℕ × ℕ))
    → let (calls, last) = allowances scale credit ticks in
      (calls ≡ expected scale credit ticks)
      × (last.balance + calls * scale + lost scale credit ticks ≡ credit.balance + paid ticks)
allowances-exact scale credit [] = (refl, omega arith)
allowances-exact scale credit ((rate, room) ∷ ticks) =
    let next = (context_allowance scale credit rate room).1 in
    let (given, pays) = allowance-Exact scale credit rate room in
    let (rest, left) = allowances-exact scale next ticks in
    (omega (arith, given, rest), omega (arith, pays, left))

-- ===== src/Quota/DripLaws.antt =====
-- The share of history spends the whole surplus until midnight, in even parts.
use native.Mathlib.Nat.{mul-le-mul_right, le_of_mul-le-mul_right}
use predictor.Prelude.{
  ℕ, zero, suc, ◌+◌, ◌-◌, ◌*◌, ◌≤◌, ◌<◌, ◌≡◌, refl, subst, Bool-cases, inl, inr, false, min, max,
  List, [], ◌∷◌, arith, leb, ◌==◌,
}
use predictor.Prelude.Ratio.{ceil_div}
use predictor.Prelude.Ratio.Laws.{le-ceil_div, ceil_div-le}
use predictor.Quota.Spend.{history_call_allowance}

-- the allowances of the windows until midnight, one after the other, each spent in full
abbrev pub drip : ℕ → ℕ → ℕ → ℕ → List ℕ
drip zero surplus cycle cap = []
drip (suc windows) surplus cycle cap =
    let calls = history_call_allowance surplus (suc windows * cycle) cycle cap in
    calls ∷ drip windows (surplus - calls) cycle cap

abbrev pub total : List ℕ → ℕ
total [] = 0
total (n ∷ ns) = n + total ns

-- each at most a bound
abbrev pub AllAtMost : ℕ → List ℕ → Type 0
AllAtMost bound [] = 0 ≤ bound
AllAtMost bound (n ∷ ns) = (n ≤ bound) × AllAtMost bound ns

-- The share before it is cut at the surplus.
share : ℕ → ℕ → ℕ → ℕ
share surplus windows cycle = ceil_div (surplus * cycle) (max cycle (suc windows * cycle))

share-covers :
    (surplus windows cycle : ℕ) → 0 < cycle → surplus ≤ share surplus windows cycle * suc windows
unfolding share
share-covers surplus windows cycle h =
    let longest : max cycle (suc windows * cycle) ≡ suc windows * cycle = omega arith in
    let reached =
      subst (λ longer. surplus * cycle ≤ share surplus windows cycle * longer) longest
        (le-ceil_div (surplus * cycle) (max cycle (suc windows * cycle)) (omega arith)) in
    let reached : surplus * cycle ≤ share surplus windows cycle * suc windows * cycle =
      omega arith in
    le_of_mul-le-mul_right reached h

share-least :
    (surplus windows cycle bound : ℕ)
    → 0 < cycle
    → surplus ≤ suc windows * bound
    → share surplus windows cycle ≤ bound
unfolding share
share-least surplus windows cycle bound h le =
    let more = mul-le-mul_right cycle le in
    let longest : max cycle (suc windows * cycle) ≡ suc windows * cycle = omega arith in
    ceil_div-le (surplus * cycle) (max cycle (suc windows * cycle)) bound (omega arith)
      (rw longest (omega arith))

allowance-share :
    (surplus windows cycle : ℕ)
    → 0 < cycle
    → history_call_allowance surplus (suc windows * cycle) cycle 0
      ≡ min surplus (share surplus windows cycle)
unfolding history_call_allowance share
allowance-share surplus windows cycle h = elim (Bool-cases (surplus == 0)) [
  | inl e ↦ let none_left : surplus ≡ 0 = ground arith in rw (e, none_left) (omega arith)
  | inr e ↦
      let some_time : (suc windows * cycle == 0) ≡ false = ground arith in
      let some_cycle : (cycle == 0) ≡ false = ground arith in rw (e, some_time, some_cycle) refl
]

least-covers :
    (surplus windows part : ℕ)
    → surplus ≤ part * suc windows
    → surplus ≤ min surplus part * suc windows
least-covers surplus windows part h = elim (Bool-cases (leb surplus part)) [
  | inl e ↦ let same : min surplus part ≡ surplus = ground arith in rw same (omega arith)
  | inr e ↦ let same : min surplus part ≡ part = ground arith in rw same h
]

-- After one window, what is left is for the others, none of which gets more.
allowance-leaves :
    (surplus windows cycle : ℕ)
    → 0 < cycle
    → let calls = history_call_allowance surplus (suc windows * cycle) cycle 0 in
      (calls ≤ surplus) × (surplus - calls ≤ windows * calls)
allowance-leaves surplus windows cycle h =
    let calls = allowance-share surplus windows cycle h in
    let covers =
      least-covers surplus windows (share surplus windows cycle)
        (share-covers surplus windows cycle h) in
    rw calls (omega arith, omega arith)

drip-bounded :
    (windows surplus cycle bound : ℕ)
    → 0 < cycle
    → surplus ≤ windows * bound
    → (total (drip windows surplus cycle 0) ≡ surplus)
      × AllAtMost bound (drip windows surplus cycle 0)
drip-bounded zero surplus cycle bound h le = (omega arith, omega arith)
drip-bounded (suc windows) surplus cycle bound h le =
    let (inside, rest) = allowance-leaves surplus windows cycle h in
    let share_le = share-least surplus windows cycle bound h le in
    let same = allowance-share surplus windows cycle h in
    let calls_le : history_call_allowance surplus (suc windows * cycle) cycle 0 ≤ bound =
      omega arith in
    let more = mul-le-mul_right windows calls_le in
    let (sum, small) =
      drip-bounded windows (surplus - history_call_allowance surplus (suc windows * cycle) cycle 0)
        cycle bound h (omega arith) in
    (omega arith, (calls_le, small))

-- Without a cap, spending the allowance of `history_call_allowance` in each of the windows until
-- midnight (at least one, all of one length above 0) spends the surplus exactly, and no window
-- spends more than the surplus over the number of windows, rounded up.
pub drip-spends :
    (windows surplus cycle : ℕ)
    → 0 < cycle
    → (total (drip (suc windows) surplus cycle 0) ≡ surplus)
      × AllAtMost (ceil_div surplus (suc windows)) (drip (suc windows) surplus cycle 0)
drip-spends windows surplus cycle h =
    drip-bounded (suc windows) surplus cycle (ceil_div surplus (suc windows)) h
      (let reached = le-ceil_div surplus (suc windows) (omega arith) in omega arith)

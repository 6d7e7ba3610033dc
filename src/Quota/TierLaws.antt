-- ===== src/Quota/TierLaws.antt =====
-- The calls of the tiers stay within their budget, and the loop that stretches an interval has
-- nothing to do.
use native.Mathlib.Nat.{mul-le-mul_right}
use predictor.Prelude.{
  ℕ, zero, suc, ◌+◌, ◌-◌, ◌*◌, ◌≤◌, ◌<◌, ◌≡◌, ◌⊎◌, inl, inr, refl, min, false, ◌||◌, arith, leb,
  ◌==◌, Bool-cases,
}
use predictor.Prelude.Ratio.{ceil_div}
use predictor.Prelude.Ratio.Laws.{le-ceil_div, ceil_div-le}
use predictor.Quota.{quarter_seconds, live_detail_refresh_seconds}
use predictor.Quota.Tiers.{
  calls_only, stretch, ceiling_of, first_interval, interval_only, fast_urgent, slow_urgent,
  tiered_intervals,
}

calls_only-le :
    (play interval k : ℕ) → play ≤ k * (interval * quarter_seconds) → calls_only play interval ≤ k
unfolding calls_only
calls_only-le play zero k h = ground arith
calls_only-le play (suc i) k h =
    ground (arith, ceil_div-le play (suc i * quarter_seconds) k (omega arith) h)

-- At the first interval the calls fit already.
first-fits :
    (play call_budget interval : ℕ)
    → 0 < call_budget
    → first_interval play call_budget ≤ interval
    → calls_only play interval ≤ call_budget
first-fits play call_budget interval h long =
    let whole = le-ceil_div play (call_budget * quarter_seconds) (omega arith) in
    let least : ceil_div play (call_budget * quarter_seconds) ≤ interval = omega arith in
    let more = mul-le-mul_right call_budget least in
    calls_only-le play interval call_budget (omega arith)

stretch-same :
    (fuel play call_budget ceiling interval : ℕ)
    → calls_only play interval ≤ call_budget
    → stretch fuel play call_budget ceiling interval ≡ interval
unfolding stretch
stretch-same zero play call_budget ceiling interval h = refl
stretch-same (suc fuel) play call_budget ceiling interval h = ground arith

-- The interval for a budget is the first one, cut at the ceiling; and unless it was cut, the calls
-- at it are within the budget.
pub interval_only_fits :
    (play call_budget seconds_left : ℕ)
    → 0 < play
    → 0 < call_budget
    → let interval = interval_only play call_budget seconds_left in
      (interval ≡ min (first_interval play call_budget) (ceiling_of seconds_left))
      × ((calls_only play interval ≤ call_budget) ⊎ (interval ≡ ceiling_of seconds_left))
unfolding interval_only
interval_only_fits play call_budget seconds_left p b =
    let first = first_interval play call_budget in
    let ceiling = ceiling_of seconds_left in
    let fits = first-fits play call_budget first b (omega arith) in
    let same = stretch-same (ceiling - first) play call_budget ceiling first fits in
    let tests : (play == 0 || call_budget == 0) ≡ false = ground arith in
    rw (tests, same)
      (
        refl,
        (elim (Bool-cases (leb first ceiling)) [
          | inl e ↦ let shorter : min first ceiling ≡ first = ground arith in inl (rw shorter fits)
          | inr e ↦ inr (ground arith)
        ]),
      )

interval_only-le-ceiling :
    (play call_budget seconds_left : ℕ)
    → interval_only play call_budget seconds_left ≤ ceiling_of seconds_left
unfolding interval_only
interval_only-le-ceiling play call_budget seconds_left = ground arith

fast_urgent-calls :
    (play finish urgent_fast body seconds_left : ℕ)
    → urgent_fast ≤ body
    → let tiers = fast_urgent play finish urgent_fast body seconds_left in
      (tiers.calls ≤ body + finish) × (tiers.urgent ≤ tiers.relaxed)
unfolding fast_urgent
fast_urgent-calls play finish urgent_fast body seconds_left h = (omega arith, omega arith)

slow_urgent-calls :
    (play finish body seconds_left : ℕ)
    → 0 < body
    → let tiers = slow_urgent play finish body seconds_left in
      (tiers.calls ≤ body + finish) × (tiers.urgent ≤ tiers.relaxed)
unfolding slow_urgent
slow_urgent-calls play finish body seconds_left h = (omega arith, omega arith)

-- The tiers never use more calls than their budget, and the urgent tier is never slower than the
-- relaxed one.
pub tiered_intervals-calls :
    (play finishing call_budget seconds_left : ℕ)
    → let tiers = tiered_intervals play finishing call_budget seconds_left in
      (tiers.calls ≤ call_budget) × (tiers.urgent ≤ tiers.relaxed)
unfolding tiered_intervals
tiered_intervals-calls play finishing call_budget seconds_left =
    let finish = min finishing call_budget in
    let body = call_budget - finish in
    let urgent_fast = calls_only play live_detail_refresh_seconds in
    elim (Bool-cases (call_budget == 0)) [
      | inl e ↦ rw e (omega arith, omega arith)
      | inr e ↦ elim (Bool-cases (play == 0 || body == 0)) [
        | inl d ↦ rw (e, d) (omega arith, omega arith)
        | inr d ↦ elim (Bool-cases (leb urgent_fast body)) [
          | inl fast ↦
              let (calls, order) =
                fast_urgent-calls play finish urgent_fast body seconds_left (ground arith) in
              rw (e, d, fast) (omega arith, order)
          | inr slow ↦
              let (calls, order) = slow_urgent-calls play finish body seconds_left (ground arith) in
              rw (e, d, slow) (omega arith, order)
        ]
      ]
    ]

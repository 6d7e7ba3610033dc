-- ===== src/Prelude/Ratio/Laws.antt =====
-- A division rounded up is the least number whose product reaches the dividend.
use Prim.Native.Nat.{ℕ, ◌+◌, ◌-◌, ◌*◌, ◌≤◌, ◌<◌}
use native.Mathlib.Omega.{arith}
use native.Mathlib.Nat.{div-lt_iff_lt-mul, lt-mul-div-succ}
use predictor.Prelude.Ratio.{ceil_div}

pub le-ceil_div : (n d : ℕ) → 0 < d → n ≤ ceil_div n d * d
unfolding ceil_div
le-ceil_div n d h = let high = lt-mul-div-succ (n + d - 1) h in omega arith

pub ceil_div-le : (n d k : ℕ) → 0 < d → n ≤ k * d → ceil_div n d ≤ k
unfolding ceil_div
ceil_div-le n d k h le =
    let below : n + d - 1 < (k + 1) * d = omega arith in
    let rounded = (div-lt_iff_lt-mul h).1 below in omega arith

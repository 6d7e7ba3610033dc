-- ===== src/Prelude/Decimal/Laws.antt =====
-- Rounding half up is within half a unit, keeps whole lower bounds, and is monotone.
use Prim.Native.Nat.{ℕ, ◌+◌, ◌*◌, ◌≤◌, ◌<◌}
use native.Mathlib.Omega.{arith}
use native.Mathlib.Nat.{div-mul-le_self, mul-div-le, lt-mul-div-succ, le-div_iff_mul-le}
use predictor.Prelude.Int.{ℤ, pos, negsuc, ◌-ℤ◌, ◌≤ℤ◌}
use predictor.Prelude.Decimal.{round_half_up, round_difference}

pub round_half_up_near :
    (n d : ℕ)
    → 0 < d
    → (2 * (round_half_up n d * d) ≤ 2 * n + d) × (2 * n < 2 * (round_half_up n d * d) + d)
unfolding round_half_up
round_half_up_near n d h =
    let p : 0 < 2 * d = omega arith in
    let low = mul-div-le (2 * n + d) (2 * d) in
    let high = lt-mul-div-succ (2 * n + d) p in (omega (arith, low), omega (arith, high))

pub le-round_half_up : (t n d : ℕ) → 0 < d → t * d ≤ n → t ≤ round_half_up n d
unfolding round_half_up
le-round_half_up t n d h le = (le-div_iff_mul-le (omega arith)).1 (omega arith)

pub round_half_up_le : (t n d : ℕ) → 0 < d → n ≤ t * d → round_half_up n d ≤ t
round_half_up_le t n d h le = grind (arith, round_half_up_near n d h)

pub round_half_up_mono : (m n d : ℕ) → 0 < d → m ≤ n → round_half_up m d ≤ round_half_up n d
unfolding round_half_up
round_half_up_mono m n d h le =
    (le-div_iff_mul-le (omega arith)).1 (omega (arith, div-mul-le_self (2 * m + d) (2 * d)))

-- A loss of at most t units is rounded to a loss of at most t.
pub le-round_difference :
    (t d : ℕ) (e : ℤ) → 0 < d → pos 0 -ℤ pos (t * d) ≤ℤ e → pos 0 -ℤ pos t ≤ℤ round_difference e d
unfolding round_difference ◌-ℤ◌
le-round_difference t d (pos n) h le = ground arith
le-round_difference t d (negsuc n) h le =
    ground (arith, round_half_up_le t (n + 1) d h (ground arith))

pub round_difference_mono :
    (a b : ℤ) (d : ℕ) → 0 < d → a ≤ℤ b → round_difference a d ≤ℤ round_difference b d
unfolding round_difference ◌-ℤ◌
round_difference_mono (pos m) (pos n) d h le =
    ground (arith, round_half_up_mono m n d h (omega arith))
round_difference_mono (pos m) (negsuc n) d h le = absurd (omega arith)
round_difference_mono (negsuc m) (pos n) d h le = ground arith
round_difference_mono (negsuc m) (negsuc n) d h le =
    ground (arith, round_half_up_mono (n + 1) (m + 1) d h (omega arith))

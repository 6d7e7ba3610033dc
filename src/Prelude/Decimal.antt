-- ===== src/Prelude/Decimal.antt =====
-- Python's `Decimal` at the fixed scales that the database columns give it: an odd and a payout
-- share in thousandths, a stake in hundredths. A product of such values is exact, in units of the
-- product of the scales; `quantize` rounds it back, half up (away from zero).
pub mod Laws
use Prim.Native.Nat.{ℕ, ◌+◌, ◌*◌, ◌/◌}
use predictor.Prelude.Int.{ℤ, pos, negsuc, ◌-ℤ◌}

-- Rounds n / d to the nearest whole number, a half upwards.
unfoldable pub round_half_up : ℕ → ℕ → ℕ
round_half_up n d = (2 * n + d) / (2 * d)

-- The same on a difference a - b: the sign is kept and the size is rounded.
unfoldable pub round_difference : ℤ → ℕ → ℤ
unfolding round_half_up
round_difference (pos n) d = pos (round_half_up n d)
round_difference (negsuc n) d = pos 0 -ℤ pos (round_half_up (n + 1) d)

-- ===== src/Lock/KeyLaws.antt =====
-- The two parts of a key are those of its 64 bits.
use predictor.Prelude.{ℕ, ◌+◌, ◌-◌, ◌*◌, ◌^◌, ◌<◌, ◌≡◌, arith, ltb, if◌then◌else◌}
use predictor.Prelude.Int.{ℤ, pos, negsuc}
use predictor.Lock.{advisory_lock_parts}

-- the signed number of 64 bits whose words are these, the high one first
abbrev pub bigint_of : ℕ × ℕ → ℤ
bigint_of (high, low) =
    let bits = high * 2 ^ 32 + low in
    if ltb bits (2 ^ 63) then pos bits else negsuc (2 ^ 64 - 1 - bits)

-- a number that fits in a bigint
abbrev pub IsBigint : ℤ → Type 0
IsBigint (pos n) = n < 2 ^ 63
IsBigint (negsuc n) = n < 2 ^ 63

-- A key that fits in a bigint is told by the parts that `advisory_lock_parts` gives, so no two keys
-- share their parts.
pub bigint_of-advisory_lock_parts :
    (key : ℤ) → IsBigint key → bigint_of (advisory_lock_parts key) ≡ key
unfolding advisory_lock_parts
bigint_of-advisory_lock_parts (pos n) h = ground arith
bigint_of-advisory_lock_parts (negsuc n) h = ground arith

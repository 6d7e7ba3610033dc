-- ===== src/Prelude/Ratio.antt =====
-- Exact fractions in place of Python's floats, for rates and durations that are divided.
pub mod Laws
use Prim.Native.Nat.{ℕ, ◌+◌, ◌-◌, ◌*◌, ◌/◌}
use mathlib.Core.Bool.{Bool}
use predictor.Prelude.Tests.{ltb, leb, if◌then◌else◌}

-- `den` is never 0 in a value that the code makes.
pub record Ratio : Type 0 where
  pub num : ℕ
  pub den : ℕ

abbrev pub whole : ℕ → Ratio
whole n = record { num = n; den = 1 }

infixl 65 ◌⊕◌
abbrev pub ◌⊕◌ : Ratio → Ratio → Ratio
a ⊕ b = record { num = a.num * b.den + b.num * a.den; den = a.den * b.den }

abbrev pub scaled : ℕ → ℕ → Ratio → Ratio
scaled n d r = record { num = n * r.num; den = d * r.den }

abbrev pub min_ratio : Ratio → Ratio → Ratio
min_ratio a b = if leb (a.num * b.den) (b.num * a.den) then a else b

abbrev pub is_positive : Ratio → Bool
is_positive r = ltb 0 r.num

abbrev pub floor : Ratio → ℕ
floor r = r.num / r.den

-- n / d rounded up, for d above 0
unfoldable pub ceil_div : ℕ → ℕ → ℕ
ceil_div n d = (n + d - 1) / d

abbrev pub ceil : Ratio → ℕ
ceil r = ceil_div r.num r.den

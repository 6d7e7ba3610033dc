-- ===== src/Prelude/Text.antt =====
-- Texts are compared whole, never taken apart: the native strings and membership in a list.
use Prim.Native.String.{String}
use mathlib.Core.Path.{◌≡◌}
use mathlib.Core.Bool.{Bool, true, false, ◌||◌}
use mathlib.Core.List.{List, [], ◌∷◌}
use mathlib.Core.Logic.{◌⊎◌}
use native.Mathlib.Omega.{arith}
pub use text.Mathlib.Text.{◌==◌ as str_eq}
pub use text.Mathlib.TextEquality.{eq_iff}

-- `text in frozenset({...})`
abbrev pub is_in : String → List String → Bool
is_in s [] = false
is_in s (t ∷ ts) = str_eq s t || is_in s ts

abbrev pub OneOf : String → List String → Type 0
OneOf s [] = ⊥
OneOf s (t ∷ ts) = (s ≡ t) ⊎ OneOf s ts

pub is_in→OneOf : (s : String) (ts : List String) → is_in s ts ≡ true → OneOf s ts
is_in→OneOf s [] h = ground arith
is_in→OneOf s (t ∷ ts) h = ground (arith, eq_iff s t, is_in→OneOf s ts)

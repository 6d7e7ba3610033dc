-- ===== src/Prelude/Codes.antt =====
-- `str.strip`, `str.lower` and `str.upper`, on the code points of a text. Letters and white space
-- are those of ASCII; on ASCII text `casefold` is `lower`.
use Prim.Native.Nat.{ℕ, ◌+◌, ◌-◌}
use Prim.Native.Char.{code}
use Prim.Native.String.{String}
use mathlib.Core.Bool.{Bool, true, false, ◌&&◌, ◌||◌}
use mathlib.Core.List.{List, [], ◌∷◌, map}
use predictor.Prelude.Tests.{leb, ◌==◌, if◌then◌else◌}

abbrev pub codes : String → List ℕ
codes String.[] = []
codes (String.◌∷◌ c s) = code c ∷ codes s

abbrev lower_code : ℕ → ℕ
lower_code c = if leb 65 c && leb c 90 then c + 32 else c

abbrev upper_code : ℕ → ℕ
upper_code c = if leb 97 c && leb c 122 then c - 32 else c

abbrev is_space : ℕ → Bool
is_space c = leb 9 c && leb c 13 || leb 28 c && leb c 32

abbrev lstrip : List ℕ → List ℕ
lstrip [] = []
lstrip (c ∷ cs) = let rest = lstrip cs in if is_space c then rest else c ∷ cs

abbrev rstrip : List ℕ → List ℕ
rstrip [] = []
rstrip (c ∷ cs) = elim (rstrip cs) [ [] ↦ if is_space c then [] else c ∷ [] | rest ↦ c ∷ rest ]

unfoldable pub upper : String → List ℕ
upper s = map upper_code (codes s)

-- `s.strip().lower()`
unfoldable pub strip_lower : String → List ℕ
strip_lower s = map lower_code (rstrip (lstrip (codes s)))

unfoldable pub code_eq : List ℕ → List ℕ → Bool
code_eq [] [] = true
code_eq (a ∷ s) (b ∷ t) = (a == b) && code_eq s t
code_eq _ _ = false

-- `text in frozenset({...})`
unfoldable pub is_code_in : List ℕ → List String → Bool
unfolding code_eq
is_code_in s [] = false
is_code_in s (t ∷ ts) = code_eq s (codes t) || is_code_in s ts

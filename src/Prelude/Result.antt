-- ===== src/Prelude/Result.antt =====
-- What a function that may raise `ValueError` returns.
use mathlib.Core.Path.{◌≡◌, refl}

pub data Result {ℓ} (V : Type ℓ) : Type ℓ where
  value_error : Result V
  ok : V → Result V

pub ok-injective {ℓ} : {V : Type ℓ} {v w : V} → ok v ≡ ok w → v ≡ w
ok-injective e = cc

module _ {ℓ κ} {V : Type ℓ} {W : Type κ} where
  infixl 5 ◌>>=◌
  -- an error ends the computation
  abbrev pub ◌>>=◌ : Result V → (V → Result W) → Result W
  value_error >>= next = value_error
  ok v >>= next = next v

  -- A computation that ends well has a first part that did, and its rest on that value did too.
  pub >>=-eq-ok :
      (r : Result V) (next : V → Result W) {w : W}
      → (r >>= next) ≡ ok w
      → (v : V) × (r ≡ ok v) × (next v ≡ ok w)
  >>=-eq-ok value_error next e = cc
  >>=-eq-ok (ok v) next e = (v, refl, e)

-- ===== src/Base/Results.antt =====
-- A Go function that returns a value and an error.
use mathlib.Core.Path.{◌≡◌, refl}

-- The value, or the error that stands in its place.
pub data Result {ℓ} (E : Type 0) (A : Type ℓ) : Type ℓ where
  err : E → Result E A
  ok : A → Result E A

module _ {ℓ κ} {E : Type 0} {A : Type ℓ} {B : Type κ} where
  infixl 5 ◌>>=◌
  -- `next` runs on a value; an error ends the chain.
  abbrev pub ◌>>=◌ : Result E A → (A → Result E B) → Result E B
  err failure >>= next = err failure
  ok value >>= next = next value

  -- A chain that succeeds has run its second part on the value of its first one.
  pub >>=-ok :
      (first : Result E A) (next : A → Result E B) (result : B)
      → first >>= next ≡ ok result
      → (value : A) × next value ≡ ok result × first ≡ ok value
  >>=-ok (err failure) next result h = cc
  >>=-ok (ok value) next result h = (value, h, refl)

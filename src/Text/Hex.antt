-- ===== src/Text/Hex.antt =====
-- `EncodeToString` of Go's package encoding/hex.
use pgcov.Base.{
  ℕ, ◌+◌, ◌-◌, ◌*◌, ◌/◌, ◌%◌, ◌<◌, ◌≤◌, [], ◌∷◌, ltb, if◌then◌else◌, Bytes, length, All, ◌≡◌, refl,
  arith, ◌⊎◌, inl, inr, Bool-cases,
}

abbrev pub hex_digit : ℕ → ℕ
hex_digit n = if ltb n 10 then b'0' + n else b'a' + (n - 10)

unfoldable pub encode_hex : Bytes → Bytes
encode_hex [] = []
encode_hex (c ∷ s) = hex_digit (c / 16) ∷ hex_digit (c % 16) ∷ encode_hex s

abbrev pub IsByte : ℕ → Type 0
IsByte c = c < 256

-- A digit or one of the letters from a to f.
abbrev pub IsHexDigit : ℕ → Type 0
IsHexDigit c = (b'0' ≤ c × c ≤ b'9') ⊎ (b'a' ≤ c × c ≤ b'f')

hex_digit-IsHexDigit : (n : ℕ) → n < 16 → IsHexDigit (hex_digit n)
hex_digit-IsHexDigit n h = elim (Bool-cases (ltb n 10)) [
  | inl e ↦ rw e (inl (ground (arith, e), ground (arith, e)))
  | inr e ↦ rw e (inr (ground (arith, e), ground (arith, e)))
]

pub encode_hex-IsHexDigit : (s : Bytes) → All IsByte s → All IsHexDigit (encode_hex s)
unfolding encode_hex
encode_hex-IsHexDigit [] h = tt
encode_hex-IsHexDigit (c ∷ s) h = (
  hex_digit-IsHexDigit (c / 16) (omega (arith, h.0)),
  (hex_digit-IsHexDigit (c % 16) (omega arith), encode_hex-IsHexDigit s h.1),
)

pub length-encode_hex : (s : Bytes) → length (encode_hex s) ≡ 2 * length s
unfolding encode_hex
length-encode_hex [] = refl
length-encode_hex (c ∷ s) = omega (arith, length-encode_hex s)

hex_digit-inj : (m n : ℕ) → m < 16 → n < 16 → hex_digit m ≡ hex_digit n → m ≡ n
hex_digit-inj m n a b h = ground (arith, a, b, h)

-- Different bytes have different digits.
pub encode_hex-inj :
    (s t : Bytes) → All IsByte s → All IsByte t → encode_hex s ≡ encode_hex t → s ≡ t
unfolding encode_hex
encode_hex-inj [] [] a b h = refl
encode_hex-inj [] (d ∷ t) a b h = cc
encode_hex-inj (c ∷ s) [] a b h = cc
encode_hex-inj (c ∷ s) (d ∷ t) a b h =
    let high : c / 16 ≡ d / 16 =
      hex_digit-inj (c / 16) (d / 16) (omega (arith, a.0)) (omega (arith, b.0)) (cc) in
    let low : c % 16 ≡ d % 16 = hex_digit-inj (c % 16) (d % 16) (omega arith) (omega arith) (cc) in
    let same : c ≡ d = omega (arith, high, low) in
    let rest : s ≡ t = encode_hex-inj s t a.1 b.1 (cc) in rw (same, rest)

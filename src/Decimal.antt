-- ===== src/Decimal.antt =====
-- The parts of Go's strconv and fmt that the program uses on numbers: `%d` and `strconv.Atoi`.
-- An `int` is its 64-bit pattern, a number below 2^64; patterns from 2^63 on are negative.
pub mod RoundTrip
use pgcov.Base.{
  ℕ, zero, suc, ◌+◌, ◌-◌, ◌*◌, ◌/◌, ◌%◌, ◌^◌, Bool, ◌&&◌, Option, none, some, [], ◌∷◌, ltb, leb,
  ◌==◌, if◌then◌else◌, Bytes,
}

abbrev pub half : ℕ
half = 2 ^ 63

abbrev pub modulus : ℕ
modulus = 2 ^ 64

-- `n < 0` of a pattern, and `n > 0`.
abbrev pub is_negative : ℕ → Bool
is_negative n = leb half n

abbrev pub is_positive : ℕ → Bool
is_positive n = ltb 0 n && ltb n half

-- The digits of `n` in front of `out`; the fuel is above `n`.
digits : ℕ → ℕ → Bytes → Bytes
digits zero n out = out
digits (suc fuel) n out =
    let now = (b'0' + n % 10) ∷ out in
    let rest = digits fuel (n / 10) now in if ltb n 10 then now else rest

unfoldable pub print_nat : ℕ → Bytes
unfolding digits
print_nat n = digits (suc n) n []

-- `%d`
unfoldable pub print_int : ℕ → Bytes
unfolding print_nat
print_int n = if ltb n half then print_nat n else b'-' ∷ print_nat (modulus - n)

abbrev pub is_digit : ℕ → Bool
is_digit c = leb b'0' c && leb c b'9'

scan : Bytes → ℕ → Option ℕ
scan [] n = some n
scan (c ∷ s) n = if is_digit c then scan s (n * 10 + (c - b'0')) else none

unsigned : Bytes → Option ℕ
unfolding scan
unsigned [] = none
unsigned (c ∷ s) = scan (c ∷ s) 0

at_most_max : Option ℕ → Option ℕ
at_most_max none = none
at_most_max (some n) = if ltb n half then some n else none

negated : Option ℕ → Option ℕ
negated none = none
negated (some n) = if leb n half then some ((modulus - n) % modulus) else none

-- `strconv.Atoi`: an optional sign and at least one digit, and nothing else; `none` is an error.
unfoldable pub atoi : Bytes → Option ℕ
unfolding unsigned at_most_max negated
atoi [] = none
atoi (c ∷ s) =
    if c == b'-'
    then negated (unsigned s)
    else if c == b'+'
    then at_most_max (unsigned s)
    else at_most_max (unsigned (c ∷ s))

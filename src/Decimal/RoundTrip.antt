-- ===== src/Decimal/RoundTrip.antt =====
-- `Atoi` reads back what `%d` prints, and what `Atoi` returns is a 64-bit pattern.
use pgcov.Base.{
  ℕ, zero, suc, ◌+◌, ◌-◌, ◌/◌, ◌%◌, ◌≤◌, ◌<◌, ◌≡◌, ◌≢◌, refl, ◌∙◌, inl, inr, some, [], ◌∷◌, ltb,
  arith, Bool-cases, Bytes, All,
}
use pgcov.Decimal.{
  half, modulus, digits, print_nat, print_int, scan, unsigned, at_most_max, negated, atoi,
}

abbrev pub IsDigit : ℕ → Type 0
IsDigit c = (b'0' ≤ c) × (c ≤ b'9')

scan_step : (n : ℕ) (out : Bytes) → scan ((b'0' + n % 10) ∷ out) (n / 10) ≡ scan out n
unfolding scan
scan_step n out = ground arith

scan_one : (n : ℕ) (out : Bytes) → n < 10 → scan ((b'0' + n % 10) ∷ out) 0 ≡ scan out n
unfolding scan
scan_one n out h = ground arith

scan-digits : (f n : ℕ) (out : Bytes) → n < f → scan (digits f n out) 0 ≡ scan out n
unfolding digits
scan-digits zero n out h = absurd (omega arith)
scan-digits (suc f) n out h =
    ground (arith, scan_one n out, scan_step n out, scan-digits f (n / 10) ((b'0' + n % 10) ∷ out))

digits-IsDigit : (f n : ℕ) (out : Bytes) → All IsDigit out → All IsDigit (digits f n out)
unfolding digits
digits-IsDigit zero n out h = h
digits-IsDigit (suc f) n out h = elim (Bool-cases (ltb n 10)) [
  | inl e ↦ rw e (omega arith, h)
  | inr e ↦ rw e (digits-IsDigit f (n / 10) ((b'0' + n % 10) ∷ out) (omega arith, h))
]

digits-ne-nil : (f n : ℕ) (out : Bytes) → out ≢ [] → digits f n out ≢ []
unfolding digits
digits-ne-nil zero n out h = h
digits-ne-nil (suc f) n out h = ground (arith, digits-ne-nil f (n / 10) ((b'0' + n % 10) ∷ out))

print_nat-ne-nil : (n : ℕ) → print_nat n ≢ []
unfolding print_nat digits
print_nat-ne-nil n = ground (arith, digits-ne-nil n (n / 10) ((b'0' + n % 10) ∷ []))

pub print_nat-IsDigit : (n : ℕ) → All IsDigit (print_nat n)
unfolding print_nat
print_nat-IsDigit n = digits-IsDigit (suc n) n [] tt

unsigned-scan : (s : Bytes) → s ≢ [] → unsigned s ≡ scan s 0
unfolding unsigned
unsigned-scan [] h = absurd (h refl)
unsigned-scan (c ∷ s) h = refl

unsigned-print_nat : (n : ℕ) → unsigned (print_nat n) ≡ some n
unsigned-print_nat n =
    unsigned-scan (print_nat n) (print_nat-ne-nil n)
    ∙ unfold print_nat scan in scan-digits (suc n) n [] (omega arith)

atoi_digits : (s : Bytes) → s ≢ [] → All IsDigit s → atoi s ≡ at_most_max (unsigned s)
unfolding atoi
atoi_digits [] h k = absurd (h refl)
atoi_digits (c ∷ s) h k = ground arith

atoi_minus : (s : Bytes) → atoi (b'-' ∷ s) ≡ negated (unsigned s)
unfolding atoi
atoi_minus s = refl

-- Reading back the print of an `int` gives the same `int`.
pub atoi-print_int : (n : ℕ) → n < modulus → atoi (print_int n) ≡ some n
unfolding print_int at_most_max negated
atoi-print_int n h = elim (Bool-cases (ltb n half)) [
  | inl e ↦ rw (
    e,
    atoi_digits (print_nat n) (print_nat-ne-nil n) (print_nat-IsDigit n),
    unsigned-print_nat n,
    e,
  )
  | inr e ↦
      rw (e, atoi_minus (print_nat (modulus - n)), unsigned-print_nat (modulus - n)) (ground arith)
]

-- What `Atoi` returns is a 64-bit pattern.
pub atoi_bound : (s : Bytes) {n : ℕ} → atoi s ≡ some n → n < modulus
unfolding atoi at_most_max negated
atoi_bound [] e = cc
atoi_bound (c ∷ s) e = ground arith

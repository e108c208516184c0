-- ===== src/Key/RoundTrip.antt =====
-- Parsing a formatted key, and what an accepted key looks like.
use pgcov.Base.{
  ℕ, ◌-◌, ◌<◌, some, [], ◌∷◌, ◌++◌, ◌==◌, ==_iff, ltb, Bytes, ok, ◌≡◌, ap, ◌∙◌, arith, All, Lacks,
  ◌⊎◌, inl, inr, Bool-cases, Option-cases, >>=-ok,
}
use mathlib.Core.Option.{get_or}
use pgcov.Decimal.{half, modulus, print_int, print_nat, atoi}
use pgcov.Decimal.RoundTrip.{IsDigit, print_nat-IsDigit, atoi-print_int}
use pgcov.Key.{
  KeyError, cut, format_position_key, atoi_or, check_key, parse_halves, parse_position_key,
}

-- A byte that no number prints.
abbrev pub NotPrinted : ℕ → Type 0
NotPrinted sep = (sep < b'-') ⊎ (b'9' < sep)

IsDigit-Lacks : (sep : ℕ) (s : Bytes) → NotPrinted sep → All IsDigit s → Lacks sep s
IsDigit-Lacks sep [] out h = tt
IsDigit-Lacks sep (c ∷ s) out h = (omega arith, IsDigit-Lacks sep s out h.1)

pub print_int_avoids : (sep : ℕ) → NotPrinted sep → (n : ℕ) → Lacks sep (print_int n)
unfolding print_int
print_int_avoids sep out n = elim (Bool-cases (ltb n half)) [
  | inl e ↦ rw e (IsDigit-Lacks sep (print_nat n) out (print_nat-IsDigit n))
  | inr e ↦ rw e (
    omega arith,
    IsDigit-Lacks sep (print_nat (modulus - n)) out (print_nat-IsDigit (modulus - n)),
  )
]

-- No number prints a colon.
pub print_int-Lacks : (n : ℕ) → Lacks b':' (print_int n)
print_int-Lacks = print_int_avoids b':' (omega arith)

pub cut-append : (sep : ℕ) (s t : Bytes) → Lacks sep s → cut sep (s ++ (sep ∷ t)) ≡ some (s, t)
unfolding cut
cut-append sep [] t h = ground arith
cut-append sep (c ∷ s) t h = ground (arith, cut-append sep s t h.1)

-- The pieces of a cut spell the text, and the first one has no separator.
pub cut_sound :
    (sep : ℕ) (s : Bytes) {a b : Bytes}
    → cut sep s ≡ some (a, b)
    → (s ≡ a ++ (sep ∷ b)) × Lacks sep a
unfolding cut
cut_sound sep [] e = cc
cut_sound sep (c ∷ s) {a} {b} e = elim (Bool-cases (c == sep)) [
  | inl h ↦
      let p : some ([], s) ≡ some (a, b) = rw h at e in
      let q : [] ≡ a = ap (λ o. (get_or {A = Bytes × Bytes} o ([], [])).0) p in
      let r : s ≡ b = ap (λ o. (get_or {A = Bytes × Bytes} o ([], [])).1) p in
      rw (← q, ← r) (ap (λ x. x ∷ s) ((==_iff c sep).0 h), tt)
  | inr h ↦ elim (Option-cases (cut sep s)) [
    | inl n ↦ cc (rw (h, n) at e)
    | inr ((x, y), n) ↦
        let p : some (c ∷ x, y) ≡ some (a, b) = rw (h, n) at e in
        let q : c ∷ x ≡ a = ap (λ o. (get_or {A = Bytes × Bytes} o ([], [])).0) p in
        let r : y ≡ b = ap (λ o. (get_or {A = Bytes × Bytes} o ([], [])).1) p in
        let (split, lacks) = cut_sound sep s n in
        rw (← q, ← r) (ap (◌∷◌ c) split, ((λ k. cc (h, (==_iff c sep).1 k)), lacks))
  ]
]

check_key_ok : (s l : ℕ) → s < half → l < half → check_key s l ≡ ok (s, l)
unfolding check_key
check_key_ok s l hs hl = ground arith

parse_halves_ok :
    (a b : Bytes) (s l : ℕ)
    → atoi a ≡ some s
    → atoi b ≡ some l
    → parse_halves (some (a, b)) ≡ check_key s l
unfolding parse_halves
parse_halves_ok a b s l ha hb = ground arith

-- A key of two non-negative numbers is read back as those numbers.
pub parse_position_key-format :
    (s l : ℕ) → s < half → l < half → parse_position_key (format_position_key s l) ≡ ok (s, l)
unfolding parse_position_key format_position_key
parse_position_key-format s l hs hl =
    rw (cut-append b':' (print_int s) (print_int l) (print_int-Lacks s)) (
      parse_halves_ok (print_int s) (print_int l) s l (atoi-print_int s (omega arith))
        (atoi-print_int l (omega arith))
      ∙ check_key_ok s l hs hl)

atoi_or-ok : (e : KeyError) (s : Bytes) {n : ℕ} → atoi_or e s ≡ ok n → atoi s ≡ some n
atoi_or-ok e s h = ground arith

check_key_sound :
    (s l : ℕ) {p : ℕ × ℕ} → check_key s l ≡ ok p → (p ≡ (s, l)) × (s < half) × (l < half)
unfolding check_key
check_key_sound s l h = ground arith

-- An accepted key is two texts that `Atoi` accepts around the first colon, and the result is
-- their two values, neither of them negative.
parse_position_key_sound :
    (k : Bytes) {s l : ℕ}
    → parse_position_key k ≡ ok (s, l)
    → (a : Bytes) × (b : Bytes) × (k ≡ a ++ (b':' ∷ b))
      × Lacks b':' a
      × (atoi a ≡ some s)
      × (atoi b ≡ some l)
      × (s < half)
      × (l < half)
unfolding parse_position_key
parse_position_key_sound k {s} {l} h = elim (Option-cases (cut b':' k)) [
  | inl n ↦ cc (rw n at h)
  | inr ((a, b), n) ↦
      let (x, h1, ex) = >>=-ok (atoi_or KeyError.bad_start a) _ _ (rw n at h) in
      let (y, h2, ey) = >>=-ok (atoi_or KeyError.bad_length b) _ _ h1 in
      let (e, hs, hl) = check_key_sound x y h2 in
      let px : s ≡ x = ap (λ q. q.0) e in
      let py : l ≡ y = ap (λ q. q.1) e in
      let (split, lacks) = cut_sound b':' k n in
      (a, b, split, lacks, rw px (atoi_or-ok _ a ex), rw py (atoi_or-ok _ b ey), rw px hs, rw py hl)
]

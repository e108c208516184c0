-- ===== src/Instrument/Segments.antt =====
-- The indentations that the instrumenter copies are spacing.
use pgcov.Base.{
  ℕ, zero, suc, ◌+◌, ◌-◌, ◌≤◌, true, false, not, ◌&&◌, List, [], ◌∷◌, ◌++◌, ◌==◌, ltb, Bytes,
  length, slice, get_or, ◌≡◌, refl, sym, ap, ◌∙◌, inl, inr, arith, All, Bool-cases, All-append,
  slice_join, slice_one, slice_empty,
}
use pgcov.Text.{split, is_blank, trim_blanks, is_empty_line}
use pgcov.Instrument.Weave.{IsSpacing}
use pgcov.Instrument.{get_indentation, first_indentation, indent_of, blanks_from, indent_before}

length-trim_blanks : (s : Bytes) → length (trim_blanks s) ≤ length s
unfolding trim_blanks
length-trim_blanks [] = omega arith
length-trim_blanks (c ∷ s) = elim (Bool-cases (is_blank c)) [
  | inl e ↦ rw e (omega (arith, length-trim_blanks s))
  | inr e ↦ rw e (omega arith)
]

blank-IsSpacing : (c : ℕ) → is_blank c ≡ true → IsSpacing c
blank-IsSpacing c h = ground arith

get_indentation-IsSpacing : (s : Bytes) → All IsSpacing (get_indentation s)
unfolding get_indentation trim_blanks
get_indentation-IsSpacing [] = tt
get_indentation-IsSpacing (c ∷ s) = elim (Bool-cases (is_blank c)) [
  | inl e ↦
      let n : suc (length s) - length (trim_blanks s) ≡ suc (length s - length (trim_blanks s)) =
        omega (arith, length-trim_blanks s) in
      rw (e, n) (blank-IsSpacing c e, get_indentation-IsSpacing s)
  | inr e ↦ let n : suc (length s) - suc (length s) ≡ 0 = omega arith in rw (e, n) tt
]

first_indentation-IsSpacing : (ls : List Bytes) → All IsSpacing (first_indentation ls)
unfolding first_indentation
first_indentation-IsSpacing [] = tt
first_indentation-IsSpacing (l ∷ ls) = elim (Bool-cases (is_empty_line l)) [
  | inl e ↦ rw e (first_indentation-IsSpacing ls)
  | inr e ↦ rw e (get_indentation-IsSpacing l)
]

pub indent_of-IsSpacing : (s : Bytes) → All IsSpacing (indent_of s)
unfolding indent_of
indent_of-IsSpacing s = first_indentation-IsSpacing (split b'\n' s)

blanks_from-zero : (content : Bytes) → blanks_from content zero ≡ 0
unfolding blanks_from
blanks_from-zero content = refl

blanks_from_yes :
    (content : Bytes) (i : ℕ)
    → is_blank (get_or content i 0) ≡ true
    → blanks_from content (suc i) ≡ blanks_from content i
unfolding blanks_from
blanks_from_yes content i e = rw e

blanks_from_no :
    (content : Bytes) (i : ℕ)
    → is_blank (get_or content i 0) ≡ false
    → blanks_from content (suc i) ≡ suc i
unfolding blanks_from
blanks_from_no content i e = rw e

blanks_from-le : (content : Bytes) (i : ℕ) → blanks_from content i ≤ i
unfolding blanks_from
blanks_from-le content zero = omega arith
blanks_from-le content (suc i) = elim (Bool-cases (is_blank (get_or content i 0))) [
  | inl e ↦ rw e (omega (arith, blanks_from-le content i))
  | inr e ↦ rw e (omega arith)
]

blanks-IsSpacing :
    (content : Bytes) (i : ℕ)
    → i ≤ length content
    → All IsSpacing (slice content (blanks_from content i) i)
blanks-IsSpacing content zero h = rw (blanks_from-zero content) tt
blanks-IsSpacing content (suc i) h = elim (Bool-cases (is_blank (get_or content i 0))) [
  | inl e ↦
      let n : suc i ≡ i + 1 = omega arith in
      let joined : slice content (blanks_from content i) i ++ (get_or content i 0 ∷ [])
          ≡ slice content (blanks_from content i) (suc i) =
        ap (λ t. slice content (blanks_from content i) i ++ t) (sym (slice_one content i 0 h))
        ∙ slice_join content (blanks_from content i) i (i + 1) (blanks_from-le content i)
            (omega arith)
        ∙ ap (slice content (blanks_from content i)) (sym n) in
      rw (blanks_from_yes content i e, ← joined)
        (All-append IsSpacing (slice content (blanks_from content i) i) (get_or content i 0 ∷ [])
          (blanks-IsSpacing content i (omega arith)) (blank-IsSpacing (get_or content i 0) e, tt))
  | inr e ↦ rw (blanks_from_no content i e, slice_empty content (suc i)) tt
]

pub indent_before-IsSpacing :
    (content : Bytes) (pos : ℕ) → All IsSpacing (indent_before content pos)
unfolding indent_before
indent_before-IsSpacing content pos = elim (Bool-cases (ltb (length content) pos)) [
  | inl e ↦ rw e tt
  | inr e ↦
      elim (Bool-cases (
        ltb 0 (blanks_from content pos)
        && not (get_or content (blanks_from content pos - 1) 0 == b'\n'))) [
          | inl f ↦ rw (e, f) tt
          | inr f ↦ rw (e, f) (blanks-IsSpacing content pos (ground arith))
        ]
]

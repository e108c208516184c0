-- ===== src/Scaffold/Functions/Quotes.antt =====
-- A quoted identifier is read back to the name that it quotes.
use pgcov.Base.{
  ℕ, suc, ◌+◌, ◌-◌, true, false, [], ◌∷◌, ◌++◌, ◌==◌, leb, if◌then◌else◌, Bytes, length,
  length-append, take-append, get_or, ◌≡◌, refl, ap, sym, ◌∙◌, ==_iff, Bool-cases, inl, inr, arith,
}
use pgcov.Scaffold.Functions.{undouble, strip_quotes}

-- A name as SQL quotes it: between double quotes, with each of its own doubled.
pub doubled : Bytes → Bytes
doubled [] = []
doubled (c ∷ s) = if c == b'"' then b'"' ∷ b'"' ∷ doubled s else c ∷ doubled s

pub quote_identifier : Bytes → Bytes
quote_identifier name = b'"' ∷ (doubled name ++ (b'"' ∷ []))

undouble-plain : (c : ℕ) (s : Bytes) → (c == b'"') ≡ false → undouble (c ∷ s) ≡ c ∷ undouble s
unfolding undouble
undouble-plain c [] e = refl
undouble-plain c (d ∷ s) e = rw (e, undouble)

undouble-pair : (s : Bytes) → undouble (b'"' ∷ b'"' ∷ s) ≡ b'"' ∷ undouble s
unfolding undouble
undouble-pair s = refl

undouble-doubled : (s : Bytes) → undouble (doubled s) ≡ s
unfolding doubled
undouble-doubled [] = unfold undouble in refl
undouble-doubled (c ∷ s) = elim (Bool-cases (c == b'"')) [
  | inl e ↦
      let quote : c ≡ b'"' = (==_iff c b'"').0 e in
      rw e (undouble-pair (doubled s) ∙ ap (◌∷◌ b'"') (undouble-doubled s))
      ∙ ap (λ d. d ∷ s) (sym quote)
  | inr e ↦ rw e (undouble-plain c (doubled s) e ∙ ap (◌∷◌ c) (undouble-doubled s))
]

last_of_snoc : (s : Bytes) (c d : ℕ) → get_or (s ++ (c ∷ [])) (length s) d ≡ c
last_of_snoc [] c d = refl
last_of_snoc (x ∷ s) c d = last_of_snoc s c d

-- Every name, whatever its bytes, quoted as SQL quotes identifiers is read back by stripQuotes.
pub strip_quotes-quote_identifier : (name : Bytes) → strip_quotes (quote_identifier name) ≡ name
unfolding strip_quotes quote_identifier
strip_quotes-quote_identifier name =
    let inner = doubled name ++ (b'"' ∷ []) in
    let size : length inner ≡ length (doubled name) + 1 =
      length-append (doubled name) (b'"' ∷ []) in
    let index : suc (length inner) - 1 ≡ suc (length (doubled name)) = omega (arith, size) in
    let last : get_or (b'"' ∷ inner) (suc (length inner) - 1) 0 ≡ b'"' =
      ap (λ i. get_or (b'"' ∷ inner) i 0) index ∙ last_of_snoc (doubled name) b'"' 0 in
    let long : leb 2 (suc (length inner)) ≡ true = ground (arith, size) in
    let rest : suc (length inner) - 1 - 1 ≡ length (doubled name) = omega (arith, size) in
    rw (last, long, rest)
      (ap undouble (take-append (doubled name) (b'"' ∷ [])) ∙ undouble-doubled name)

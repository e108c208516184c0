-- ===== src/Scaffold/Functions/Reads.antt =====
-- The functions that the generator finds are those that the tokens of a source declare.
use pgcov.Base.{
  ℕ, zero, suc, ◌+◌, true, false, ◌&&◌, none, some, List, [], ◌∷◌, ◌++◌, ◌==◌, Bytes, codes, drop,
  drop-drop, ◌≡◌, refl, sym, ap, subst, All, Option-cases, Bool-cases, inl, inr, arith, ◌∙◌,
}
use pgcov.Lexer.{Token, Lexer, ScansInOrder}
use pgcov.Scaffold.Functions.{
  FunctionInfo, token_equal_fold, replace_width, starts_function, paren_start, qualified_name,
  found, at_token, functions_from, extract_functions, calculate_line_number,
}
use pgcov.Scaffold.Functions.Lines.{
  Ascending, extract_functions-Ascending, calculate_line_number_lem,
}
use pgcov.Scaffold.Functions.Grammar.{GoesOn, Reads}
use pgcov.Scaffold.Functions.Headers.{IsHeader-Declares, DeclaresAt, Declares-IsHeader}

no_parenthesis :
    (toks : List Token) → paren_start toks ≡ none → All (λ t. (t.ty == b'(') ≡ false) toks
unfolding paren_start
no_parenthesis [] e = tt
no_parenthesis (t ∷ ts) e = elim (Bool-cases (t.ty == b'(')) [
  | inl p ↦ cc (rw p at e)
  | inr p ↦ elim (Option-cases (paren_start ts)) [
    | inl q ↦ (p, no_parenthesis ts q)
    | inr (m, q) ↦ cc (rw (p, q) at e)
  ]
]

-- The parenthesis, what stands in front of it, and what behind.
abbrev ParenthesisAt : List Token → ℕ → Type 0
ParenthesisAt toks n =
    (front : List Token) × (p : Token) × (toks ≡ front ++ (p ∷ drop (suc n) toks))
    × All (λ t. (t.ty == b'(') ≡ false) front
    × ((p.ty == b'(') ≡ true)

parenthesis_at : (toks : List Token) (n : ℕ) → paren_start toks ≡ some n → ParenthesisAt toks n
unfolding paren_start
parenthesis_at [] n e = cc
parenthesis_at (t ∷ ts) n e = elim (Bool-cases (t.ty == b'(')) [
  | inl p ↦
      let same : 0 ≡ n = cc (rw p at e) in subst (ParenthesisAt (t ∷ ts)) same ([], t, refl, tt, p)
  | inr p ↦ elim (Option-cases (paren_start ts)) [
    | inl q ↦ cc (rw (p, q) at e)
    | inr (m, q) ↦
        let same : suc m ≡ n = cc (rw (p, q) at e) in
        let (front, u, parts, none_before, is_open) = parenthesis_at ts m q in
        subst (ParenthesisAt (t ∷ ts)) same
          (t ∷ front, u, ap (λ x. t ∷ x) parts, (p, none_before), is_open)
  ]
]

parenthesis-GoesOn :
    (body toks : List Token) (n : ℕ)
    → paren_start toks ≡ some n
    → GoesOn body toks (drop (suc n) toks)
parenthesis-GoesOn body toks n e =
    let (front, p, parts, none_before, is_open) = parenthesis_at toks n e in
    subst (λ x. GoesOn body x (drop (suc n) toks)) (sym parts)
      (GoesOn.at_parenthesis body front p (drop (suc n) toks) none_before is_open)

module _ (lx : Lexer) where
  module _ (sql : Bytes) where
    found-Reads :
        (t : Token) (ts : List Token) (q : Bytes × Bytes × ℕ) (rest : ℕ → List FunctionInfo)
        → token_equal_fold t (codes "CREATE") ≡ true
        → DeclaresAt lx ts (replace_width ts) q
        → ((k : ℕ) → Reads lx sql (drop k ts) (rest k))
        → (let j = replace_width ts in
            let r =
              found lx sql
                (calculate_line_number sql t.pos)
                (j + 1)
                (j + 1 + q.2)
                q
                (drop (j + 1 + q.2) ts) in
            Reads lx sql (t ∷ ts) (r.0 ++ rest r.1))
    unfolding found
    found-Reads t ts q rest c d h =
        let j = replace_width ts in
        let behind = drop (j + 1 + q.2) ts in
        let line = calculate_line_number_lem lx sql t.pos in
        elim (Option-cases (paren_start behind)) [
          | inl e ↦
              rw (e, found)
                (Reads.function t _ c d line
                  (GoesOn.without_one (drop (j + 1) ts) behind (no_parenthesis behind e))
                  (h (j + 1)))
          | inr (n, e) ↦
              rw (e, found)
                (Reads.function t _ c d line (parenthesis-GoesOn (drop (j + 1) ts) behind n e) (
                  subst (λ x. Reads lx sql x (rest (j + 1 + q.2 + n + 1)))
                    (ap (λ m. drop m ts) {x = j + 1 + q.2 + n + 1} (omega arith)
                      ∙ sym (drop-drop (suc n) (j + 1 + q.2) ts))
                    (h (j + 1 + q.2 + n + 1))))
        ]

    at_token-Reads :
        (t : Token) (ts : List Token) (rest : ℕ → List FunctionInfo)
        → ((k : ℕ) → Reads lx sql (drop k ts) (rest k))
        → Reads lx sql (t ∷ ts) ((at_token lx sql t ts).0 ++ rest (at_token lx sql t ts).1)
    unfolding at_token
    at_token-Reads t ts rest h =
        elim (Bool-cases
          (token_equal_fold t (codes "CREATE") && starts_function (drop (replace_width ts) ts))) [
            | inr e ↦
                rw (e, at_token)
                  (Reads.other t ts
                    (λ c body behind schema name d.
                      absurd (
                        let (n, header) = IsHeader-Declares lx d in ground (arith, e, c, header.0)))
                    (h 0))
            | inl e ↦ elim (Option-cases (qualified_name lx (drop (replace_width ts + 1) ts))) [
              | inl p ↦
                  rw (e, p, at_token)
                    (Reads.other t ts
                      (λ c body behind schema name d. absurd (
                        let (n, header) = IsHeader-Declares lx d in let x = sym p ∙ header.1 in cc))
                      (h 0))
              | inr (q, p) ↦
                  rw (e, p, at_token)
                    (found-Reads t ts q rest (ground (arith, e))
                      (Declares-IsHeader lx ts q (ground (arith, e), p)) h)
            ]
          ]

    functions_from-Reads :
        (toks : List Token) (skip : ℕ)
        → Reads lx sql (drop skip toks) (functions_from lx sql skip toks)
    unfolding functions_from
    functions_from-Reads [] zero = Reads.at_end
    functions_from-Reads [] (suc skip) = Reads.at_end
    functions_from-Reads (t ∷ ts) (suc skip) = functions_from-Reads ts skip
    functions_from-Reads (t ∷ ts) zero =
        at_token-Reads t ts (λ k. functions_from lx sql k ts) (functions_from-Reads ts)

    -- For a lexer that scans from left to right, the functions found in a source are those that its
    -- tokens declare: a CREATE with `[OR REPLACE] FUNCTION` and a name behind it, with that schema and
    -- name, on the line that the newlines in front of the CREATE make it, read on from the next opening
    -- parenthesis; nothing else is found, and none is left out. They come in the order of their lines.
    pub extract_functions_lem :
        ScansInOrder lx
        → Ascending (extract_functions lx sql)
          × Reads lx sql (lx.tokens sql) (extract_functions lx sql)
    unfolding extract_functions
    extract_functions_lem scans =
        (extract_functions-Ascending lx sql scans, functions_from-Reads (lx.tokens sql) 0)

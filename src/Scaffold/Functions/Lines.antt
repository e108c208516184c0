-- ===== src/Scaffold/Functions/Lines.antt =====
-- Offsets in a source are on the lines that its newlines make, and functions come in their order.
use pgcov.Base.{
  ℕ, zero, suc, ◌+◌, ◌≤◌, ◌<◌, take, ◌&&◌, List, [], ◌∷◌, ◌++◌, ◌==◌, ltb, if◌then◌else◌, Bytes,
  codes, length, drop, ◌≡◌, refl, All, All-append, All_map, Option-cases, Bool-cases, inl, inr,
  arith,
}
use pgcov.Parser.Lines.{newlines}
use pgcov.Lexer.{Token, Lexer, Ordered, ScansInOrder}
use pgcov.Scaffold.Functions.{
  FunctionInfo, line_from, calculate_line_number, token_equal_fold, qualified_name, found, at_token,
  functions_from, extract_functions, starts_function, replace_width, paren_start,
}

le-line_from : (n : ℕ) (s : Bytes) (line : ℕ) → line ≤ line_from n s line
unfolding line_from
le-line_from zero s line = omega arith
le-line_from (suc n) [] line = omega arith
le-line_from (suc n) (c ∷ s) line =
    ground (arith, le-line_from n s line, le-line_from n s (line + 1))

line_from_mono : (m n : ℕ) (s : Bytes) (line : ℕ) → m ≤ n → line_from m s line ≤ line_from n s line
unfolding line_from
line_from_mono zero n s line h = le-line_from n s line
line_from_mono (suc m) zero s line h = absurd (omega arith)
line_from_mono (suc m) (suc n) [] line h = omega arith
line_from_mono (suc m) (suc n) (c ∷ s) line h =
    line_from_mono m n s (if c == b'\n' then line + 1 else line) (omega arith)

line_from-newlines :
    (n : ℕ) (s : Bytes) (line : ℕ) → line_from n s line ≡ line + newlines (take n s)
unfolding line_from newlines
line_from-newlines zero s line = omega arith
line_from-newlines (suc n) [] line = omega arith
line_from-newlines (suc n) (c ∷ s) line = elim (Bool-cases (c == b'\n')) [
  | inl e ↦ rw e (omega (arith, line_from-newlines n s (line + 1)))
  | inr e ↦ rw e (omega (arith, line_from-newlines n s line))
]

line_from-newlines-beyond :
    (m n : ℕ) (s : Bytes) (line : ℕ)
    → m ≡ length s
    → m < n
    → line_from m s line ≡ line + newlines (take n s)
unfolding line_from newlines
line_from-newlines-beyond m zero s line q h = absurd (omega arith)
line_from-newlines-beyond zero (suc n) [] line q h = omega arith
line_from-newlines-beyond zero (suc n) (c ∷ s) line q h = absurd (omega arith)
line_from-newlines-beyond (suc m) (suc n) [] line q h = absurd (omega arith)
line_from-newlines-beyond (suc m) (suc n) (c ∷ s) line q h = elim (Bool-cases (c == b'\n')) [
  | inl e ↦
      rw e (omega (arith, line_from-newlines-beyond m n s (line + 1) (omega arith) (omega arith)))
  | inr e ↦ rw e (omega (arith, line_from-newlines-beyond m n s line (omega arith) (omega arith)))
]

-- A later offset is on the same line or a later one.
calculate_line_number_mono :
    (sql : Bytes) (a b : ℕ) → a ≤ b → calculate_line_number sql a ≤ calculate_line_number sql b
unfolding calculate_line_number
calculate_line_number_mono sql a b h =
    line_from_mono (if ltb (length sql) a then length sql else a)
      (if ltb (length sql) b then length sql else b) sql 1 (ground arith)

-- No function is on a line in front of that of one before it.
abbrev pub Ascending : List FunctionInfo → Type 0
Ascending [] = Unit
Ascending (f ∷ fs) = All (λ g. f.start_line ≤ g.start_line) fs × Ascending fs

-- Functions of one line in front of functions of later ones.
prepend :
    (line : ℕ) (fs rest : List FunctionInfo)
    → All (λ f. f.start_line ≡ line) fs
    → All (λ g. line ≤ g.start_line) rest
    → Ascending rest
    → Ascending (fs ++ rest)
prepend line [] rest h k a = a
prepend line (f ∷ fs) rest (e, h) k a = (
  All-append (λ g. f.start_line ≤ g.start_line) fs rest
      (All_map (λ g. g.start_line ≡ line) (λ g. f.start_line ≤ g.start_line)
        (λ g q. omega (arith, e, q)) fs h)
      (All_map (λ g. line ≤ g.start_line) (λ g. f.start_line ≤ g.start_line)
        (λ g q. omega (arith, e, q)) rest k),
  prepend line fs rest h k a,
)

module _ (lx : Lexer) (sql : Bytes) where
  found_lines :
      (line header width : ℕ) (q : Bytes × Bytes × ℕ) (toks : List Token)
      → All (λ f. f.start_line ≡ line) (found lx sql line header width q toks).0
  unfolding found
  found_lines line header width (schema, name, n) toks = elim (Option-cases (paren_start toks)) [
    | inl e ↦ rw (e, found) (refl, tt)
    | inr (paren, e) ↦ rw (e, found) (refl, tt)
  ]

  at_token_lines :
      (t : Token) (ts : List Token)
      → All (λ f. f.start_line ≡ calculate_line_number sql t.pos) (at_token lx sql t ts).0
  unfolding at_token
  at_token_lines t ts =
      elim (Bool-cases
        (token_equal_fold t (codes "CREATE") && starts_function (drop (replace_width ts) ts))) [
          | inr e ↦ rw (e, at_token) tt
          | inl e ↦ elim (Option-cases (qualified_name lx (drop (replace_width ts + 1) ts))) [
            | inl p ↦ rw (e, p, at_token) tt
            | inr (q, p) ↦
                rw (e, p, at_token)
                  (found_lines (calculate_line_number sql t.pos) (replace_width ts + 1)
                    (replace_width ts + 1 + q.2) q (drop (replace_width ts + 1 + q.2) ts))
          ]
        ]

  -- The functions found from tokens at `lo` or behind it.
  record InOrder (lo : ℕ) (toks : List Token) (fs : List FunctionInfo) : Type 0 where
    from : All (λ f. calculate_line_number sql lo ≤ f.start_line) fs
    ascending : Ascending fs

  lower :
      (lo hi : ℕ)
      → lo ≤ hi
      → (fs : List FunctionInfo) → All (λ f. calculate_line_number sql hi ≤ f.start_line) fs
      → All (λ f. calculate_line_number sql lo ≤ f.start_line) fs
  lower lo hi h fs =
      All_map (λ f. calculate_line_number sql hi ≤ f.start_line)
        (λ f. calculate_line_number sql lo ≤ f.start_line)
        (λ f k. omega (arith, k, calculate_line_number_mono sql lo hi h)) fs

  functions_from-InOrder :
      (lo n skip : ℕ) (toks : List Token)
      → Ordered lo n toks
      → InOrder lo toks (functions_from lx sql skip toks)
  unfolding functions_from
  functions_from-InOrder lo n skip [] o = record { from = tt; ascending = tt }
  functions_from-InOrder lo n (suc skip) (t ∷ ts) (a, b, o) =
      let h = functions_from-InOrder (t.pos + 1) n skip ts o in
      record { from = lower lo (t.pos + 1) (omega arith) _ h.from; ascending = h.ascending }
  functions_from-InOrder lo n zero (t ∷ ts) (a, b, o) =
      let r = at_token lx sql t ts in
      let line = calculate_line_number sql t.pos in
      let on_line = at_token_lines t ts in
      let h = functions_from-InOrder (t.pos + 1) n r.1 ts o in
      record {
        from =
            All-append (λ f. calculate_line_number sql lo ≤ f.start_line) r.0 _
              (All_map (λ f. f.start_line ≡ line) (λ f. calculate_line_number sql lo ≤ f.start_line)
                (λ f e. omega (arith, e, calculate_line_number_mono sql lo t.pos a)) r.0 on_line)
              (lower lo (t.pos + 1) (omega arith) _ h.from);
        ascending =
            prepend line r.0 _ on_line (lower t.pos (t.pos + 1) (omega arith) _ h.from) h.ascending;
      }

  -- For a lexer that scans from left to right.
  pub extract_functions-Ascending : ScansInOrder lx → Ascending (extract_functions lx sql)
  unfolding extract_functions
  extract_functions-Ascending scans =
      (functions_from-InOrder 0 (length sql) 0 (lx.tokens sql) (scans sql)).ascending

  pub calculate_line_number_lem :
      (pos : ℕ) → calculate_line_number sql pos ≡ 1 + newlines (take pos sql)
  unfolding calculate_line_number
  calculate_line_number_lem pos = elim (Bool-cases (ltb (length sql) pos)) [
    | inl e ↦ rw e (line_from-newlines-beyond (length sql) pos sql 1 refl (ground (arith, e)))
    | inr e ↦ rw e (line_from-newlines pos sql 1)
  ]

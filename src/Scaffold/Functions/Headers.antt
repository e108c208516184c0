-- ===== src/Scaffold/Functions/Headers.antt =====
-- The headers that the generator looks for are those of the grammar.
use pgcov.Base.{
  ℕ, suc, ◌+◌, true, false, ◌&&◌, Option, some, List, [], ◌∷◌, ◌==◌, Bytes, codes, drop, ◌≡◌, refl,
  subst, Bool-cases, inl, inr, arith,
}
use pgcov.Text.{equal_fold, fold_width, lower}
use pgcov.Lexer.{Token, Lexer}
use pgcov.Scaffold.Functions.{token_equal_fold, replace_width, starts_function, qualified_name}
use pgcov.Scaffold.Functions.Grammar.{Names, Declares}

begins_with :
    (w : ℕ) (c : ℕ) (s ws : Bytes)
    → (lower w == b's') ≡ false
    → (lower w == b'k') ≡ false
    → equal_fold (c ∷ s) (w ∷ ws) ≡ true
    → (lower c == lower w) ≡ true
unfolding equal_fold fold_width
begins_with w c s ws not_s not_k h = elim (Bool-cases (lower c == lower w)) [
  | inl e ↦ e
  | inr e ↦ cc (rw (e, not_s, not_k) at h)
]

-- No text is both words.
not_both : (s : Bytes) → equal_fold s (codes "FUNCTION") ≡ true → equal_fold s (codes "OR") ≡ false
not_both [] h = unfold equal_fold fold_width in refl
not_both (c ∷ s) h = elim (Bool-cases (equal_fold (c ∷ s) (codes "OR"))) [
  | inr e ↦ e
  | inl e ↦
      let f = begins_with b'F' c s (codes "UNCTION") refl refl h in
      let o = begins_with b'O' c s (codes "R") refl refl e in absurd (ground (arith, f, o))
]

module _ (lx : Lexer) where
  qualified_name-Names :
      {ts behind : List Token} {schema name : Bytes}
      → Names lx ts schema name behind
      → (n : ℕ) × (qualified_name lx ts ≡ some (schema, name, n))
  unfolding qualified_name
  qualified_name-Names (Names.qualified t u v ts h q) = (3, rw (h, q) refl)
  qualified_name-Names (Names.unqualified t [] h q) = (1, rw h refl)
  qualified_name-Names (Names.unqualified t (u ∷ []) h q) = (1, rw h refl)
  qualified_name-Names (Names.unqualified t (u ∷ v ∷ ts) h q) = (1, rw (h, q) refl)

  abbrev NamesAt : List Token → Bytes × Bytes × ℕ → Type 0
  NamesAt ts q = Names lx ts q.0 q.1 (drop q.2 ts)

  NamesAt-same :
      (ts : List Token) (a q : Bytes × Bytes × ℕ)
      → ◌≡◌ {A = Option (Bytes × Bytes × ℕ)} (some a) (some q)
      → NamesAt ts a
      → NamesAt ts q
  NamesAt-same ts a q e h = let same : a ≡ q = cc in subst (NamesAt ts) same h

  Names-qualified_name :
      (ts : List Token) (q : Bytes × Bytes × ℕ) → qualified_name lx ts ≡ some q → NamesAt ts q
  unfolding qualified_name
  Names-qualified_name [] q e = cc
  Names-qualified_name (t ∷ []) q e = elim (Bool-cases (t.ty == lx.ident)) [
    | inl i ↦ NamesAt-same (t ∷ []) _ q (rw i at e) (Names.unqualified t [] i refl)
    | inr i ↦ cc (rw i at e)
  ]
  Names-qualified_name (t ∷ u ∷ []) q e = elim (Bool-cases (t.ty == lx.ident)) [
    | inl i ↦ NamesAt-same (t ∷ u ∷ []) _ q (rw i at e) (Names.unqualified t (u ∷ []) i refl)
    | inr i ↦ cc (rw i at e)
  ]
  Names-qualified_name (t ∷ u ∷ v ∷ ts) q e = elim (Bool-cases (t.ty == lx.ident)) [
    | inr i ↦ cc (rw i at e)
    | inl i ↦ elim (Bool-cases (u.ty == b'.' && v.ty == lx.ident)) [
      | inl d ↦ NamesAt-same (t ∷ u ∷ v ∷ ts) _ q (rw (i, d) at e) (Names.qualified t u v ts i d)
      | inr d ↦
          NamesAt-same (t ∷ u ∷ v ∷ ts) _ q (rw (i, d) at e) (Names.unqualified t (u ∷ v ∷ ts) i d)
    ]
  ]

  starts_at :
      (t : Token) (ts : List Token)
      → starts_function (t ∷ ts) ≡ token_equal_fold t (codes "FUNCTION")
  unfolding starts_function
  starts_at t ts = refl

  replace_width-plain :
      (t : Token) (ts : List Token)
      → token_equal_fold t (codes "FUNCTION") ≡ true
      → replace_width (t ∷ ts) ≡ 0
  unfolding replace_width
  replace_width-plain t [] h = refl
  replace_width-plain t (u ∷ ts) h = rw (not_both t.text h) refl

  replace_width-or_replace :
      (t u : Token) (ts : List Token)
      → token_equal_fold t (codes "OR") ≡ true
      → token_equal_fold u (codes "REPLACE") ≡ true
      → replace_width (t ∷ u ∷ ts) ≡ 2
  unfolding replace_width
  replace_width-or_replace t u ts h k = rw (h, k) refl

  -- What the code looks at behind CREATE.
  abbrev pub IsHeader : List Token → Bytes × Bytes × ℕ → Type 0
  IsHeader ts q =
      (starts_function (drop (replace_width ts) ts) ≡ true)
      × (qualified_name lx (drop (replace_width ts + 1) ts) ≡ some q)

  pub IsHeader-Declares :
      {ts body behind : List Token} {schema name : Bytes}
      → Declares lx ts body schema name behind
      → (n : ℕ) × IsHeader ts (schema, name, n)
  IsHeader-Declares (Declares.plain t ts behind schema name h names) =
      let (n, e) = qualified_name-Names names in
      (n, rw (replace_width-plain t ts h) (rw (starts_at t ts) h, e))
  IsHeader-Declares (Declares.or_replace t u v ts behind schema name h k f names) =
      let (n, e) = qualified_name-Names names in
      (n, rw (replace_width-or_replace t u (v ∷ ts) h k) (rw (starts_at v ts) f, e))

  plain_header :
      (ts : List Token) (q : Bytes × Bytes × ℕ)
      → starts_function ts ≡ true
      → qualified_name lx (drop 1 ts) ≡ some q
      → Declares lx ts (drop 1 ts) q.0 q.1 (drop (suc q.2) ts)
  unfolding starts_function
  plain_header [] q f e = cc
  plain_header (t ∷ ts) q f e =
      Declares.plain t ts (drop q.2 ts) q.0 q.1 f (Names-qualified_name ts q e)

  replace_header :
      (t u : Token) (ts : List Token) (q : Bytes × Bytes × ℕ)
      → token_equal_fold t (codes "OR") ≡ true
      → token_equal_fold u (codes "REPLACE") ≡ true
      → starts_function ts ≡ true
      → qualified_name lx (drop 1 ts) ≡ some q
      → Declares lx (t ∷ u ∷ ts) (drop 1 ts) q.0 q.1 (drop (suc q.2) ts)
  unfolding starts_function
  replace_header t u [] q o p f e = cc
  replace_header t u (v ∷ ts) q o p f e =
      Declares.or_replace t u v ts (drop q.2 ts) q.0 q.1 o p f (Names-qualified_name ts q e)

  abbrev pub DeclaresAt : List Token → ℕ → Bytes × Bytes × ℕ → Type 0
  DeclaresAt ts j q = Declares lx ts (drop (j + 1) ts) q.0 q.1 (drop (j + 1 + q.2) ts)

  without_replace :
      (ts : List Token) (q : Bytes × Bytes × ℕ)
      → replace_width ts ≡ 0
      → IsHeader ts q
      → DeclaresAt ts (replace_width ts) q
  without_replace ts q z h =
      let body : starts_function (drop 0 ts) ≡ true = rw z at h.0 in
      let name : qualified_name lx (drop (0 + 1) ts) ≡ some q = rw z at h.1 in
      rw z (
        subst (λ m. Declares lx ts (drop 1 ts) q.0 q.1 (drop m ts)) {x = suc q.2} (omega arith)
          (plain_header ts q body name))

  with_replace :
      (t u : Token) (ts : List Token) (q : Bytes × Bytes × ℕ)
      → token_equal_fold t (codes "OR") ≡ true
      → token_equal_fold u (codes "REPLACE") ≡ true
      → IsHeader (t ∷ u ∷ ts) q
      → DeclaresAt (t ∷ u ∷ ts) (replace_width (t ∷ u ∷ ts)) q
  with_replace t u ts q o p h =
      let z = replace_width-or_replace t u ts o p in
      let body : starts_function ts ≡ true = rw z at h.0 in
      let name : qualified_name lx (drop 1 ts) ≡ some q = rw z at h.1 in
      rw z (
        subst (λ m. Declares lx (t ∷ u ∷ ts) (drop 1 ts) q.0 q.1 (drop m (t ∷ u ∷ ts)))
          {x = suc (suc (suc q.2))} (omega arith) (replace_header t u ts q o p body name))

  -- A header of the code is one of the grammar.
  pub Declares-IsHeader :
      (ts : List Token) (q : Bytes × Bytes × ℕ) → IsHeader ts q → DeclaresAt ts (replace_width ts) q
  Declares-IsHeader [] q h = without_replace [] q (unfold replace_width in refl) h
  Declares-IsHeader (t ∷ []) q h = without_replace (t ∷ []) q (unfold replace_width in refl) h
  Declares-IsHeader (t ∷ u ∷ ts) q h =
      elim (Bool-cases (token_equal_fold t (codes "OR") && token_equal_fold u (codes "REPLACE"))) [
        | inl e ↦ with_replace t u ts q (ground (arith, e)) (ground (arith, e)) h
        | inr e ↦ without_replace (t ∷ u ∷ ts) q (unfold replace_width in rw e refl) h
      ]

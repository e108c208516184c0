-- ===== src/Scaffold/Functions/Grammar.antt =====
-- What a source declares: a reading of its tokens by the grammar of a header.
use pgcov.Base.{
  ◌+◌, Bool, true, false, ◌&&◌, List, [], ◌∷◌, ◌++◌, ◌==◌, Bytes, codes, take, ◌≡◌, All,
}
use pgcov.Lexer.{Token, Lexer}
use pgcov.Parser.Lines.{newlines}
use pgcov.Scaffold.Functions.{FunctionInfo, strip_quotes, token_equal_fold}

-- Where the reading goes on: behind the first parenthesis after the name, or, where there is none,
-- behind the keyword.
pub data GoesOn : List Token → List Token → List Token → Type 0 where
  at_parenthesis :
      (body front : List Token) (p : Token) (rest : List Token)
      → All (λ t. (t.ty == b'(') ≡ false) front
      → (p.ty == b'(') ≡ true
      → GoesOn body (front ++ (p ∷ rest)) rest
  without_one :
      (body behind : List Token)
      → All (λ t. (t.ty == b'(') ≡ false) behind
      → GoesOn body behind body

module _ (lx : Lexer) where
  -- A dot and an identifier come first.
  abbrev pub is_qualified : List Token → Bool
  is_qualified (u ∷ v ∷ ts) = u.ty == b'.' && v.ty == lx.ident
  is_qualified _ = false

  -- The tokens start with a name that has this schema and this text; then the last tokens follow.
  pub data Names : List Token → Bytes → Bytes → List Token → Type 0 where
    qualified :
        (t u v : Token) (ts : List Token)
        → (t.ty == lx.ident) ≡ true
        → is_qualified (u ∷ v ∷ ts) ≡ true
        → Names (t ∷ u ∷ v ∷ ts) (strip_quotes t.text) (strip_quotes v.text) ts
    unqualified :
        (t : Token) (ts : List Token)
        → (t.ty == lx.ident) ≡ true
        → is_qualified ts ≡ false
        → Names (t ∷ ts) [] (strip_quotes t.text) ts

  -- `[OR REPLACE] FUNCTION` and a name: what follows the keyword, the schema, the name, and what
  -- follows the name.
  pub data Declares : List Token → List Token → Bytes → Bytes → List Token → Type 0 where
    plain :
        (t : Token) (ts behind : List Token) (schema name : Bytes)
        → token_equal_fold t (codes "FUNCTION") ≡ true
        → Names ts schema name behind
        → Declares (t ∷ ts) ts schema name behind
    or_replace :
        (t u v : Token) (ts behind : List Token) (schema name : Bytes)
        → token_equal_fold t (codes "OR") ≡ true
        → token_equal_fold u (codes "REPLACE") ≡ true
        → token_equal_fold v (codes "FUNCTION") ≡ true
        → Names ts schema name behind
        → Declares (t ∷ u ∷ v ∷ ts) ts schema name behind

  -- The functions that a source declares: each CREATE with a header behind it is one, on the line of
  -- that CREATE, and no other token is.
  pub data Reads (sql : Bytes) : List Token → List FunctionInfo → Type 0 where
    at_end : Reads sql [] []
    other :
        (t : Token) (ts : List Token) {fs : List FunctionInfo}
        → (token_equal_fold t (codes "CREATE") ≡ true
            → (body behind : List Token) (schema name : Bytes) → Declares ts body schema name behind
            → ⊥)
        → Reads sql ts fs
        → Reads sql (t ∷ ts) fs
    function :
        (t : Token) {ts body behind rest : List Token} (f : FunctionInfo) {fs : List FunctionInfo}
        → token_equal_fold t (codes "CREATE") ≡ true
        → Declares ts body f.schema f.name behind
        → f.start_line ≡ 1 + newlines (take t.pos sql)
        → GoesOn body behind rest
        → Reads sql rest fs
        → Reads sql (t ∷ ts) (f ∷ fs)

-- ===== src/Lexer.antt =====
-- The lexer of the package pglex, which the program calls and does not implement: a parameter.
use pgcov.Base.{ℕ, ◌≤◌, ◌<◌, ◌+◌, List, [], ◌∷◌, Bytes, length}

-- `pglex.Token`: the parts of it that the program reads. The type of a one-character token is its
-- character.
pub record Token : Type 0 where
  pub ty : ℕ
  pub pos : ℕ
  pub text : Bytes

-- `tokens s` are the tokens that `NewScanner(s).Scan()` returns before `EOF`.
pub record Lexer : Type 0 where
  pub tokens : Bytes → List Token
  pub split_statements : Bytes → List (List Token)
  pub comment : ℕ
  pub ident : ℕ
  pub s_const : ℕ
  pub k_begin : ℕ
  pub k_end : ℕ
  pub k_loop : ℕ
  pub k_declare : ℕ
  pub k_exception : ℕ
  pub k_return : ℕ
  pub k_raise : ℕ
  pub k_notice : ℕ
  pub k_warning : ℕ
  pub k_info : ℕ
  pub k_log : ℕ
  pub k_debug : ℕ

-- Tokens come in the order of their positions, from `lo` on, within a text of `n` bytes.
abbrev pub Ordered : ℕ → ℕ → List Token → Type 0
Ordered lo n [] = Unit
Ordered lo n (t ∷ ts) = (lo ≤ t.pos) × (t.pos < n) × Ordered (t.pos + 1) n ts

-- What the program relies on: the scanner reads its input from left to right.
abbrev pub ScansInOrder : Lexer → Type 0
ScansInOrder lx = (s : Bytes) → Ordered 0 (length s) (lx.tokens s)

-- ===== src/Scaffold/Functions.antt =====
-- `extractFunctions` of internal/cli/init.go, over the tokens of the lexer.
pub mod Grammar
pub mod Headers
pub mod Lines
pub mod Reads
pub mod Quotes
use pgcov.Base.{
  ℕ, zero, suc, ◌+◌, ◌-◌, Bool, true, false, ◌&&◌, Option, none, some, List, [], ◌∷◌, ◌++◌, ◌==◌,
  leb, ltb, if◌then◌else◌, Bytes, codes, length, take, drop, slice, get_or,
}
use pgcov.Text.{equal_fold}
use pgcov.Lexer.{Token, Lexer}
use pgcov.Scaffold.Arguments.{collect_balanced_args, format_arg_list}

pub record FunctionInfo : Type 0 where
  pub schema : Bytes
  pub name : Bytes
  pub args : Bytes
  pub start_line : ℕ

-- The loop of `calculateLineNumber`: `left` offsets are still to look at.
line_from : ℕ → Bytes → ℕ → ℕ
line_from zero sql line = line
line_from (suc left) [] line = line
line_from (suc left) (c ∷ sql) line = line_from left sql (if c == b'\n' then line + 1 else line)

-- The offset is that of a token, which is not negative.
unfoldable pub calculate_line_number : Bytes → ℕ → ℕ
unfolding line_from
calculate_line_number sql offset =
    line_from (if ltb (length sql) offset then length sql else offset) sql 1

-- `strings.ReplaceAll` of two double quotes by one.
unfoldable pub undouble : Bytes → Bytes
undouble [] = []
undouble (c ∷ []) = c ∷ []
undouble (c ∷ d ∷ s) = elim (c == b'"' && d == b'"') [
  | true ↦ b'"' ∷ undouble s
  | false ↦ c ∷ undouble (d ∷ s)
]

unfoldable pub strip_quotes : Bytes → Bytes
unfolding undouble
strip_quotes text =
    if leb 2 (length text) && (get_or text 0 0 == b'"' && get_or text (length text - 1) 0 == b'"')
    then undouble (slice text 1 (length text - 1))
    else text

abbrev pub token_equal_fold : Token → Bytes → Bool
token_equal_fold tok word = equal_fold tok.text word

-- How many tokens `OR REPLACE` takes.
pub replace_width : List Token → ℕ
replace_width (t ∷ u ∷ ts) =
    if token_equal_fold t (codes "OR") && token_equal_fold u (codes "REPLACE") then 2 else 0
replace_width _ = 0

pub starts_function : List Token → Bool
starts_function [] = false
starts_function (t ∷ ts) = token_equal_fold t (codes "FUNCTION")

-- How far the first opening parenthesis is.
paren_start : List Token → Option ℕ
paren_start [] = none
paren_start (t ∷ ts) =
    let rest = paren_start ts in
    if t.ty == b'('
    then some 0
    else elim rest as (λ _. Option ℕ) [ none ↦ none | some n ↦ some (suc n) ]

module _ (lx : Lexer) where
  -- The schema, the name and the number of tokens that they take.
  pub qualified_name : List Token → Option (Bytes × Bytes × ℕ)
  unfolding strip_quotes
  qualified_name [] = none
  qualified_name (t ∷ []) = if t.ty == lx.ident then some ([], strip_quotes t.text, 1) else none
  qualified_name (t ∷ u ∷ []) = if t.ty == lx.ident then some ([], strip_quotes t.text, 1) else none
  qualified_name (t ∷ u ∷ v ∷ ts) =
      if t.ty == lx.ident && (u.ty == b'.' && v.ty == lx.ident)
      then some (strip_quotes t.text, strip_quotes v.text, 3)
      else if t.ty == lx.ident
      then some ([], strip_quotes t.text, 1)
      else none

  -- The function whose header has its name in front of `toks`, with the line of its `CREATE`. `width`
  -- tokens stand between that and `toks`. The number is how many tokens behind `CREATE` the outer loop
  -- skips: up to the keyword `FUNCTION` where there is no parenthesis, else up to the parenthesis.
  found : Bytes → ℕ → ℕ → ℕ → (Bytes × Bytes × ℕ) → List Token → List FunctionInfo × ℕ
  unfolding paren_start collect_balanced_args format_arg_list
  found sql line header width (schema, name, _) toks =
      elim (paren_start toks) as (λ _. List FunctionInfo × ℕ) [
        | none ↦
            ((record { schema = schema; name = name; args = []; start_line = line }) ∷ [], header)
        | some paren ↦ (
          (record {
            schema = schema;
            name = name;
            args = format_arg_list (collect_balanced_args sql (drop paren toks));
            start_line = line;
          })
              ∷ [],
          width + paren + 1,
        )
      ]

  -- What the outer loop does at the token `t`, which `ts` follow.
  at_token : Bytes → Token → List Token → List FunctionInfo × ℕ
  unfolding calculate_line_number replace_width starts_function qualified_name found
  at_token sql t ts =
      let j = replace_width ts in
      let name = qualified_name (drop (j + 1) ts) in
      if token_equal_fold t (codes "CREATE") && starts_function (drop j ts)
      then elim name as (λ _. List FunctionInfo × ℕ) [
        | none ↦ ([], 0)
        | some q ↦
            found sql (calculate_line_number sql t.pos) (j + 1) (j + 1 + q.2) q
              (drop (j + 1 + q.2) ts)
      ]
      else ([], 0)

  -- The outer loop; `skip` tokens are still to pass over.
  functions_from : Bytes → ℕ → List Token → List FunctionInfo
  unfolding at_token
  functions_from sql skip [] = []
  functions_from sql (suc skip) (t ∷ ts) = functions_from sql skip ts
  functions_from sql zero (t ∷ ts) =
      let (functions, skip) = at_token sql t ts in functions ++ functions_from sql skip ts

  unfoldable pub extract_functions : Bytes → List FunctionInfo
  unfolding functions_from
  extract_functions sql = functions_from sql 0 (lx.tokens sql)

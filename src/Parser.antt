-- ===== src/Parser.antt =====
-- The parser of internal/parser/parse.go: statements with their kind, language and body.
pub mod Lines
pub mod Source
use pgcov.Base.{
  ℕ, zero, suc, ◌+◌, ◌-◌, Bool, true, false, not, ◌&&◌, ◌||◌, Option, none, some, List, [], ◌∷◌,
  ◌++◌, ◌==◌, ltb, leb, if◌then◌else◌, Bytes, codes, length, take, drop, slice, get_or, bytes_eq,
}
use pgcov.Text.{to_lower, equal_fold, has_prefix, has_suffix, index_byte}
use pgcov.Lexer.{Token, Lexer}

pub data StatementType : Type 0 where
  stmt_unknown stmt_function stmt_procedure stmt_trigger stmt_view stmt_do stmt_other :
      StatementType

pub record Statement : Type 0 where
  pub raw_sql : Bytes
  pub start_pos : ℕ
  pub start_line : ℕ
  pub end_line : ℕ
  pub ty : StatementType
  pub language : Bytes
  pub body : Bytes
  pub body_start : ℕ

abbrev pub is_ident : Token → Bytes → Bool
is_ident t word = equal_fold t.text word

-- The loop of `calculateLineNumber` over the first `offset` bytes.
count_lines : ℕ → Bytes → ℕ → ℕ
count_lines zero s line = line
count_lines (suc offset) [] line = line
count_lines (suc offset) (c ∷ s) line = count_lines offset s (if c == b'\n' then line + 1 else line)

unfoldable pub calculate_line_number : Bytes → ℕ → ℕ
unfolding count_lines
calculate_line_number sql offset =
    count_lines (if ltb (length sql) offset then length sql else offset) sql 1

-- The tokens from the one behind `CREATE [OR [REPLACE]]` on.
skip_replace : List Token → List Token
skip_replace [] = []
skip_replace (t ∷ ts) = if is_ident t (codes "REPLACE") then ts else t ∷ ts

skip_or : List Token → List Token
unfolding skip_replace
skip_or [] = []
skip_or (t ∷ ts) = if is_ident t (codes "OR") then skip_replace ts else t ∷ ts

created : List Token → StatementType
created [] = StatementType.stmt_other
created (t ∷ _) =
    if is_ident t (codes "FUNCTION")
    then StatementType.stmt_function
    else if is_ident t (codes "PROCEDURE")
    then StatementType.stmt_procedure
    else if is_ident t (codes "TRIGGER")
    then StatementType.stmt_trigger
    else if is_ident t (codes "VIEW")
    then StatementType.stmt_view
    else StatementType.stmt_other

unfoldable pub classify_tokens : List Token → StatementType
unfolding skip_or created
classify_tokens [] = StatementType.stmt_unknown
classify_tokens (t ∷ ts) =
    if is_ident t (codes "DO")
    then StatementType.stmt_do
    else if not (is_ident t (codes "CREATE"))
    then StatementType.stmt_other
    else created (skip_or ts)

-- `strings.Trim` of the quotes ' and " on the left, and on both sides.
abbrev is_quote : ℕ → Bool
is_quote c = c == b'\'' || c == b'"'

trim_left_quotes : Bytes → Bytes
trim_left_quotes [] = []
trim_left_quotes (c ∷ s) = if is_quote c then trim_left_quotes s else c ∷ s

trim_right_quotes : Bytes → Bytes
trim_right_quotes [] = []
trim_right_quotes (c ∷ s) = elim (trim_right_quotes s) as (λ _. Bytes) [
  | [] ↦ if is_quote c then [] else c ∷ []
  | ◌∷◌ d r ↦ c ∷ d ∷ r
]

unfoldable pub language_name : Token → Bytes
unfolding trim_left_quotes trim_right_quotes to_lower
language_name t = to_lower (trim_right_quotes (trim_left_quotes t.text))

-- `extractLanguage` and `extractDOLanguage`, whose loops are the same.
unfoldable pub extract_language : List Token → Bytes
unfolding language_name
extract_language [] = []
extract_language (t ∷ []) = []
extract_language (t ∷ u ∷ ts) =
    if is_ident t (codes "LANGUAGE") then language_name u else extract_language (u ∷ ts)

-- `inner` is what stands behind the opening delimiter `delim`.
strip_dollar : Bytes → Bytes → Bytes → Bytes
unfolding has_suffix
strip_dollar text delim inner =
    if has_suffix inner delim then take (length inner - length delim) inner else text

unquote_dollar : Bytes → Option ℕ → Bytes
unfolding strip_dollar
unquote_dollar text none = text
unquote_dollar text (some end_delim) =
    strip_dollar text (take (end_delim + 2) text) (drop (end_delim + 2) text)

abbrev is_escape_quote : Bytes → Bool
is_escape_quote text =
    (get_or text 0 0 == b'E' || get_or text 0 0 == b'e') && get_or text 1 0 == b'\''

unfoldable pub unquote_string : Bytes → Bytes
unfolding unquote_dollar has_prefix index_byte
unquote_string text =
    if has_prefix text (b'$' ∷ [])
    then unquote_dollar text (index_byte b'$' (drop 1 text))
    else if leb 3 (length text) && is_escape_quote text
    then slice text 2 (length text - 1)
    else if leb 2 (length text)
        && (get_or text 0 0 == b'\'' && get_or text (length text - 1) 0 == b'\'')
    then slice text 1 (length text - 1)
    else text

-- The length where the text is not dollar quoted.
plain_delimiter_len : Bytes → ℕ
plain_delimiter_len text =
    if leb 2 (length text) && is_escape_quote text
    then 2
    else if leb 1 (length text) && get_or text 0 0 == b'\''
    then 1
    else 0

unfoldable pub body_delimiter_len : Bytes → ℕ
unfolding plain_delimiter_len has_prefix index_byte
body_delimiter_len text =
    elim (if has_prefix text (b'$' ∷ []) then index_byte b'$' (drop 1 text) else none) as (λ _. ℕ) [
      | some end_delim ↦ end_delim + 2
      | none ↦ plain_delimiter_len text
    ]

-- The body that a string constant holds, with its offset in the statement.
abbrev pub body_of : Token → ℕ → Bytes × ℕ
body_of t stmt_start_pos =
    (unquote_string t.text, t.pos - stmt_start_pos + body_delimiter_len t.text)

module _ (lx : Lexer) where
  unfoldable pub extract_body : List Token → ℕ → Bytes × ℕ
  extract_body [] stmt_start_pos = ([], 0)
  extract_body (t ∷ []) stmt_start_pos = ([], 0)
  extract_body (t ∷ u ∷ ts) stmt_start_pos =
      if is_ident t (codes "AS") && u.ty == lx.s_const
      then body_of u stmt_start_pos
      else extract_body (u ∷ ts) stmt_start_pos

  -- The next string constant.
  first_const : List Token → Option Token
  first_const [] = none
  first_const (t ∷ ts) = if t.ty == lx.s_const then some t else first_const ts

  unfoldable pub extract_do_body : List Token → ℕ → Bytes × ℕ
  unfolding first_const
  extract_do_body [] stmt_start_pos = ([], 0)
  extract_do_body (t ∷ ts) stmt_start_pos =
      let rest = extract_do_body ts stmt_start_pos in
      if is_ident t (codes "DO")
      then elim (first_const ts) as (λ _. Bytes × ℕ) [
        | some u ↦ body_of u stmt_start_pos
        | none ↦ rest
      ]
      else rest

  significant : List Token → List Token
  significant [] = []
  significant (t ∷ ts) = if t.ty == lx.comment then significant ts else t ∷ significant ts

  abbrev default_plpgsql : Bytes → Bytes
  default_plpgsql [] = codes "plpgsql"
  default_plpgsql (c ∷ s) = c ∷ s

  -- The language and the body, by the kind of the statement.
  with_body : Statement → List Token → StatementType → Statement
  unfolding extract_language extract_body extract_do_body
  with_body stmt toks StatementType.stmt_function =
      let (body, start) = extract_body toks stmt.start_pos in
      record stmt { language = extract_language toks; body = body; body_start = start }
  with_body stmt toks StatementType.stmt_procedure =
      let (body, start) = extract_body toks stmt.start_pos in
      record stmt { language = extract_language toks; body = body; body_start = start }
  with_body stmt toks StatementType.stmt_do =
      let (body, start) = extract_do_body toks stmt.start_pos in
      record stmt {
        language = default_plpgsql (extract_language toks);
        body = body;
        body_start = start;
      }
  with_body stmt toks _ = stmt

  abbrev last_of : Token → List Token → Token
  last_of t [] = t
  last_of t (u ∷ us) = last_of u us

  abbrev end_of : Token → ℕ
  end_of t = t.pos + length t.text

  -- The statement of one group of tokens, the first of which is `t`.
  unfoldable pub statement_of : Bytes → Token → List Token → Statement
  unfolding significant with_body classify_tokens calculate_line_number
  statement_of sql t ts =
      let stop = end_of (last_of t ts) in
      let toks = significant (t ∷ ts) in
      let ty = classify_tokens toks in
      with_body
        (record {
          raw_sql = slice sql t.pos stop;
          start_pos = t.pos;
          start_line = calculate_line_number sql t.pos;
          end_line = calculate_line_number sql stop;
          ty = ty;
          language = [];
          body = [];
          body_start = 0;
        })
        toks ty

  -- A group of comments only has no statement.
  group_statement : Bytes → List Token → List Token → List Statement
  unfolding statement_of
  group_statement sql [] _ = []
  group_statement sql (t ∷ ts) [] = []
  group_statement sql (t ∷ ts) (u ∷ us) = statement_of sql t ts ∷ []

  classify_groups : Bytes → List (List Token) → List Statement
  unfolding group_statement significant
  classify_groups sql [] = []
  classify_groups sql (toks ∷ groups) =
      group_statement sql toks (significant toks) ++ classify_groups sql groups

  unfoldable pub split_and_classify : Bytes → List Statement
  unfolding classify_groups
  split_and_classify sql = classify_groups sql (lx.split_statements sql)

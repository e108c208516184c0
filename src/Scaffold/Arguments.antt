-- ===== src/Scaffold/Arguments.antt =====
-- The argument lists of internal/cli/init.go: how they are cut out of the source, split at their
-- commas and reduced to types.
pub mod Split
use pgcov.Base.{
  ℕ, zero, suc, ◌+◌, ◌-◌, Bool, true, false, not, ◌&&◌, ◌||◌, Option, none, some, List, [], ◌∷◌,
  ◌++◌, ◌==◌, leb, ltb, if◌then◌else◌, Bytes, codes, bytes_eq, length, take, drop, slice,
}
use pgcov.Text.{join, index_byte}
use pgcov.Text.Fields.{trim_space, fields, to_upper, index_of, trim_prefix}
use pgcov.Lexer.{Token}

abbrev pub depth_after : ℕ → Bool → ℕ → ℕ
depth_after depth in_single ch =
    if in_single
    then depth
    else if ch == b'('
    then depth + 1
    else if ch == b')'
    then depth - 1
    else depth

abbrev pub quoted_after : Bool → ℕ → Bool
quoted_after in_single ch = if ch == b'\'' then not in_single else in_single

-- The test of the case that cuts.
abbrev pub cuts : ℕ → Bool → ℕ → Bool
cuts depth in_single ch = not in_single && (ch == b',' && depth == 0)

-- The state of the loop of `splitArgs`: the depth of the parentheses, whether it is in a string, and
-- the text since the last comma.
unfoldable pub split_from : ℕ → Bool → Bytes → Bytes → List Bytes
split_from depth in_single cur [] = cur ∷ []
split_from depth in_single cur (ch ∷ body) = elim (cuts depth in_single ch) [
  | true ↦ cur ∷ split_from depth in_single [] body
  | false ↦
      split_from (depth_after depth in_single ch) (quoted_after in_single ch) (cur ++ ch ∷ []) body
]

unfoldable pub split_args : Bytes → ℕ → ℕ → List Bytes
unfolding split_from
split_args sql start stop =
    if ltb stop start || ltb (length sql) stop
    then []
    else split_from 0 false [] (slice sql start stop)

-- The position of the parenthesis that closes the first one; `depth` are open.
closing_pos : ℕ → List Token → Option ℕ
closing_pos depth [] = none
closing_pos depth (t ∷ ts) =
    let inside = closing_pos (depth + 1) ts in
    let outside = closing_pos (depth - 1) ts in
    let onward = closing_pos depth ts in
    if t.ty == b'('
    then inside
    else if t.ty == b')'
    then (if depth == 1 then some t.pos else outside)
    else onward

abbrev last_end : Token → List Token → ℕ
last_end t [] = t.pos + length t.text
last_end t (u ∷ us) = last_end u us

-- `toks` are the tokens from the opening parenthesis on.
unfoldable pub collect_balanced_args : Bytes → List Token → List Bytes
unfolding closing_pos split_args
collect_balanced_args sql [] = []
collect_balanced_args sql (t ∷ []) = []
collect_balanced_args sql (t ∷ u ∷ ts) = elim (closing_pos 0 (t ∷ u ∷ ts)) as (λ _. List Bytes) [
  | some stop ↦ split_args sql u.pos stop
  | none ↦ split_args sql u.pos (last_end u ts)
]

unfoldable pub is_identifier : Bytes → Bool
is_identifier [] = false
is_identifier (c ∷ s) =
    let this =
      (leb b'a' c && leb c b'z')
      || ((leb b'A' c && leb c b'Z') || ((leb b'0' c && leb c b'9') || c == b'_')) in
    elim s as (λ _. Bool) [ [] ↦ this | ◌∷◌ d r ↦ this && is_identifier s ]

-- `arg[:cut]`, where something is found.
abbrev cut_at : Option ℕ → Bytes → Bytes
cut_at none arg = arg
cut_at (some cut) arg = take cut arg

abbrev is_mode : Bytes → Bool
is_mode word =
    bytes_eq word (codes "IN")
    || (bytes_eq word (codes "OUT")
        || (bytes_eq word (codes "INOUT") || bytes_eq word (codes "VARIADIC")))

-- The type behind a mode or a name; `arg` has no default and no white space at its ends.
type_of : Bytes → List Bytes → Bytes
unfolding is_identifier trim_space trim_prefix to_upper bytes_eq
type_of arg (first ∷ second ∷ more) =
    if is_mode (to_upper first)
    then trim_space (trim_prefix arg first)
    else if is_identifier first
    then trim_space (drop (length first) arg)
    else arg
type_of arg _ = arg

unfoldable pub first_arg_type : Bytes → Bytes
unfolding type_of index_of index_byte fields
first_arg_type arg =
    let before_default = cut_at (index_of (to_upper arg) (codes "DEFAULT")) arg in
    let before_equals = cut_at (index_byte b'=' before_default) before_default in
    let trimmed = trim_space before_equals in type_of trimmed (fields trimmed)

-- The types of the arguments that have one.
arg_types : List Bytes → List Bytes
unfolding first_arg_type
arg_types [] = []
arg_types (raw ∷ args) =
    let t = first_arg_type (trim_space raw) in
    if bytes_eq t [] then arg_types args else t ∷ arg_types args

unfoldable pub format_arg_list : List Bytes → Bytes
unfolding arg_types join
format_arg_list args = join (codes ", ") (arg_types args)

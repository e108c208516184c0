-- ===== src/Key.antt =====
-- The position keys "startPos:length" of internal/coverage/model.go.
pub mod RoundTrip
use pgcov.Base.{
  ℕ, Bool, Option, none, some, [], ◌∷◌, ◌++◌, ◌==◌, if◌then◌else◌, Bytes, Result, ok, err, ◌>>=◌,
}
use pgcov.Decimal.{print_int, atoi, is_negative}

-- The errors of `ParsePositionKey`, in the order of its checks.
pub data KeyError : Type 0 where
  no_colon bad_start bad_length negative_start negative_length : KeyError

-- `strings.Cut` at one byte: the text before the first one and the text after it.
unfoldable pub cut : ℕ → Bytes → Option (Bytes × Bytes)
cut sep [] = none
cut sep (c ∷ s) =
    if c == sep then some ([], s) else elim (cut sep s) as (λ _. Option (Bytes × Bytes)) [
      | none ↦ none
      | some (before, after) ↦ some (c ∷ before, after)
    ]

unfoldable pub format_position_key : ℕ → ℕ → Bytes
format_position_key start_pos len = print_int start_pos ++ (b':' ∷ print_int len)

-- `strconv.Atoi` with the caller's error.
abbrev pub atoi_or : KeyError → Bytes → Result KeyError ℕ
atoi_or e s = elim (atoi s) as (λ _. Result KeyError ℕ) [ none ↦ err e | some n ↦ ok n ]

check_key : ℕ → ℕ → Result KeyError (ℕ × ℕ)
check_key start_pos len =
    if is_negative start_pos
    then err KeyError.negative_start
    else if is_negative len
    then err KeyError.negative_length
    else ok (start_pos, len)

parse_halves : Option (Bytes × Bytes) → Result KeyError (ℕ × ℕ)
unfolding check_key
parse_halves none = err KeyError.no_colon
parse_halves (some (start_str, len_str)) = do
  start_pos ← atoi_or KeyError.bad_start start_str
  len ← atoi_or KeyError.bad_length len_str
  check_key start_pos len

unfoldable pub parse_position_key : Bytes → Result KeyError (ℕ × ℕ)
unfolding parse_halves
parse_position_key pos_key = parse_halves (cut b':' pos_key)

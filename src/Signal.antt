-- ===== src/Signal.antt =====
-- The signal IDs "file:startPos:length" of internal/instrument/location.go.
pub mod RoundTrip
use pgcov.Base.{
  ℕ, zero, suc, ◌+◌, Bool, true, false, Option, none, some, List, [], ◌∷◌, ◌++◌, ◌==◌, leb,
  if◌then◌else◌, Bytes, length, get_or, slice, Result, ok, err, ◌>>=◌,
}
use pgcov.Decimal.{print_int, atoi, is_negative}

-- The errors of `ParseSignalID`, in the order of its checks.
pub data SignalError : Type 0 where
  too_few_colons bad_start bad_length negative_start negative_length : SignalError

unfoldable pub format_signal_id : Bytes → ℕ → ℕ → Bytes
format_signal_id file start_pos len =
    file ++ (b':' ∷ (print_int start_pos ++ (b':' ∷ print_int len)))

-- The loop that goes back from the end: `i` bytes are left, `colons` are the positions found so far.
unfoldable pub find_colons : Bytes → ℕ → List ℕ → List ℕ
find_colons s zero colons = colons
find_colons s (suc i) colons = elim (get_or s i 0 == b':') [
  | true ↦ elim (leb 2 (length (colons ++ i ∷ []))) [
    | true ↦ colons ++ i ∷ []
    | false ↦ find_colons s i (colons ++ i ∷ [])
  ]
  | false ↦ find_colons s i colons
]

-- `parseNumber`, with the error of its caller.
abbrev pub parse_number : SignalError → Bytes → Result SignalError ℕ
parse_number e s = elim (atoi s) as (λ _. Result SignalError ℕ) [ none ↦ err e | some n ↦ ok n ]

check_signal : Bytes → ℕ → ℕ → Result SignalError (Bytes × ℕ × ℕ)
check_signal file start_pos len =
    if is_negative start_pos
    then err SignalError.negative_start
    else if is_negative len
    then err SignalError.negative_length
    else ok (file, start_pos, len)

-- The three parts around the colons at `second_last` and `last`.
parse_parts : Bytes → ℕ → ℕ → Result SignalError (Bytes × ℕ × ℕ)
unfolding check_signal
parse_parts s second_last last = do
  start_pos ← parse_number SignalError.bad_start (slice s (second_last + 1) last)
  len ← parse_number SignalError.bad_length (slice s (last + 1) (length s))
  check_signal (slice s 0 second_last) start_pos len

-- `colons[0]` is the last colon, `colons[1]` the one before it.
parse_at : Bytes → List ℕ → Result SignalError (Bytes × ℕ × ℕ)
unfolding parse_parts
parse_at s (last ∷ second_last ∷ _) = parse_parts s second_last last
parse_at s (last ∷ []) = err SignalError.too_few_colons
parse_at s [] = err SignalError.too_few_colons

unfoldable pub parse_signal_id : Bytes → Result SignalError (Bytes × ℕ × ℕ)
unfolding find_colons parse_at
parse_signal_id s = parse_at s (find_colons s (length s) [])

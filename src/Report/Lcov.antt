-- ===== src/Report/Lcov.antt =====
-- The LCOV reporter of internal/report/lcov.go. The files on disk are a parameter.
pub mod Lines
use pgcov.Base.{
  ℕ, zero, suc, ◌+◌, ◌%◌, Bool, true, false, Option, none, some, List, [], ◌∷◌, ◌++◌, ◌==◌, ltb,
  leb, if◌then◌else◌, Bytes, codes, length, bytes_eq, Result, ok, err,
}
use pgcov.Decimal.{print_int, is_positive, modulus}
use pgcov.Key.{KeyError, parse_position_key}
use pgcov.Coverage.{Coverage, entries, index_file, add_int}

-- The loop of `positionToLine` over the first `pos` bytes.
line_loop : ℕ → Bytes → ℕ → ℕ
line_loop zero s line = line
line_loop (suc pos) [] line = line
line_loop (suc pos) (c ∷ s) line = line_loop pos s (if c == b'\n' then line + 1 else line)

-- 0 where the position is behind the end.
unfoldable pub position_to_line : Bytes → ℕ → ℕ
unfolding line_loop
position_to_line source_text pos =
    if ltb (length source_text) pos then 0 else line_loop pos source_text 1

-- `lineHits[line] += hitCount`, with the lines kept in the order of the report.
unfoldable pub add_line : ℕ → ℕ → List (ℕ × ℕ) → List (ℕ × ℕ)
add_line line hits [] = (line, add_int 0 hits) ∷ []
add_line line hits ((l, n) ∷ m) =
    if line == l
    then (l, add_int n hits) ∷ m
    else if ltb line l
    then (line, add_int 0 hits) ∷ (l, n) ∷ m
    else (l, n) ∷ add_line line hits m

abbrev pub line_of : Bytes → Result KeyError (ℕ × ℕ) → ℕ
line_of source_text (ok (start_pos, _)) = position_to_line source_text start_pos
line_of source_text (err _) = 0

-- One entry: a key that does not parse, or a position behind the end, adds nothing.
add_entry : Bytes → Result KeyError (ℕ × ℕ) → ℕ → List (ℕ × ℕ) → List (ℕ × ℕ)
unfolding add_line
add_entry source_text key hits m =
    if ltb 0 (line_of source_text key) then add_line (line_of source_text key) hits m else m

convert_onto : Bytes → List (Bytes × ℕ) → List (ℕ × ℕ) → List (ℕ × ℕ)
unfolding add_entry
convert_onto source_text [] m = m
convert_onto source_text ((pos_key, hits) ∷ pos_hits) m =
    convert_onto source_text pos_hits (add_entry source_text (parse_position_key pos_key) hits m)

unfoldable pub convert_positions_to_lines : Bytes → List (Bytes × ℕ) → List (ℕ × ℕ)
unfolding convert_onto position_to_line parse_position_key
convert_positions_to_lines source_text pos_hits = convert_onto source_text pos_hits []

-- `DA:<line>,<hits>` for each line.
unfoldable pub data_lines : List (ℕ × ℕ) → Bytes
unfolding print_int
data_lines [] = []
data_lines ((line, hits) ∷ m) =
    codes "DA:"
    ++ (print_int line ++ (codes "," ++ (print_int hits ++ (codes "\n" ++ data_lines m))))

abbrev pub lines_hit : List (ℕ × ℕ) → ℕ
lines_hit [] = 0
lines_hit ((line, hits) ∷ m) = (if is_positive hits then 1 else 0) + lines_hit m

-- The end of a record: how many lines there are, and how many were hit.
unfoldable pub totals : List (ℕ × ℕ) → Bytes
unfolding print_int
totals m =
    codes "LF:"
    ++ (print_int (length m)
        ++ (codes "\nLH:" ++ (print_int (lines_hit m) ++ codes "\nend_of_record\n")))

-- The entries of `formatPositionsAsLines`, sorted by their position.
insert_entry : ℕ → ℕ → List (ℕ × ℕ) → List (ℕ × ℕ)
insert_entry pos hits [] = (pos, hits) ∷ []
insert_entry pos hits ((p, n) ∷ m) =
    if leb pos p then (pos, hits) ∷ (p, n) ∷ m else (p, n) ∷ insert_entry pos hits m

abbrev keep_entry : Result KeyError (ℕ × ℕ) → ℕ → List (ℕ × ℕ) → List (ℕ × ℕ)
keep_entry (ok (start_pos, _)) hits m = insert_entry start_pos hits m
keep_entry (err _) hits m = m

unfoldable pub position_entries : List (Bytes × ℕ) → List (ℕ × ℕ)
unfolding insert_entry parse_position_key
position_entries [] = []
position_entries ((pos_key, hits) ∷ m) =
    keep_entry (parse_position_key pos_key) hits (position_entries m)

-- `readSourceFile` gives the text of a path, or nothing.
module _ (read_source_file : Bytes → Option Bytes) where
  -- `formatFileFromPositions`; without a source the positions stand in for line numbers.
  unfoldable pub format_file_from_positions : Bytes → List (Bytes × ℕ) → Bytes
  unfolding data_lines totals convert_positions_to_lines position_entries
  format_file_from_positions path pos_hits =
      let m = elim (read_source_file path) as (λ _. List (ℕ × ℕ)) [
        | some text ↦ convert_positions_to_lines text pos_hits
        | none ↦ position_entries pos_hits
      ] in
      codes "SF:" ++ (path ++ (codes "\n" ++ (data_lines m ++ totals m)))

  abbrev format_hits : Bytes → List (Bytes × ℕ) → Bytes
  format_hits path [] = []
  format_hits path (e ∷ es) = format_file_from_positions path (e ∷ es)

  -- `Format`, over the files that `GetFiles` lists; a file with no executable position is skipped.
  unfoldable pub format : Coverage → List Bytes → Bytes
  unfolding format_file_from_positions index_file
  format cov [] = []
  format cov (file ∷ files) =
      format_hits file (entries (index_file file cov.positions)) ++ format cov files

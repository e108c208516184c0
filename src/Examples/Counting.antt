-- ===== src/Examples/Counting.antt =====
-- Coverage data, keys, signals, the collector and the reports at concrete inputs.
use pgcov.Base.{
  ℕ, ◌+◌, ◌%◌, ◌<◌, true, false, none, some, List, [], ◌∷◌, ◌++◌, Bytes, codes, bytes_eq,
  bytes_eq_iff, sym, ◌∙◌, ◌≡◌, ◌≢◌, refl, map, arith, All, ok, err,
}
use pgcov.Decimal.{half, modulus, atoi}
use pgcov.Dict.{Uniq}
use pgcov.Key.{KeyError, format_position_key, parse_position_key}
use pgcov.Signal.{SignalError, format_signal_id, parse_signal_id}
use pgcov.Signal.RoundTrip.{parse_signal_id-format}
use pgcov.Coverage.{
  Coverage, FileHits, VersionError, IsWf, hits, find_hits, merge, validate_version,
}
use pgcov.Coverage.Inputs.{IsMergeOf, merge_sums}
use pgcov.Point.{CoveragePoint}
use pgcov.Collector.{collect_from_run, initialize_from_instrumented}
use pgcov.Collector.Count.{
  Place, InRange, signal_of, key_of, occurrences, position_count, collect_counts,
}
use pgcov.Collector.Seed.{seeded, some_in, initialize_lem}
use pgcov.Collector.Invariant.{collect_rejects}
use pgcov.Report.Html.{PositionRange, resolve_overlapping_ranges}
use pgcov.Report.Html.Resolve.{hit_at, hit_at-resolve}
use pgcov.Report.Html.Render.{
  Pieces, render_source_with_positions, plain_text, render-resolve_overlapping_ranges,
}
use pgcov.Report.Lcov.{convert_positions_to_lines}
use pgcov.Report.Lcov.Lines.{line_hits, keyed, sum_on_line, convert_positions_to_lines_lem}

key_accepted : parse_position_key (codes "+7:3") ≡ ok (7, 3)
unfolding parse_position_key pgcov.Key.cut atoi
key_accepted = refl

parse_signal_id-format_example :
    parse_signal_id (format_signal_id (codes "a:1:2.sql") 15 3) ≡ ok (codes "a:1:2.sql", 15, 3)
parse_signal_id-format_example =
    parse_signal_id-format (codes "a:1:2.sql") 15 3 (omega arith) (omega arith)

-- Two positions of one file.
abbrev two_hits : FileHits
two_hits = (codes "f", some ((codes "15:1", 2) ∷ (codes "20:4", 0) ∷ [])) ∷ []

abbrev small_coverage : Coverage
small_coverage = record {
  version = codes "2.0";
  timestamp = 9;
  positions = two_hits;
  implicit_positions = [];
  root = codes "/r";
}

abbrev old_coverage : Coverage
old_coverage = record small_coverage { version = codes "1.0" }

apart : (a b : Bytes) → bytes_eq a b ≡ false → a ≢ b
apart a b e h = let k : true ≡ false = sym ((bytes_eq_iff a b).1 h) ∙ e in cc

other_key : bytes_eq (codes "20:4") (codes "15:1") ≡ false
unfolding bytes_eq
other_key = refl

two_hits-Uniq : Uniq {V = ℕ} ((codes "15:1", 2) ∷ (codes "20:4", 0) ∷ [])
two_hits-Uniq = ((apart (codes "20:4") (codes "15:1") other_key, tt), (tt, tt))

empty-IsWf : IsWf []
empty-IsWf = record { files = tt; inner = tt }

small_coverage-IsValid : validate_version (some small_coverage) ≡ ok tt
unfolding validate_version
small_coverage-IsValid = refl

old_coverage_refused :
    validate_version (some old_coverage) ≡ err (VersionError.unsupported (codes "1.0"))
unfolding validate_version
old_coverage_refused = refl

two_hits_15 : hits two_hits (codes "f") (codes "15:1") ≡ 2
unfolding find_hits bytes_eq
two_hits_15 = refl

small_lt : {n : ℕ} → n ≡ 2 → n < modulus
small_lt h = omega (arith, h)

two_hits-IsWf : IsWf two_hits
two_hits-IsWf = record { files = (tt, tt); inner = (two_hits-Uniq, tt) }

merge_sums_example :
    (r : Coverage) × (merge 5 (some small_coverage ∷ none ∷ some small_coverage ∷ []) ≡ ok r)
    × IsMergeOf 5 (some small_coverage ∷ none ∷ some small_coverage ∷ []) r
merge_sums_example =
    merge_sums 5 (some small_coverage ∷ none ∷ some small_coverage ∷ [])
      (small_coverage-IsValid, (small_coverage-IsValid, tt))
      ((two_hits-IsWf, empty-IsWf), ((two_hits-IsWf, empty-IsWf), tt))

abbrev first_place : Place
first_place = record { file = codes "f"; start_pos = 15; len = 1 }

abbrev second_place : Place
second_place = record { file = codes "f"; start_pos = 20; len = 4 }

abbrev three_signals : List Place
three_signals = first_place ∷ second_place ∷ first_place ∷ []

first_place_count : position_count small_coverage (codes "f") (key_of first_place) ≡ 2
unfolding position_count find_hits bytes_eq format_position_key pgcov.Decimal.print_int
first_place_count = refl

three_signals-InRange : All InRange three_signals
three_signals-InRange =
    ((omega arith, omega arith), ((omega arith, omega arith), ((omega arith, omega arith), tt)))

collect_counts_example :
    ((collect_from_run small_coverage (map signal_of three_signals)).1 ≡ none)
    × (position_count
          (collect_from_run small_coverage (map signal_of three_signals)).0
          (codes "f")
          (key_of first_place)
        ≡ (position_count small_coverage (codes "f") (key_of first_place)
            + occurrences first_place three_signals)
          % modulus)
collect_counts_example =
    collect_counts three_signals small_coverage first_place three_signals-InRange
      (omega arith, omega arith) (small_lt first_place_count)

bad_signal : parse_signal_id (codes "f:x:1") ≡ err SignalError.bad_start
unfolding parse_signal_id pgcov.Signal.find_colons atoi
bad_signal = refl

collect_rejects_example :
    collect_from_run small_coverage (map signal_of (first_place ∷ []) ++ (codes "f:x:1" ∷ [])) ≡ (
      (collect_from_run small_coverage (map signal_of (first_place ∷ []))).0,
      some (codes "f:x:1", SignalError.bad_start),
    )
collect_rejects_example =
    collect_rejects (first_place ∷ []) small_coverage (codes "f:x:1") []
      ((omega arith, omega arith), tt) bad_signal

abbrev two_points : List CoveragePoint
two_points =
    record {
      file = codes "f";
      start_pos = 15;
      len = 1;
      signal_id = codes "f:15:1";
      implicit_coverage = false;
    }
    ∷ record {
      file = codes "g";
      start_pos = 0;
      len = 9;
      signal_id = codes "g:0:9";
      implicit_coverage = true;
    }
    ∷ []

initialize_lem_example :
    find_hits
      (initialize_from_instrumented small_coverage (two_points ∷ [])).implicit_positions
      (codes "g")
      (codes "0:9")
    ≡ seeded
        (find_hits [] (codes "g") (codes "0:9"))
        (some_in true (codes "g") (codes "0:9") (two_points ∷ []))
initialize_lem_example =
    initialize_lem (two_points ∷ []) true small_coverage (codes "g") (codes "0:9")

abbrev nested_ranges : List PositionRange
nested_ranges =
    record { start_pos = 0; len = 9; hit_count = 1 }
    ∷ record { start_pos = 2; len = 3; hit_count = 0 }
    ∷ record { start_pos = 5; len = 8; hit_count = 4 }
    ∷ []

hit_at-resolve_example :
    hit_at 10 (resolve_overlapping_ranges nested_ranges) ≡ hit_at 10 nested_ranges
hit_at-resolve_example =
    hit_at-resolve 10 nested_ranges
      ((omega arith, (omega arith, tt)), ((omega arith, tt), (tt, tt)))
      (omega arith, (omega arith, (omega arith, tt)))

convert_positions_to_lines_lem_example :
    line_hits 2
      (convert_positions_to_lines (codes "a\nb\n") (keyed ((2, 1, 3) ∷ (3, 1, 4) ∷ (4, 1, 5) ∷ [])))
    ≡ sum_on_line (codes "a\nb\n") 2 ((2, 1, 3) ∷ (3, 1, 4) ∷ (4, 1, 5) ∷ []) % modulus
convert_positions_to_lines_lem_example =
    convert_positions_to_lines_lem (codes "a\nb\n") 2 ((2, 1, 3) ∷ (3, 1, 4) ∷ (4, 1, 5) ∷ [])
      (omega arith)
      ((omega arith, omega arith), ((omega arith, omega arith), ((omega arith, omega arith), tt)))

render-resolve_overlapping_ranges_example :
    (pieces : Pieces) × render_source_with_positions
        (codes "SELECT 1;\n")
        (resolve_overlapping_ranges nested_ranges)
      ≡ some pieces
    × plain_text pieces ≡ codes "SELECT 1;\n"
render-resolve_overlapping_ranges_example =
    render-resolve_overlapping_ranges (codes "SELECT 1;\n") nested_ranges
      (omega arith, (omega arith, (omega arith, tt)))

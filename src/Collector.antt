-- ===== src/Collector.antt =====
-- The collector of internal/coverage/collector.go. Its state is the coverage data; the mutex makes
-- each method one step. A method that fails part of the way leaves the data as it is by then, so a
-- step returns the data together with the error.
pub mod Preserve
pub mod Count
pub mod Seed
pub mod Invariant
pub mod Queries
use pgcov.Base.{
  ℕ, Bool, true, false, Option, none, some, List, [], ◌∷◌, if◌then◌else◌, Bytes, Result, ok, err,
}
use pgcov.Key.{format_position_key}
use pgcov.Signal.{SignalError, parse_signal_id}
use pgcov.Coverage.{Coverage, find_hits, hits, add_position, add_implicit_position, add_int}
use pgcov.Point.{CoveragePoint}

-- The counter of a parsed position; `existing` is its implicit count.
unfoldable pub bump : Coverage → Bytes → ℕ → ℕ → Option ℕ → Coverage
bump c file start_pos len (some n) = add_implicit_position c file start_pos len (add_int n 1)
bump c file start_pos len none =
    add_position c file start_pos len
      (add_int (hits c.positions file (format_position_key start_pos len)) 1)

count_parsed : Coverage → Result SignalError (Bytes × ℕ × ℕ) → Coverage × Option SignalError
count_parsed c (err e) = (c, some e)
count_parsed c (ok (file, start_pos, len)) = (
  bump c file start_pos len
      (find_hits c.implicit_positions file (format_position_key start_pos len)),
  none,
)

unfoldable pub add_signal_unsafe : Coverage → Bytes → Coverage × Option SignalError
unfolding count_parsed
add_signal_unsafe c signal_id = count_parsed c (parse_signal_id signal_id)

-- The error of the first signal that is refused, with the signal, ends the loop.
abbrev pub or_fail :
    Bytes
    → Coverage × Option SignalError
    → (Coverage → Coverage × Option (Bytes × SignalError))
    → Coverage × Option (Bytes × SignalError)
or_fail signal (c, some e) next = (c, some (signal, e))
or_fail signal (c, none) next = next c

-- `CollectFromRun`, over the run's signals.
unfoldable pub collect_from_run : Coverage → List Bytes → Coverage × Option (Bytes × SignalError)
collect_from_run c [] = (c, none)
collect_from_run c (signal ∷ signals) =
    or_fail signal (add_signal_unsafe c signal) (λ c'. collect_from_run c' signals)

abbrev pub or_stop :
    Coverage × Option (Bytes × SignalError)
    → (Coverage → Coverage × Option (Bytes × SignalError))
    → Coverage × Option (Bytes × SignalError)
or_stop (c, some e) next = (c, some e)
or_stop (c, none) next = next c

-- `CollectFromRuns`, over the signals of each run.
unfoldable pub collect_from_runs :
    Coverage → List (List Bytes) → Coverage × Option (Bytes × SignalError)
collect_from_runs c [] = (c, none)
collect_from_runs c (run ∷ runs) =
    or_stop (collect_from_run c run) (λ c'. collect_from_runs c' runs)

seed_implicit : Coverage → CoveragePoint → Option ℕ → Coverage
seed_implicit c p (some n) = c
seed_implicit c p none = add_implicit_position c p.file p.start_pos p.len 0

seed_executable : Coverage → CoveragePoint → Option ℕ → Coverage
seed_executable c p (some n) = c
seed_executable c p none = add_position c p.file p.start_pos p.len 0

-- One location: a position that is already there keeps its count.
unfoldable pub seed : Coverage → CoveragePoint → Coverage
unfolding seed_implicit seed_executable
seed c p =
    let pos_key = format_position_key p.start_pos p.len in
    if p.implicit_coverage
    then seed_implicit c p (find_hits c.implicit_positions p.file pos_key)
    else seed_executable c p (find_hits c.positions p.file pos_key)

-- The locations of one instrumented file.
unfoldable pub seed_all : Coverage → List CoveragePoint → Coverage
seed_all c [] = c
seed_all c (p ∷ ps) = seed_all (seed c p) ps

-- `InitializeFromInstrumented`, over the locations of each file.
unfoldable pub initialize_from_instrumented : Coverage → List (List CoveragePoint) → Coverage
initialize_from_instrumented c [] = c
initialize_from_instrumented c (locations ∷ instrumented) =
    initialize_from_instrumented (seed_all c locations) instrumented

-- ===== src/Collector/Invariant.antt =====
-- Several runs, refused signals, and the well-formedness of the collected data.
use pgcov.Base.{
  ℕ, ◌+◌, ◌%◌, ◌<◌, none, some, List, [], ◌∷◌, ◌++◌, Bytes, ◌≡◌, refl, ap, arith, All, err, map,
}
use pgcov.Decimal.{modulus}
use pgcov.Key.{format_position_key}
use pgcov.Signal.{SignalError, parse_signal_id}
use pgcov.Coverage.{
  Coverage, FileHits, IsWf, add_position, add_implicit_position, ensure_file, set_hits,
}
use pgcov.Coverage.Positions.{set_hits-IsWf, ensure_file-IsWf}
use pgcov.Collector.{or_fail, count_parsed, add_signal_unsafe, collect_from_run, collect_from_runs}
use pgcov.Collector.Preserve.{ClosedUnderWrites}
use pgcov.Collector.Count.{
  Place, InRange, signal_of, key_of, occurrences, position_count, collect_counts, collect_step,
}

abbrev pub AllInRange : List (List Place) → Type 0
AllInRange [] = Unit
AllInRange (ps ∷ rest) = All InRange ps × AllInRange rest

abbrev pub occurrences_in : Place → List (List Place) → ℕ
occurrences_in q [] = 0
occurrences_in q (ps ∷ rest) = occurrences q ps + occurrences_in q rest

abbrev pub signals_of : List (List Place) → List (List Bytes)
signals_of [] = []
signals_of (ps ∷ rest) = map signal_of ps ∷ signals_of rest

runs_step :
    (c : Coverage) (signals : List Bytes) (runs : List (List Bytes))
    → (collect_from_run c signals).1 ≡ none
    → collect_from_runs c (signals ∷ runs) ≡ collect_from_runs (collect_from_run c signals).0 runs
unfolding collect_from_runs
runs_step c signals runs e = ground arith

runs_nil : (c : Coverage) → collect_from_runs c [] ≡ (c, none)
unfolding collect_from_runs
runs_nil c = refl

-- Over several runs whose signals are for places in range there is no error, and each place's count
-- grows by the number of its signals in all runs, as an `int` does.
collect_runs_counts :
    (runs : List (List Place)) (c : Coverage) (q : Place)
    → AllInRange runs
    → InRange q
    → position_count c q.file (key_of q) < modulus
    → ((collect_from_runs c (signals_of runs)).1 ≡ none)
      × (position_count (collect_from_runs c (signals_of runs)).0 q.file (key_of q)
          ≡ (position_count c q.file (key_of q) + occurrences_in q runs) % modulus)
collect_runs_counts [] c q hs hq b = rw (runs_nil c) (refl, omega arith)
collect_runs_counts (ps ∷ runs) c q hs hq b =
    let (accepted, counted) = collect_counts ps c q hs.0 hq b in
    let (rest, total) =
      collect_runs_counts runs (collect_from_run c (map signal_of ps)).0 q hs.1 hq
        (omega (arith, counted)) in
    rw (runs_step c (map signal_of ps) (signals_of runs) accepted)
      (rest, omega (arith, counted, total))

run_rejects_here :
    (c : Coverage) (bad : Bytes) (rest : List Bytes) {e : SignalError}
    → parse_signal_id bad ≡ err e
    → collect_from_run c (bad ∷ rest) ≡ (c, some (bad, e))
unfolding collect_from_run add_signal_unsafe count_parsed
run_rejects_here c bad rest h =
    ap (λ r. or_fail bad (count_parsed c r) (λ d. collect_from_run d rest)) h

run_empty : (c : Coverage) → collect_from_run c [] ≡ (c, none)
unfolding collect_from_run
run_empty c = refl

-- A signal that does not parse ends the run's collection: the error names it, the signals before it
-- are counted, and those behind it are not.
pub collect_rejects :
    (ps : List Place) (c : Coverage) (bad : Bytes) (rest : List Bytes) {e : SignalError}
    → All InRange ps
    → parse_signal_id bad ≡ err e
    → collect_from_run c (map signal_of ps ++ (bad ∷ rest))
      ≡ ((collect_from_run c (map signal_of ps)).0, some (bad, e))
collect_rejects [] c bad rest hs h = rw (run_empty c) (run_rejects_here c bad rest h)
collect_rejects (p ∷ ps) c bad rest hs h =
    rw
      (
        collect_step c p (map signal_of ps ++ (bad ∷ rest)) hs.0,
        collect_step c p (map signal_of ps) hs.0,
      )
      (collect_rejects ps (add_signal_unsafe c (signal_of p)).0 bad rest hs.1 h)

-- Both maps are as Go maps are.
pub record IsSound (c : Coverage) : Type 0 where
  pub executable : IsWf c.positions
  pub implicit : IsWf c.implicit_positions

write-IsWf : (m : FileHits) (f k : Bytes) (n : ℕ) → IsWf m → IsWf (set_hits (ensure_file f m) f k n)
write-IsWf m f k n w = set_hits-IsWf (ensure_file f m) f k n (ensure_file-IsWf f m w)

add_position-IsSound :
    (c : Coverage) (f : Bytes) (s l n : ℕ) → IsSound c → IsSound (add_position c f s l n)
unfolding add_position
add_position-IsSound c f s l n w = record {
  executable = write-IsWf c.positions f (format_position_key s l) n w.executable;
  implicit = w.implicit;
}

add_implicit-IsSound :
    (c : Coverage) (f : Bytes) (s l n : ℕ) → IsSound c → IsSound (add_implicit_position c f s l n)
unfolding add_implicit_position
add_implicit-IsSound c f s l n w = record {
  executable = w.executable;
  implicit = write-IsWf c.implicit_positions f (format_position_key s l) n w.implicit;
}

pub writes-IsSound : ClosedUnderWrites IsSound
writes-IsSound = record { executable = add_position-IsSound; implicit = add_implicit-IsSound }

-- ===== src/Collector/Queries.antt =====
-- The other methods of internal/coverage/collector.go, each one step under the mutex: a single signal,
-- a reset, and copies of the data.
use pgcov.Base.{ℕ, Option, none, some, List, [], Bytes}
use pgcov.Dict.{copy}
use pgcov.Signal.{SignalError}
use pgcov.Coverage.{Coverage, PositionHits, index_file, new_coverage, clone}
use pgcov.Coverage.Files.{get_files}
use pgcov.Collector.{add_signal_unsafe}

abbrev add_signal : Coverage → Bytes → Coverage × Option SignalError
add_signal c signal_id = add_signal_unsafe c signal_id

-- `Coverage`, a deep copy of the data.
abbrev coverage : Coverage → Coverage
coverage c = clone c

abbrev reset : ℕ → Coverage
reset now = new_coverage now

abbrev copied : PositionHits → PositionHits
copied none = none
copied (some orig) = some (copy [] orig)

abbrev get_file_position_coverage : Coverage → Bytes → PositionHits
get_file_position_coverage c file_path = copied (index_file file_path c.positions)

abbrev get_file_list : Coverage → List Bytes
get_file_list c = get_files c

-- ===== src/Report/Json.antt =====
-- The JSON reporter of internal/report/json.go. Package encoding/json is a parameter: `marshal` and
-- `marshal_summary` are `MarshalIndent` of the coverage and of the summary.
use pgcov.Base.{ℕ, List, [], ◌∷◌, ◌++◌, Bytes, Result, ok, err, length, map}
use pgcov.Coverage.{
  Coverage, entries, index_file, count_file, executable_position_counts, implicit_position_counts,
}
use pgcov.Coverage.Files.{get_files}
use pgcov.Coverage.Percent.{Floats, position_coverage_percent, total_position_coverage_percent}

-- `Format`: the text that is written.
unfoldable pub format_json : (Coverage → Result Bytes Bytes) → Coverage → Result Bytes Bytes
format_json marshal cov = elim (marshal cov) as (λ _. Result Bytes Bytes) [
  | ok content ↦ ok (content ++ (b'\n' ∷ []))
  | err e ↦ err e
]

-- The entry of a file in the summary.
pub record FileSummary (F : Type 0) : Type 0 where
  pub path : Bytes
  pub positions_covered : ℕ
  pub positions_total : ℕ
  pub coverage_percent : F
  pub implicit_positions_total : ℕ

pub record Summary (F : Type 0) : Type 0 where
  pub version : Bytes
  pub timestamp : ℕ
  pub total_coverage_percent : F
  pub executable_positions_covered : ℕ
  pub executable_positions_total : ℕ
  pub implicit_positions_covered : ℕ
  pub implicit_positions_total : ℕ
  pub files : List (FileSummary F)

module _ {F : Type 0} (floats : Floats F) where
  unfoldable pub file_summary : Coverage → Bytes → FileSummary F
  unfolding position_coverage_percent index_file count_file
  file_summary cov file = record {
    path = file;
    positions_covered = (count_file (entries (index_file file cov.positions)) (0, 0)).0;
    positions_total = length (entries (index_file file cov.positions));
    coverage_percent = position_coverage_percent floats cov file;
    implicit_positions_total = length (entries (index_file file cov.implicit_positions));
  }

  -- What `FormatSummary` marshals.
  unfoldable pub summary_of : Coverage → Summary F
  unfolding file_summary get_files
  summary_of cov =
      let (exec_covered, exec_total) = executable_position_counts cov in
      let (implicit_covered, implicit_total) = implicit_position_counts cov in
      record {
        version = cov.version;
        timestamp = cov.timestamp;
        total_coverage_percent = total_position_coverage_percent floats cov;
        executable_positions_covered = exec_covered;
        executable_positions_total = exec_total;
        implicit_positions_covered = implicit_covered;
        implicit_positions_total = implicit_total;
        files = map (λ file. file_summary cov file) (get_files cov);
      }

  abbrev pub format_summary : (Summary F → Result Bytes Bytes) → Coverage → Result Bytes Bytes
  format_summary marshal_summary cov = marshal_summary (summary_of cov)

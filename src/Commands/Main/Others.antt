-- ===== src/Commands/Main/Others.antt =====
-- The other commands of cmd/pgcov/main.go, from their flags to the exit code of the process: an error
-- is printed and the process exits with 1.
use pgcov.Base.{
  ℕ, Bool, Option, none, some, List, [], Bytes, bytes_eq, if◌then◌else◌, Result, ok, err,
}
use pgcov.Lexer.{Lexer}
use pgcov.Coverage.Percent.{Floats}
use pgcov.Coverage.Store.{Storage}
use pgcov.Report.Sources.{Places}
use pgcov.Scaffold.Create.{Disk, InitError, init}
use pgcov.Commands.Combine.{combine}
use pgcov.Commands.Report.{Output, report}

abbrev pub exit_of {ℓ} : {E : Type ℓ} {W : Type 0} → Option E × W → ℕ × W
exit_of (none, w) = (0, w)
exit_of (some e, w) = (1, w)

-- The flags of `report`.
pub record ReportFlags : Type 0 where
  pub report_format : Bytes
  pub report_output : Bytes
  pub report_coverage_file : Bytes
  pub report_base_dir : Bytes

unfoldable pub report_command :
    {F W : Type 0}
    → Storage W
    → Output W
    → Places
    → Floats F
    → (F → Bytes)
    → ReportFlags
    → W
    → ℕ × W
unfolding report
report_command storage out places floats show flags w = exit_of (
    report storage out places floats show flags.report_coverage_file flags.report_format
      flags.report_output flags.report_base_dir w)

-- `inputs` are the arguments.
unfoldable pub merge_command :
    {W : Type 0} → Storage W → (Bytes → W → Option Bytes × W) → ℕ → List Bytes → Bytes → W → ℕ × W
unfolding combine
merge_command storage write_stdout now inputs output w =
    exit_of (combine storage write_stdout now inputs output w)

-- `init_usage` is the error of a call without a source.
pub data InitCommandError : Type 0 where
  init_usage : InitCommandError
  init_failed : InitError → InitCommandError

abbrev pub init_error : {W : Type 0} → Result InitError Bytes × W → Option InitCommandError × W
init_error (ok path, w) = (none, w)
init_error (err e, w) = (some (InitCommandError.init_failed e), w)

-- `source` is the first argument, empty where there is none.
unfoldable pub init_command : {W : Type 0} → Disk W → Lexer → Bytes → Bytes → Bool → W → ℕ × W
unfolding init bytes_eq
init_command disk lx source output force w = exit_of (
    if bytes_eq source []
    then (some InitCommandError.init_usage, w)
    else init_error (init disk lx source output force w))

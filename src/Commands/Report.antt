-- ===== src/Commands/Report.antt =====
-- `Report` of internal/cli/report.go: the coverage is loaded, formatted and written. The output is a
-- parameter; what a reporter writes in several calls is one write here.
pub mod Written
use pgcov.Base.{
  Bool, true, false, ◌||◌, not, Option, none, some, List, [], if◌then◌else◌, Bytes, codes, bytes_eq,
  Result, ok, err,
}
use pgcov.Coverage.{Coverage}
use pgcov.Coverage.Files.{resolve_base_dir, get_files}
use pgcov.Coverage.Percent.{Floats}
use pgcov.Coverage.Store.{Storage, StoreError, exists, load}
use pgcov.Report.Formats.{Formatter, valid_format, get_formatter}
use pgcov.Report.Json.{format_json}
use pgcov.Report.Lcov
use pgcov.Report.Sources.{Places, read_source_file}
use pgcov.Report.Html.Page.{format_page}

-- `create` is `os.Create`, and `write_to` a write to the file that it opened; `is_dir` is what
-- `os.Stat` says of a directory.
pub record Output (W : Type 0) : Type 0 where
  pub create : Bytes → W → Option Bytes × W
  pub write_to : Bytes → Bytes → W → Option Bytes × W
  pub write_stdout : Bytes → W → Option Bytes × W
  pub is_dir : Bytes → Bool

-- `panicked` is a run-time panic of the HTML reporter.
pub data ReportError : Type 0 where
  coverage_not_found unsupported_format cannot_create cannot_format : Bytes → ReportError
  cannot_load : StoreError → ReportError
  panicked : ReportError

abbrev pub readable : Result Bytes Bytes → Option Bytes
readable (ok text) = some text
readable (err e) = none

abbrev pub or_format_error : Result Bytes Bytes → Result ReportError Bytes
or_format_error (ok text) = ok text
or_format_error (err e) = err (ReportError.cannot_format e)

abbrev pub or_panicked : Option Bytes → Result ReportError Bytes
or_panicked (some text) = ok text
or_panicked none = err ReportError.panicked

module _ {F W : Type 0} (storage : Storage W) (out : Output W) (places : Places) (floats : Floats F)
    (show : F → Bytes) where
  -- The text that a reporter writes.
  unfoldable pub formatted : Formatter → Bytes → Coverage → Result ReportError Bytes
  unfolding format_json read_source_file Lcov.format format_page get_files
  formatted Formatter.json_reporter base_dir cov = or_format_error (format_json storage.marshal cov)
  formatted Formatter.lcov_reporter base_dir cov =
      ok
        (Lcov.format (λ path. readable (read_source_file places base_dir path)) cov (get_files cov))
  formatted Formatter.html_reporter base_dir cov =
      or_panicked (format_page floats show places base_dir cov)

  abbrev pub wrote : Option Bytes × W → Option ReportError × W
  wrote (some e, w) = (some (ReportError.cannot_format e), w)
  wrote (none, w) = (none, w)

  abbrev pub write_text :
      (Bytes → W → Option Bytes × W) → Result ReportError Bytes → W → Option ReportError × W
  write_text write (err e) w = (some e, w)
  write_text write (ok text) w = wrote (write text w)

  -- To a file, which is there and empty before the text is formatted.
  abbrev pub created : Bytes → Result ReportError Bytes → Option Bytes × W → Option ReportError × W
  created path text (some e, w) = (some (ReportError.cannot_create e), w)
  created path text (none, w) = write_text (out.write_to path) text w

  abbrev pub to_stdout : Bytes → Bool
  to_stdout output_path = bytes_eq output_path (codes "-") || bytes_eq output_path []

  abbrev pub deliver : Bytes → Result ReportError Bytes → W → Option ReportError × W
  deliver output_path text w =
      if to_stdout output_path
      then write_text out.write_stdout text w
      else created output_path text (out.create output_path w)

  abbrev pub base_of : Bytes → Coverage → Bytes
  base_of base_dir cov = resolve_base_dir out.is_dir cov base_dir

  abbrev pub with_formatter :
      Bytes → Bytes → Coverage → Result Bytes Formatter → W → Option ReportError × W
  with_formatter output_path base_dir cov (err e) w = (some (ReportError.unsupported_format e), w)
  with_formatter output_path base_dir cov (ok f) w =
      deliver output_path (formatted f (base_of base_dir cov) cov) w

  with_coverage : Bytes → Bytes → Bytes → Result StoreError Coverage → W → Option ReportError × W
  unfolding formatted valid_format get_formatter resolve_base_dir bytes_eq
  with_coverage format output_path base_dir (err e) w = (some (ReportError.cannot_load e), w)
  with_coverage format output_path base_dir (ok cov) w =
      if not (valid_format format)
      then (some (ReportError.unsupported_format format), w)
      else with_formatter output_path base_dir cov (get_formatter format) w

  unfoldable pub report : Bytes → Bytes → Bytes → Bytes → W → Option ReportError × W
  unfolding with_coverage exists load
  report coverage_file format output_path base_dir w =
      if not (exists storage coverage_file w)
      then (some (ReportError.coverage_not_found coverage_file), w)
      else with_coverage format output_path base_dir (load storage coverage_file w) w

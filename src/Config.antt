-- ===== src/Config.antt =====
-- The configuration of a run: `Config` and `Validate` of pkg/types/types.go, and the flags that
-- override it in internal/cli/config.go. Durations and the parallelism are 64-bit patterns; the
-- threshold is a float, which is a parameter.
pub mod Valid
use pgcov.Base.{
  ℕ, zero, suc, ◌+◌, Bool, true, false, ◌&&◌, ◌||◌, not, Option, none, some, List, [], ◌∷◌, ◌==◌,
  ltb, if◌then◌else◌, Bytes, codes, bytes_eq, Result, ok, err,
}
use pgcov.Decimal.{is_positive}

pub record Config (F : Type 0) : Type 0 where
  pub connection_string : Bytes
  pub search_path : Bytes
  pub timeout : ℕ
  pub signal_timeout : ℕ
  pub parallelism : ℕ
  pub setup_files : List Bytes
  pub source_files : List Bytes
  pub coverage_file : Bytes
  pub verbose : Bool
  pub coverage_channel : Bytes
  pub fail_under : F

pub record RunFlags (F : Type 0) : Type 0 where
  pub flag_connection : Bytes
  pub flag_timeout : ℕ
  pub flag_signal_timeout : ℕ
  pub flag_parallel : ℕ
  pub flag_coverage_file : Bytes
  pub flag_setup_files : List Bytes
  pub flag_source_files : List Bytes
  pub flag_verbose : Bool
  pub flag_fail_under : F

-- `ConfigError`, one constructor for each that `Validate` makes.
pub data ConfigError : Type 0 where
  connection_required timeout_not_positive parallel_too_low parallel_too_high : ConfigError
  coverage_file_required fail_under_out_of_range : ConfigError

-- `FailUnder < 0` and `FailUnder > 100`.
pub record FloatTests (F : Type 0) : Type 0 where
  pub is_below_0 : F → Bool
  pub is_above_100 : F → Bool

module _ {F : Type 0} where
  unfoldable pub validate : FloatTests F → Config F → Option ConfigError
  unfolding bytes_eq
  validate tests c =
      if bytes_eq c.connection_string []
      then some ConfigError.connection_required
      else if not (is_positive c.timeout)
      then some ConfigError.timeout_not_positive
      else if not (is_positive c.parallelism)
      then some ConfigError.parallel_too_low
      else if ltb 100 c.parallelism
      then some ConfigError.parallel_too_high
      else if bytes_eq c.coverage_file []
      then some ConfigError.coverage_file_required
      else if tests.is_below_0 c.fail_under || tests.is_above_100 c.fail_under
      then some ConfigError.fail_under_out_of_range
      else none

  -- `IsSet` of a flag name decides which flags override. A nil configuration or lookup is `none`.
  unfoldable pub override : Config F → (Bytes → Bool) → RunFlags F → Config F
  override c is_set f = record c {
    connection_string =
        if is_set (codes "connection") then f.flag_connection else c.connection_string;
    timeout = if is_set (codes "timeout") then f.flag_timeout else c.timeout;
    signal_timeout =
        if is_set (codes "signal-timeout") then f.flag_signal_timeout else c.signal_timeout;
    parallelism = if is_set (codes "parallel") then f.flag_parallel else c.parallelism;
    coverage_file =
        if is_set (codes "coverage-file") then f.flag_coverage_file else c.coverage_file;
    setup_files = if is_set (codes "setup") then f.flag_setup_files else c.setup_files;
    source_files = if is_set (codes "source") then f.flag_source_files else c.source_files;
    verbose = if is_set (codes "verbose") then f.flag_verbose else c.verbose;
    fail_under = if is_set (codes "fail-under") then f.flag_fail_under else c.fail_under;
  }

  unfoldable pub apply_flags_to_config :
      Option (Config F) → Option (Bytes → Bool) → RunFlags F → Option (Config F)
  unfolding override
  apply_flags_to_config none is_set f = none
  apply_flags_to_config (some c) none f = some c
  apply_flags_to_config (some c) (some is_set) f = some (override c is_set f)

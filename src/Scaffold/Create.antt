-- ===== src/Scaffold/Create.antt =====
-- `Init` of internal/cli/init.go: the scaffold that is written for a source. The file system and
-- package filepath are a parameter that carries a world along.
pub mod Overwrite
pub mod Target
use pgcov.Base.{
  ℕ, Bool, true, false, not, ◌&&◌, Option, none, some, List, [], ◌∷◌, ◌++◌, if◌then◌else◌, Bytes,
  codes, bytes_eq, Result, ok, err,
}
use pgcov.Text.{equal_fold}
use pgcov.Text.Fields.{trim_suffix}
use pgcov.Lexer.{Lexer}
use pgcov.Discovery.{Stat}
use pgcov.Instrument.Files.{SourceFile, ParsedSql}
use pgcov.Parser.Source.{parse}
use pgcov.Scaffold.Functions.{FunctionInfo, extract_functions}
use pgcov.Scaffold.Render.{generate_scaffold}

-- What `Init` uses of packages os and filepath. `stat` and `read_file` change nothing.
pub record Disk (W : Type 0) : Type 0 where
  pub abs : Bytes → Result Bytes Bytes
  pub dir : Bytes → Bytes
  pub base : Bytes → Bytes
  pub ext : Bytes → Bytes
  pub join : Bytes → Bytes → Bytes
  pub to_slash : Bytes → Bytes
  pub stat : Bytes → W → Stat
  pub read_file : Bytes → W → Result Bytes Bytes
  pub mkdir_all : Bytes → W → Option Bytes × W
  pub write_file : Bytes → Bytes → W → Option Bytes × W

pub data InitError : Type 0 where
  source_required : InitError
  no_source_path cannot_stat is_directory not_sql cannot_read cannot_parse : Bytes → InitError
  no_output_path output_exists cannot_create_dir cannot_write : Bytes → InitError

module _ {W : Type 0} (disk : Disk W) where
  -- `filepath.Ext`, or `.sql` where there is none.
  abbrev pub scaffold_ext : Bytes → Bytes
  scaffold_ext ext = if bytes_eq ext [] then codes ".sql" else ext

  abbrev pub scaffold_base : Bytes → Bytes
  scaffold_base base =
      trim_suffix base (disk.ext base) ++ (codes "_test" ++ scaffold_ext (disk.ext base))

  unfoldable pub default_scaffold_path : Bytes → Bytes
  default_scaffold_path source_path =
      if bytes_eq source_path []
      then []
      else disk.join (disk.dir source_path) (scaffold_base (disk.base source_path))

  -- `err == nil` of `os.Stat`.
  abbrev pub exists : Stat → Bool
  exists Stat.stat_file = true
  exists Stat.stat_dir = true
  exists _ = false

  abbrev pub written : Bytes → Option Bytes × W → Result InitError Bytes × W
  written out (some e, w) = (err (InitError.cannot_write e), w)
  written out (none, w) = (ok out, w)

  abbrev pub made : Bytes → Bytes → Option Bytes × W → Result InitError Bytes × W
  made out text (some e, w) = (err (InitError.cannot_create_dir e), w)
  made out text (none, w) = written out (disk.write_file out text w)

  -- From the output path on.
  to_output : Bool → Bytes → Result Bytes Bytes → W → Result InitError Bytes × W
  to_output force text (err e) w = (err (InitError.no_output_path e), w)
  to_output force text (ok out) w =
      if exists (disk.stat out w) && not force
      then (err (InitError.output_exists out), w)
      else made out text (disk.mkdir_all (disk.dir out) w)

  abbrev pub output_path : Bytes → Bytes → Bytes
  output_path source output = if bytes_eq output [] then default_scaffold_path source else output

  module _ (lx : Lexer) where
    abbrev pub scaffold_of : Bytes → Bytes → Bytes
    scaffold_of source content =
        generate_scaffold (disk.to_slash source) (extract_functions lx content)

    -- From the content of the source on.
    with_content :
        Bool
        → Bytes
        → Bytes
        → Result Bytes Bytes
        → Result Bytes ParsedSql
        → W
        → Result InitError Bytes × W
    unfolding to_output default_scaffold_path
    with_content force output source (err e) parsed w = (err (InitError.cannot_read e), w)
    with_content force output source (ok content) (err e) w = (err (InitError.cannot_parse e), w)
    with_content force output source (ok content) (ok _) w =
        to_output force (scaffold_of source content) (disk.abs (output_path source output)) w

    abbrev pub source_file : Bytes → SourceFile
    source_file path = record { path = path; relative_path = path }

    -- From what `os.Stat` says of the source on.
    with_stat : Bool → Bytes → Bytes → Stat → W → Result InitError Bytes × W
    unfolding with_content parse
    with_stat force output source Stat.stat_missing w = (err (InitError.cannot_stat source), w)
    with_stat force output source (Stat.stat_error e) w = (err (InitError.cannot_stat e), w)
    with_stat force output source Stat.stat_dir w = (err (InitError.is_directory source), w)
    with_stat force output source Stat.stat_file w =
        if not (equal_fold (disk.ext source) (codes ".sql"))
        then (err (InitError.not_sql source), w)
        else with_content force output source (disk.read_file source w)
            (parse lx (λ p. disk.read_file p w) (source_file source)) w

    with_source : Bool → Bytes → Result Bytes Bytes → W → Result InitError Bytes × W
    unfolding with_stat
    with_source force output (err e) w = (err (InitError.no_source_path e), w)
    with_source force output (ok source) w = with_stat force output source (disk.stat source w) w

    unfoldable pub init : Bytes → Bytes → Bool → W → Result InitError Bytes × W
    unfolding with_source
    init source_path output_path force w =
        if bytes_eq source_path []
        then (err InitError.source_required, w)
        else with_source force output_path (disk.abs source_path) w

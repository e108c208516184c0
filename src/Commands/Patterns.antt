-- ===== src/Commands/Patterns.antt =====
-- The files that internal/cli/run.go takes from patterns, and the name of its channel. The file system
-- is a parameter: `glob` is `filepath.Glob`, `mod_time` the time that `os.Stat` gives.
pub mod Sources
pub mod Channel
use pgcov.Base.{
  ℕ, Bool, true, false, not, List, [], ◌∷◌, ◌++◌, if◌then◌else◌, Bytes, codes, Result, ok, err,
  ◌>>=◌,
}
use pgcov.Text.Hex.{encode_hex}
use pgcov.Text.Order.{sort_strings}
use pgcov.Discovery.{FileType, DiscoveredFile, Stat, Files, classify_file, is_source, seen}

pub data PatternError : Type 0 where
  invalid_pattern cannot_resolve cannot_read : Bytes → Bytes → PatternError
  matched_nothing not_a_source missing_source : Bytes → PatternError
  cannot_stat_source : Bytes → Bytes → PatternError
  no_root_path no_relative_path : Bytes → PatternError

-- `generateCoverageChannel`, of what `rand.Read` gives.
unfoldable pub generate_coverage_channel : Result Bytes Bytes → Result Bytes Bytes
generate_coverage_channel (err e) = err e
generate_coverage_channel (ok b) = ok (codes "pgcov_" ++ encode_hex b)

module _ (fs : Files) (glob : Bytes → Result Bytes (List Bytes)) (mod_time : Bytes → ℕ)
    (read_file : Bytes → Result Bytes Bytes) where
  abbrev pub resolved : Bytes → Result Bytes Bytes → Result PatternError Bytes
  resolved m (err e) = err (PatternError.cannot_resolve m e)
  resolved m (ok path) = ok path

  -- The matches of one pattern; the set of the paths that were seen holds those in `files`.
  unfoldable pub add_matches : List Bytes → List Bytes → Result PatternError (List Bytes)
  add_matches files [] = ok files
  add_matches files (m ∷ matches) =
      resolved m (fs.abs m)
      >>= (λ path. add_matches (if seen path files then files else files ++ (path ∷ [])) matches)

  abbrev pub matches_of : Bytes → Result Bytes (List Bytes) → Result PatternError (List Bytes)
  matches_of pattern_text (err e) = err (PatternError.invalid_pattern pattern_text e)
  matches_of pattern_text (ok []) = err (PatternError.matched_nothing pattern_text)
  matches_of pattern_text (ok (m ∷ matches)) = ok (m ∷ matches)

  unfoldable pub expand_from : List Bytes → List Bytes → Result PatternError (List Bytes)
  unfolding add_matches sort_strings
  expand_from files [] = ok files
  expand_from files (p ∷ patterns) = matches_of p (glob p) >>= (λ matches.
      add_matches files (sort_strings matches) >>= (λ files'. expand_from files' patterns))

  unfoldable pub expand_patterns : List Bytes → Result PatternError (List Bytes)
  unfolding expand_from
  expand_patterns patterns = expand_from [] patterns

  abbrev script_of : Bytes → Result Bytes Bytes → Result PatternError (Bytes × Bytes)
  script_of f (err e) = err (PatternError.cannot_read f e)
  script_of f (ok data_read) = ok (f, data_read)

  read_scripts : List Bytes → Result PatternError (List (Bytes × Bytes))
  read_scripts [] = ok []
  read_scripts (f ∷ files) =
      script_of f (read_file f)
      >>= (λ script. read_scripts files >>= (λ scripts. ok (script ∷ scripts)))

  -- A setup script is its name and its SQL.
  unfoldable pub load_setup_scripts : List Bytes → Result PatternError (List (Bytes × Bytes))
  unfolding expand_patterns read_scripts
  load_setup_scripts patterns = expand_patterns patterns >>= (λ files. read_scripts files)

  abbrev pub with_relative : Bytes → Result Bytes Bytes → Result PatternError DiscoveredFile
  with_relative f (err e) = err (PatternError.no_relative_path e)
  with_relative f (ok rel) = ok (record {
    path = f;
    relative_path = fs.to_slash rel;
    ty = FileType.file_type_source;
    mod_time = mod_time f;
  })

  abbrev pub with_info : Bytes → Bytes → Stat → Result PatternError DiscoveredFile
  with_info abs_root f Stat.stat_missing = err (PatternError.missing_source f)
  with_info abs_root f (Stat.stat_error e) = err (PatternError.cannot_stat_source f e)
  with_info abs_root f _ = with_relative f (fs.rel abs_root f)

  unfoldable pub source_of : Bytes → Bytes → Result PatternError DiscoveredFile
  source_of abs_root f =
      if not (is_source (classify_file (fs.base f)))
      then err (PatternError.not_a_source f)
      else with_info abs_root f (fs.stat f)

  unfoldable pub sources_of : Bytes → List Bytes → Result PatternError (List DiscoveredFile)
  unfolding source_of
  sources_of abs_root [] = ok []
  sources_of abs_root (f ∷ files) =
      source_of abs_root f
      >>= (λ source. sources_of abs_root files >>= (λ sources. ok (source ∷ sources)))

  abbrev pub root_of : Result Bytes Bytes → Result PatternError Bytes
  root_of (err e) = err (PatternError.no_root_path e)
  root_of (ok path) = ok path

  unfoldable pub explicit_sources : Bytes → List Bytes → Result PatternError (List DiscoveredFile)
  unfolding expand_patterns sources_of
  explicit_sources search_path patterns =
      expand_patterns patterns
      >>= (λ files. root_of (fs.abs search_path) >>= (λ abs_root. sources_of abs_root files))

-- ===== src/Discovery.antt =====
-- Discovery of the SQL files of internal/discovery. The file system and package filepath are a
-- parameter. The directories of the tests are visited in the order of the tests; the code visits them
-- in the order of a Go map, which is left open.
pub mod Sources
use pgcov.Base.{
  ℕ, Bool, true, false, ◌||◌, not, Option, none, some, List, [], ◌∷◌, ◌++◌, if◌then◌else◌, Bytes,
  codes, bytes_eq, Result, ok, err, ◌>>=◌,
}
use pgcov.Text.{to_lower, has_suffix}

pub data FileType : Type 0 where
  file_type_test file_type_source file_type_unknown : FileType

pub record DiscoveredFile : Type 0 where
  pub path : Bytes
  pub relative_path : Bytes
  pub ty : FileType
  pub mod_time : ℕ

unfoldable pub classify_file : Bytes → FileType
unfolding has_suffix to_lower
classify_file filename =
    if not (has_suffix (to_lower filename) (codes ".sql"))
    then FileType.file_type_unknown
    else if has_suffix (to_lower filename) (codes "_test.sql")
    then FileType.file_type_test
    else FileType.file_type_source

-- What `os.Stat` says of a path.
pub data Stat : Type 0 where
  stat_missing stat_file stat_dir : Stat
  stat_error : Bytes → Stat

-- What `filepath.Walk` calls its function with: an error, which may be one of permission, a
-- directory, or a file with its time.
pub data Visit : Type 0 where
  visit_denied visit_dir : Visit
  visit_error : Bytes → Visit
  visit_file : ℕ → Visit

pub record Files : Type 0 where
  pub abs : Bytes → Result Bytes Bytes
  pub stat : Bytes → Stat
  pub walk : Bytes → List (Bytes × Visit)
  pub rel : Bytes → Bytes → Result Bytes Bytes
  pub to_slash : Bytes → Bytes
  pub base : Bytes → Bytes
  pub dir : Bytes → Bytes

pub data DiscoverError : Type 0 where
  no_absolute_path no_relative_path walk_failed : Bytes → DiscoverError
  directory_not_found cannot_access not_a_directory : Bytes → DiscoverError

abbrev is_test : FileType → Bool
is_test FileType.file_type_test = true
is_test _ = false

abbrev pub is_source : FileType → Bool
is_source FileType.file_type_source = true
is_source _ = false

abbrev select : (FileType → Bool) → List DiscoveredFile → List DiscoveredFile
select p [] = []
select p (file ∷ files) = if p file.ty then file ∷ select p files else select p files

-- Whether the path is among the keys of a set.
unfoldable pub seen : Bytes → List Bytes → Bool
unfolding bytes_eq
seen path [] = false
seen path (p ∷ ps) = bytes_eq path p || seen path ps

abbrev pub paths : List DiscoveredFile → List Bytes
paths [] = []
paths (f ∷ files) = f.path ∷ paths files

module _ (fs : Files) where
  abbrev found : Bytes → ℕ → Result Bytes Bytes → Result DiscoverError DiscoveredFile
  found path time (err e) = err (DiscoverError.no_relative_path e)
  found path time (ok rel_path) = ok (record {
    path = path;
    relative_path = fs.to_slash rel_path;
    ty = classify_file (fs.base path);
    mod_time = time;
  })

  abbrev keep :
      DiscoveredFile
      → Result DiscoverError (List DiscoveredFile)
      → Result DiscoverError (List DiscoveredFile)
  keep f (ok files) = ok (f ∷ files)
  keep f (err e) = err e

  abbrev or_error :
      Result DiscoverError DiscoveredFile
      → Result DiscoverError (List DiscoveredFile)
      → Result DiscoverError (List DiscoveredFile)
  or_error (ok f) rest = keep f rest
  or_error (err e) rest = err e

  -- The function of the walk, on each path in turn.
  unfoldable pub visit_all :
      Bytes → List (Bytes × Visit) → Result DiscoverError (List DiscoveredFile)
  unfolding has_suffix to_lower classify_file
  visit_all abs_rel [] = ok []
  visit_all abs_rel ((path, Visit.visit_denied) ∷ visits) = visit_all abs_rel visits
  visit_all abs_rel ((path, Visit.visit_dir) ∷ visits) = visit_all abs_rel visits
  visit_all abs_rel ((path, Visit.visit_error e) ∷ visits) = err (DiscoverError.walk_failed e)
  visit_all abs_rel ((path, Visit.visit_file time) ∷ visits) =
      let rest = visit_all abs_rel visits in
      if not (has_suffix (to_lower path) (codes ".sql"))
      then rest
      else or_error (found path time (fs.rel abs_rel path)) rest

  walk_at : Bytes → Bytes → Stat → Result DiscoverError (List DiscoveredFile)
  unfolding visit_all
  walk_at abs_scan abs_rel Stat.stat_missing = err (DiscoverError.directory_not_found abs_scan)
  walk_at abs_scan abs_rel (Stat.stat_error e) = err (DiscoverError.cannot_access e)
  walk_at abs_scan abs_rel Stat.stat_file = err (DiscoverError.not_a_directory abs_scan)
  walk_at abs_scan abs_rel Stat.stat_dir = visit_all abs_rel (fs.walk abs_scan)

  abbrev absolute : Result Bytes Bytes → Result DiscoverError Bytes
  absolute (ok path) = ok path
  absolute (err e) = err (DiscoverError.no_absolute_path e)

  unfoldable pub discover_relative_to : Bytes → Bytes → Result DiscoverError (List DiscoveredFile)
  unfolding walk_at
  discover_relative_to scan_root rel_root = absolute (fs.abs scan_root) >>= (λ abs_scan.
      absolute (fs.abs rel_root) >>= (λ abs_rel. walk_at abs_scan abs_rel (fs.stat abs_scan)))

  abbrev pub discover : Bytes → Result DiscoverError (List DiscoveredFile)
  discover root_path = discover_relative_to root_path root_path

  unfoldable pub discover_tests : Bytes → Result DiscoverError (List DiscoveredFile)
  unfolding discover_relative_to
  discover_tests root_path = discover root_path >>= (λ files. ok (select is_test files))

  unfoldable pub discover_sources : Bytes → Result DiscoverError (List DiscoveredFile)
  unfolding discover_relative_to
  discover_sources root_path = discover root_path >>= (λ files. ok (select is_source files))

  -- The set of the directories of the tests.
  unfoldable pub test_dirs : List Bytes → List DiscoveredFile → List Bytes
  unfolding seen
  test_dirs dirs [] = dirs
  test_dirs dirs (test ∷ tests) =
      test_dirs (if seen (fs.dir test.path) dirs then dirs else dirs ++ (fs.dir test.path ∷ []))
        tests

  -- One directory's files: the sources that are not there yet. `seenFiles` holds the paths of the
  -- files in `sources`.
  unfoldable pub add_sources : List DiscoveredFile → List DiscoveredFile → List DiscoveredFile
  unfolding seen
  add_sources sources [] = sources
  add_sources sources (file ∷ files) =
      add_sources
        (if is_source file.ty
          then (if seen file.path (paths sources) then sources else sources ++ (file ∷ []))
          else sources)
        files

  unfoldable pub add_dirs :
      Bytes → List DiscoveredFile → List Bytes → Result DiscoverError (List DiscoveredFile)
  unfolding discover_relative_to add_sources
  add_dirs root sources [] = ok sources
  add_dirs root sources (test_dir ∷ dirs) =
      discover_relative_to test_dir root
      >>= (λ files. add_dirs root (add_sources sources files) dirs)

  unfoldable pub discover_co_located_sources :
      Bytes → List DiscoveredFile → Result DiscoverError (List DiscoveredFile)
  unfolding test_dirs add_dirs
  discover_co_located_sources root test_files = add_dirs root [] (test_dirs [] test_files)

-- ===== src/Coverage/Store.antt =====
-- The store of internal/coverage/store.go. The disk and the package encoding/json are a parameter.
use pgcov.Base.{Bool, true, false, Option, none, some, if◌then◌else◌, Bytes, Result, ok, err}
use pgcov.Coverage.{Coverage, VersionError, validate_version}

-- What `os.Stat` says of the file, as far as the store asks.
pub data FileState : Type 0 where
  is_there is_missing is_unknown : FileState

-- `stat` and `read_file` change nothing.
pub record Storage (W : Type 0) : Type 0 where
  pub dir : Bytes → Bytes
  pub stat : Bytes → W → FileState
  pub read_file : Bytes → W → Result Bytes Bytes
  pub mkdir_all : Bytes → W → Option Bytes × W
  pub write_file : Bytes → Bytes → W → Option Bytes × W
  pub remove : Bytes → W → Option Bytes × W
  pub marshal : Coverage → Result Bytes Bytes
  pub unmarshal : Bytes → Result Bytes Coverage

pub data StoreError : Type 0 where
  cannot_create_dir cannot_marshal cannot_write : Bytes → StoreError
  not_found cannot_read cannot_parse : Bytes → StoreError
  bad_version : VersionError → StoreError

module _ {W : Type 0} (storage : Storage W) where
  abbrev pub wrote : Option Bytes × W → Option StoreError × W
  wrote (some e, w) = (some (StoreError.cannot_write e), w)
  wrote (none, w) = (none, w)

  abbrev pub marshalled : Bytes → Result Bytes Bytes → W → Option StoreError × W
  marshalled path (err e) w = (some (StoreError.cannot_marshal e), w)
  marshalled path (ok content) w = wrote (storage.write_file path content w)

  abbrev pub made_dir : Bytes → Coverage → Option Bytes × W → Option StoreError × W
  made_dir path coverage (some e, w) = (some (StoreError.cannot_create_dir e), w)
  made_dir path coverage (none, w) = marshalled path (storage.marshal coverage) w

  unfoldable pub save : Bytes → Coverage → W → Option StoreError × W
  save path coverage w = made_dir path coverage (storage.mkdir_all (storage.dir path) w)

  abbrev pub checked : Coverage → Result VersionError (Unit {0}) → Result StoreError Coverage
  checked coverage (err e) = err (StoreError.bad_version e)
  checked coverage (ok _) = ok coverage

  -- A nil map of positions is an empty one here, so `Load` has nothing to initialise.
  abbrev pub parsed : Result Bytes Coverage → Result StoreError Coverage
  parsed (err e) = err (StoreError.cannot_parse e)
  parsed (ok coverage) = checked coverage (validate_version (some coverage))

  abbrev pub read : Result Bytes Bytes → Result StoreError Coverage
  read (err e) = err (StoreError.cannot_read e)
  read (ok content) = parsed (storage.unmarshal content)

  abbrev pub found : Bytes → FileState → W → Result StoreError Coverage
  found path FileState.is_missing w = err (StoreError.not_found path)
  found path _ w = read (storage.read_file path w)

  unfoldable pub load : Bytes → W → Result StoreError Coverage
  load path w = found path (storage.stat path w) w

  abbrev pub stat_ok : FileState → Bool
  stat_ok FileState.is_there = true
  stat_ok _ = false

  unfoldable pub exists : Bytes → W → Bool
  exists path w = stat_ok (storage.stat path w)

  unfoldable pub delete : Bytes → W → Option Bytes × W
  unfolding exists
  delete path w = if exists path w then storage.remove path w else (none, w)

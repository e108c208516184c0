-- ===== src/Coverage.antt =====
-- The coverage data of internal/coverage/model.go: `Coverage` and its methods.
-- A hit count is the 64-bit pattern of a Go `int`; a nil `PositionHits` is `none`.
pub mod Positions
pub mod Merge
pub mod Inputs
pub mod Counts
pub mod Store
pub mod Files
pub mod Percent
pub mod Clone
pub mod Texts
use pgcov.Base.{
  ℕ, zero, suc, ◌+◌, ◌%◌, Bool, true, false, Option, none, some, List, [], ◌∷◌, ◌==◌, ltb,
  if◌then◌else◌, Bytes, codes, bytes_eq, Result, ok, err, length, ◌≡◌, All,
}
use pgcov.Decimal.{modulus, is_positive}
use pgcov.Dict.{lookup, insert, copy, Uniq}
use pgcov.Key.{format_position_key}

abbrev pub PositionHits : Type 0
PositionHits = Option (List (Bytes × ℕ))

abbrev pub FileHits : Type 0
FileHits = List (Bytes × PositionHits)

pub record Coverage : Type 0 where
  pub version : Bytes
  pub timestamp : ℕ
  pub positions : FileHits
  pub implicit_positions : FileHits
  pub root : Bytes

abbrev pub schema_version : Bytes
schema_version = codes "2.0"

-- The errors of `ValidateVersion`.
pub data VersionError : Type 0 where
  nil_data : VersionError
  no_version : VersionError
  unsupported : Bytes → VersionError

unfoldable pub validate_version : Option Coverage → Result VersionError (Unit {0})
unfolding bytes_eq
validate_version none = err VersionError.nil_data
validate_version (some c) =
    if bytes_eq c.version schema_version
    then ok tt
    else if bytes_eq c.version []
    then err VersionError.no_version
    else err (VersionError.unsupported c.version)

-- `now` is `time.Now()`.
unfoldable pub new_coverage : ℕ → Coverage
new_coverage now = record {
  version = schema_version;
  timestamp = now;
  positions = [];
  implicit_positions = [];
  root = [];
}

-- The entries of a map of hits; a nil map reads as an empty one.
abbrev pub entries : PositionHits → List (Bytes × ℕ)
entries none = []
entries (some m) = m

-- `m[file]`
unfoldable pub index_file : Bytes → FileHits → PositionHits
unfolding lookup
index_file file m = elim (lookup file m) as (λ _. PositionHits) [ none ↦ none | some h ↦ h ]

-- `count, exists := m[file][posKey]`
unfoldable pub find_hits : FileHits → Bytes → Bytes → Option ℕ
unfolding index_file
find_hits m file pos_key = lookup pos_key (entries (index_file file m))

abbrev pub value_or_zero : Option ℕ → ℕ
value_or_zero none = 0
value_or_zero (some n) = n

-- `m[file][posKey]`
abbrev pub hits : FileHits → Bytes → Bytes → ℕ
hits m file pos_key = value_or_zero (find_hits m file pos_key)

-- `if m[file] == nil { m[file] = make(PositionHits) }`
unfoldable pub ensure_file : Bytes → FileHits → FileHits
unfolding index_file insert
ensure_file file m = elim (index_file file m) as (λ _. FileHits) [
  | none ↦ insert file (some []) m
  | some h ↦ m
]

-- `m[file][posKey] = hitCount`, for a file that has a map.
unfoldable pub set_hits : FileHits → Bytes → Bytes → ℕ → FileHits
unfolding index_file insert
set_hits m file pos_key hit_count =
    insert file (some (insert pos_key hit_count (entries (index_file file m)))) m

unfoldable pub add_position : Coverage → Bytes → ℕ → ℕ → ℕ → Coverage
unfolding ensure_file set_hits format_position_key
add_position c file start_pos len hit_count = record c {
  positions =
      set_hits (ensure_file file c.positions) file (format_position_key start_pos len) hit_count;
}

unfoldable pub add_implicit_position : Coverage → Bytes → ℕ → ℕ → ℕ → Coverage
unfolding ensure_file set_hits format_position_key
add_implicit_position c file start_pos len hit_count = record c {
  implicit_positions =
      set_hits (ensure_file file c.implicit_positions) file (format_position_key start_pos len)
        hit_count;
}

union : List (Bytes × ℕ) → List (Bytes × ℕ) → PositionHits
unfolding copy
union [] [] = none
union exec implicit = some (copy (copy [] implicit) exec)

unfoldable pub all_positions : Coverage → Bytes → PositionHits
unfolding union index_file
all_positions c file =
    union (entries (index_file file c.positions)) (entries (index_file file c.implicit_positions))

-- The loops of `countHits`, over one file and over the files.
unfoldable pub count_file : List (Bytes × ℕ) → ℕ × ℕ → ℕ × ℕ
count_file [] (covered, total) = (covered, total)
count_file ((k, count) ∷ m) (covered, total) =
    count_file m (if is_positive count then covered + 1 else covered, total + 1)

unfoldable pub count_files : FileHits → ℕ × ℕ → ℕ × ℕ
unfolding count_file
count_files [] acc = acc
count_files ((file, h) ∷ m) acc = count_files m (count_file (entries h) acc)

abbrev pub count_hits : FileHits → ℕ × ℕ
count_hits m = count_files m (0, 0)

abbrev pub executable_position_counts : Coverage → ℕ × ℕ
executable_position_counts c = count_hits c.positions

abbrev pub implicit_position_counts : Coverage → ℕ × ℕ
implicit_position_counts c = count_hits c.implicit_positions

abbrev pub has_executable_positions : Coverage → Bool
has_executable_positions c = ltb 0 (executable_position_counts c).1

unfoldable pub clone_positions : FileHits → FileHits
unfolding copy
clone_positions [] = []
clone_positions ((file, h) ∷ m) = (file, some (copy [] (entries h))) ∷ clone_positions m

unfoldable pub clone : Coverage → Coverage
unfolding clone_positions
clone c = record {
  version = c.version;
  timestamp = c.timestamp;
  root = c.root;
  positions = clone_positions c.positions;
  implicit_positions = clone_positions c.implicit_positions;
}

-- `int` addition.
abbrev pub add_int : ℕ → ℕ → ℕ
add_int a b = (a + b) % modulus

-- The inner and the outer loop of `mergeInto`.
unfoldable pub merge_file : FileHits → Bytes → List (Bytes × ℕ) → FileHits
unfolding set_hits find_hits
merge_file dst file [] = dst
merge_file dst file ((pos_key, n) ∷ m) =
    merge_file (set_hits dst file pos_key (add_int (hits dst file pos_key) n)) file m

unfoldable pub merge_into : FileHits → FileHits → FileHits
unfolding merge_file ensure_file
merge_into dst [] = dst
merge_into dst ((file, none) ∷ src) = merge_into dst src
merge_into dst ((file, some m) ∷ src) = merge_into (merge_file (ensure_file file dst) file m) src

-- One round of `Merge` on an input that is not nil and has the right version.
unfoldable pub merge_step : Coverage → Coverage → Coverage
unfolding merge_into bytes_eq
merge_step result c = record result {
  root = if bytes_eq result.root [] then c.root else result.root;
  positions = merge_into result.positions c.positions;
  implicit_positions = merge_into result.implicit_positions c.implicit_positions;
}

-- The loop of `Merge`; `i` is the index of the next input, and an error names the input `i + 1`.
unfoldable pub merge_from :
    ℕ → Coverage → List (Option Coverage) → Result (ℕ × VersionError) Coverage
merge_from i result [] = ok result
merge_from i result (none ∷ cs) = merge_from (i + 1) result cs
merge_from i result (some c ∷ cs) =
    elim (validate_version (some c)) as (λ _. Result (ℕ × VersionError) Coverage) [
      | ok _ ↦ merge_from (i + 1) (merge_step result c) cs
      | err e ↦ err (i + 1, e)
    ]

unfoldable pub merge : ℕ → List (Option Coverage) → Result (ℕ × VersionError) Coverage
unfolding merge_from new_coverage
merge now coverages = merge_from 0 (new_coverage now) coverages

-- Well-formed data: no file stands twice, and no position of a file. Every Go map is so.
abbrev pub AllHits : FileHits → Type 0
AllHits [] = Unit
AllHits ((file, h) ∷ m) = Uniq (entries h) × AllHits m

pub record IsWf (m : FileHits) : Type 0 where
  pub files : Uniq m
  pub inner : AllHits m

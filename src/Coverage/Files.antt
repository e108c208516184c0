-- ===== src/Coverage/Files.antt =====
-- The files of coverage data: `ResolveBaseDir` and `GetFiles` of internal/coverage/model.go. What
-- `os.Stat` says of a directory is a parameter.
pub mod Listed
use pgcov.Base.{Bool, true, not, List, [], ◌∷◌, if◌then◌else◌, Bytes, bytes_eq}
use pgcov.Text.Order.{sort_strings}
use pgcov.Dict.{insert, keys}
use pgcov.Coverage.{FileHits, Coverage}

-- `is_dir` is whether `os.Stat` succeeds and gives a directory.
unfoldable pub resolve_base_dir : (Bytes → Bool) → Coverage → Bytes → Bytes
unfolding bytes_eq
resolve_base_dir is_dir c explicit =
    if not (bytes_eq explicit [])
    then explicit
    else if bytes_eq c.root []
    then []
    else if is_dir c.root
    then c.root
    else []

-- `seen[file] = struct{}{}` for each file of a map.
unfoldable pub seen_from : List (Bytes × Unit {0}) → FileHits → List (Bytes × Unit {0})
unfolding insert
seen_from acc [] = acc
seen_from acc ((file, h) ∷ m) = seen_from (insert file tt acc) m

unfoldable pub get_files : Coverage → List Bytes
unfolding sort_strings seen_from
get_files c = sort_strings (keys (seen_from (seen_from [] c.positions) c.implicit_positions))

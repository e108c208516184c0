-- ===== src/Commands/Combine.antt =====
-- `Merge` of internal/cli/merge.go: the files are loaded, merged and written.
pub mod Sums
use pgcov.Base.{
  ℕ, zero, suc, Bool, true, false, ◌||◌, Option, none, some, List, [], ◌∷◌, ◌++◌, ltb,
  if◌then◌else◌, Bytes, codes, bytes_eq, length, Result, ok, err,
}
use pgcov.Coverage.{Coverage, VersionError, merge}
use pgcov.Coverage.Store.{Storage, StoreError, save, load}

pub data CombineError : Type 0 where
  too_few_inputs : ℕ → CombineError
  cannot_load : Bytes → StoreError → CombineError
  cannot_merge : ℕ × VersionError → CombineError
  cannot_marshal cannot_print : Bytes → CombineError
  cannot_save : StoreError → CombineError

module _ {W : Type 0} (storage : Storage W) (write_stdout : Bytes → W → Option Bytes × W) where
  abbrev pub add_loaded :
      Bytes
      → Result StoreError Coverage
      → Result CombineError (List (Option Coverage))
      → Result CombineError (List (Option Coverage))
  add_loaded path (err e) rest = err (CombineError.cannot_load path e)
  add_loaded path (ok coverage) (err e) = err e
  add_loaded path (ok coverage) (ok coverages) = ok (some coverage ∷ coverages)

  -- The loop that loads the inputs and stops at the first one that fails.
  unfoldable pub load_all : List Bytes → W → Result CombineError (List (Option Coverage))
  load_all [] w = ok []
  load_all (path ∷ inputs) w = add_loaded path (load storage path w) (load_all inputs w)

  abbrev printed : Option Bytes × W → Option CombineError × W
  printed (some e, w) = (some (CombineError.cannot_print e), w)
  printed (none, w) = (none, w)

  abbrev to_stdout : Result Bytes Bytes → W → Option CombineError × W
  to_stdout (err e) w = (some (CombineError.cannot_marshal e), w)
  to_stdout (ok content) w = printed (write_stdout (content ++ (b'\n' ∷ [])) w)

  abbrev pub saved : Option StoreError × W → Option CombineError × W
  saved (some e, w) = (some (CombineError.cannot_save e), w)
  saved (none, w) = (none, w)

  -- Whether the output goes to the standard output.
  abbrev pub prints : Bytes → Bool
  prints output = bytes_eq output [] || bytes_eq output (codes "-")

  abbrev pub output_merged :
      Bytes → Result (ℕ × VersionError) Coverage → W → Option CombineError × W
  output_merged output (err e) w = (some (CombineError.cannot_merge e), w)
  output_merged output (ok merged) w =
      if prints output
      then to_stdout (storage.marshal merged) w
      else saved (save storage output merged w)

  abbrev pub merge_loaded :
      ℕ → Bytes → Result CombineError (List (Option Coverage)) → W → Option CombineError × W
  merge_loaded now output (err e) w = (some e, w)
  merge_loaded now output (ok coverages) w = output_merged output (merge now coverages) w

  -- `now` is the time at which the files are merged.
  unfoldable pub combine : ℕ → List Bytes → Bytes → W → Option CombineError × W
  unfolding load_all bytes_eq
  combine now inputs output w =
      if ltb (length inputs) 2
      then (some (CombineError.too_few_inputs (length inputs)), w)
      else merge_loaded now output (load_all inputs w) w

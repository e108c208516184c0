-- ===== src/Dict.antt =====
-- Go maps with string keys (internal/coverage/model.go), as association lists.
-- A Go map has no order and one value for a key: the laws are about `lookup`, and `Uniq` says that
-- no key stands twice.
pub mod Laws
use pgcov.Base.{
  ℕ, Bool, List, [], ◌∷◌, Option, none, some, if◌then◌else◌, Bytes, bytes_eq, map, ◌≢◌, All,
}

module _ {ℓ} {V : Type ℓ} where
  -- `v, exists := m[k]`
  unfoldable pub lookup : Bytes → List (Bytes × V) → Option V
  lookup k [] = none
  lookup k ((j, v) ∷ m) = if bytes_eq j k then some v else lookup k m

  -- `m[k] = v`
  unfoldable pub insert : Bytes → V → List (Bytes × V) → List (Bytes × V)
  insert k v [] = (k, v) ∷ []
  insert k v ((j, w) ∷ m) = if bytes_eq j k then (k, v) ∷ m else (j, w) ∷ insert k v m

  -- `maps.Copy(dst, src)`
  unfoldable pub copy : List (Bytes × V) → List (Bytes × V) → List (Bytes × V)
  copy dst [] = dst
  copy dst ((k, v) ∷ src) = copy (insert k v dst) src

  abbrev pub keys : List (Bytes × V) → List Bytes
  keys [] = []
  keys ((k, v) ∷ m) = k ∷ keys m

  -- No key stands twice.
  abbrev pub Uniq : List (Bytes × V) → Type 0
  Uniq [] = Unit
  Uniq ((k, v) ∷ m) = All (λ j. j ≢ k) (keys m) × Uniq m

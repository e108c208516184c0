-- ===== src/Coverage/Clone.antt =====
-- What `Clone` copies.
use pgcov.Base.{
  ℕ, true, false, sym, Option, none, some, List, [], ◌∷◌, Bytes, bytes_eq, ◌≡◌, refl, ap, ◌∙◌, inl,
  inr, Bool-cases,
}
use pgcov.Dict.{lookup, copy, Uniq}
use pgcov.Dict.Laws.{lookup-copy, lookup_here, lookup_there, or_else}
use pgcov.Coverage.{
  FileHits, PositionHits, entries, index_file, hits, value_or_zero, clone_positions, AllHits, IsWf,
}
use pgcov.Coverage.Positions.{find_hits-entries}

or_else-none : (o : Option ℕ) → or_else o none ≡ o
or_else-none none = refl
or_else-none (some n) = refl

-- A map of one file, copied.
lookup-copied : (m : List (Bytes × ℕ)) (k : Bytes) → Uniq m → lookup k (copy [] m) ≡ lookup k m
lookup-copied m k u = lookup-copy m [] k u ∙ unfold lookup in or_else-none (lookup k m)

index_file_here :
    (g f : Bytes) (h : PositionHits) (m : FileHits)
    → bytes_eq g f ≡ true
    → index_file f ((g, h) ∷ m) ≡ h
unfolding index_file
index_file_here g f h m e = rw (index_file, lookup_here g f h m e) refl

index_file_there :
    (g f : Bytes) (h : PositionHits) (m : FileHits)
    → bytes_eq g f ≡ false
    → index_file f ((g, h) ∷ m) ≡ index_file f m
unfolding index_file
index_file_there g f h m e = rw (index_file, lookup_there g f h m e) refl

lookup-clone_positions :
    (m : FileHits) (f k : Bytes)
    → AllHits m
    → lookup k (entries (index_file f (clone_positions m))) ≡ lookup k (entries (index_file f m))
unfolding clone_positions
lookup-clone_positions [] f k a = refl
lookup-clone_positions ((g, h) ∷ m) f k a = elim (Bool-cases (bytes_eq g f)) [
  | inl e ↦
      ap (λ o. lookup k (entries o))
        (index_file_here g f (some (copy [] (entries h))) (clone_positions m) e)
      ∙ lookup-copied (entries h) k a.0
      ∙ ap (λ o. lookup k (entries o)) (sym (index_file_here g f h m e))
  | inr e ↦
      ap (λ o. lookup k (entries o))
        (index_file_there g f (some (copy [] (entries h))) (clone_positions m) e)
      ∙ lookup-clone_positions m f k a.1
      ∙ ap (λ o. lookup k (entries o)) (sym (index_file_there g f h m e))
]

-- A clone has the counts of the original.
pub hits-clone_positions :
    (m : FileHits) (f k : Bytes) → IsWf m → hits (clone_positions m) f k ≡ hits m f k
hits-clone_positions m f k w = ap value_or_zero (
    find_hits-entries (clone_positions m) f k
    ∙ lookup-clone_positions m f k w.inner
    ∙ sym (find_hits-entries m f k))

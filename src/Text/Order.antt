-- ===== src/Text/Order.antt =====
-- `sort.Strings` of Go: texts sorted by their bytes.
use pgcov.Base.{
  Bool, true, false, ◌&&◌, ◌||◌, List, [], ◌∷◌, ◌==◌, ltb, if◌then◌else◌, Bytes, All, inl, inr,
  Bool-cases,
}

unfoldable pub bytes_leb : Bytes → Bytes → Bool
bytes_leb [] t = true
bytes_leb (c ∷ s) [] = false
bytes_leb (c ∷ s) (d ∷ t) = ltb c d || (c == d && bytes_leb s t)

unfoldable pub insert_sorted : Bytes → List Bytes → List Bytes
insert_sorted s [] = s ∷ []
insert_sorted s (t ∷ ts) =
    let rest = insert_sorted s ts in if bytes_leb s t then s ∷ t ∷ ts else t ∷ rest

-- `sort.Strings`
unfoldable pub sort_strings : List Bytes → List Bytes
unfolding insert_sorted
sort_strings [] = []
sort_strings (s ∷ ss) = insert_sorted s (sort_strings ss)

All-insert_sorted {κ} :
    (P : Bytes → Type κ) (s : Bytes) (ts : List Bytes) → All P (insert_sorted s ts) → P s × All P ts
unfolding insert_sorted
All-insert_sorted P s [] h = h
All-insert_sorted P s (t ∷ ts) h = elim (Bool-cases (bytes_leb s t)) [
  | inl e ↦ rw e at h
  | inr e ↦
      let h' : P t × All P (insert_sorted s ts) = rw e at h in
      let (a, b) = All-insert_sorted P s ts h'.1 in (a, (h'.0, b))
]

-- Sorting loses nothing.
pub All-sort_strings {κ} :
    (P : Bytes → Type κ) (ss : List Bytes) → All P (sort_strings ss) → All P ss
unfolding sort_strings
All-sort_strings P [] h = tt
All-sort_strings P (s ∷ ss) h =
    let (a, b) = All-insert_sorted P s (sort_strings ss) h in (a, All-sort_strings P ss b)

-- ===== src/Coverage/Counts.antt =====
-- `countHits` against its description: how many positions there are, and how many were hit.
use pgcov.Base.{
  ℕ, ◌+◌, ◌≤◌, Bool, true, false, List, [], ◌∷◌, ◌++◌, if◌then◌else◌, Bytes, length, length-append,
  ltb, ◌≡◌, ◌↔◌, ◌≢◌, refl, inl, inr, arith, Bool-cases,
}
use pgcov.Decimal.{is_positive}
use pgcov.Coverage.{
  FileHits, Coverage, entries, count_file, count_files, executable_position_counts,
  has_executable_positions,
}

abbrev pub counts_of : List (Bytes × ℕ) → List ℕ
counts_of [] = []
counts_of ((k, n) ∷ m) = n ∷ counts_of m

-- All hit counts of all files.
abbrev pub all_counts : FileHits → List ℕ
all_counts [] = []
all_counts ((f, h) ∷ m) = counts_of (entries h) ++ all_counts m

abbrev pub positives : List ℕ → ℕ
positives [] = 0
positives (n ∷ ns) = (if is_positive n then 1 else 0) + positives ns

positives-append : (xs ys : List ℕ) → positives (xs ++ ys) ≡ positives xs + positives ys
positives-append [] ys = omega arith
positives-append (x ∷ xs) ys = omega (arith, positives-append xs ys)

positives-le-length : (xs : List ℕ) → positives xs ≤ length xs
positives-le-length [] = omega arith
positives-le-length (x ∷ xs) = elim (Bool-cases (is_positive x)) [
  | inl e ↦ rw e (omega (arith, positives-le-length xs))
  | inr e ↦ rw e (omega (arith, positives-le-length xs))
]

abbrev AddsUp : ℕ × ℕ → ℕ × ℕ → List ℕ → Type 0
AddsUp after before ns = (after.0 ≡ before.0 + positives ns) × (after.1 ≡ before.1 + length ns)

one_more : (b : Bool) (a : ℕ) → (if b then a + 1 else a) ≡ a + (if b then 1 else 0)
one_more true a = refl
one_more false a = omega arith

count_file_lem :
    (m : List (Bytes × ℕ)) (a b : ℕ) → AddsUp (count_file m (a, b)) (a, b) (counts_of m)
unfolding count_file
count_file_lem [] a b = omega arith
count_file_lem ((k, n) ∷ m) a b = omega (
  arith,
  count_file_lem m (if is_positive n then a + 1 else a) (b + 1),
  one_more (is_positive n) a,
)

count_files_lem : (m : FileHits) (acc : ℕ × ℕ) → AddsUp (count_files m acc) acc (all_counts m)
unfolding count_files
count_files_lem [] acc = omega arith
count_files_lem ((f, h) ∷ m) acc = omega (
  arith,
  count_file_lem (entries h) acc.0 acc.1,
  count_files_lem m (count_file (entries h) acc),
  positives-append (counts_of (entries h)) (all_counts m),
  length-append (counts_of (entries h)) (all_counts m),
)

-- The counts behind the coverage percentage: the total is the number of executable positions, and
-- the covered ones are those with a positive count, so they are no more than the total; there is
-- something to measure exactly when there is a position.
executable_counts :
    (c : Coverage)
    → ((executable_position_counts c).0 ≡ positives (all_counts c.positions))
      × ((executable_position_counts c).1 ≡ length (all_counts c.positions))
      × ((executable_position_counts c).0 ≤ (executable_position_counts c).1)
      × ((has_executable_positions c ≡ true) ↔ (all_counts c.positions ≢ []))
executable_counts c =
    let (covered, total) = count_files_lem c.positions (0, 0) in
    (
      omega arith,
      omega arith,
      omega (arith, positives-le-length (all_counts c.positions)),
      (
        (λ t e. measured (all_counts c.positions) (executable_position_counts c).1 total t e),
        (λ h. total_pos (all_counts c.positions) (executable_position_counts c).1 total h),
      ),
    )
  where
    measured : (ns : List ℕ) (t : ℕ) → t ≡ 0 + length ns → ltb 0 t ≡ true → ns ≡ [] → ⊥
    measured [] t e h k = ground arith
    measured (n ∷ ns) t e h k = cc

    total_pos : (ns : List ℕ) (t : ℕ) → t ≡ 0 + length ns → ns ≢ [] → ltb 0 t ≡ true
    total_pos [] t e h = absurd (h refl)
    total_pos (n ∷ ns) t e h = ground arith

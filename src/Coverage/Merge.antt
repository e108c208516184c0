-- ===== src/Coverage/Merge.antt =====
-- What `mergeInto` and `Merge` compute: position by position sums of hit counts.
use pgcov.Base.{
  ℕ, ◌+◌, ◌%◌, ◌<◌, Bool, true, false, none, some, List, [], ◌∷◌, if◌then◌else◌, ◌&&◌, Bytes,
  bytes_eq, bytes_eq_iff, ◌≡◌, refl, ap, ◌∙◌, inl, inr, arith, Bool-cases, All, subst, ◌≢◌,
}
use pgcov.Decimal.{modulus}
use pgcov.Dict.{lookup, Uniq, keys}
use pgcov.Dict.Laws.{lookup_absent, lookup_here, lookup_there}
use pgcov.Coverage.{
  PositionHits, FileHits, entries, index_file, find_hits, hits, value_or_zero, ensure_file,
  set_hits, add_int, merge_file, merge_into, AllHits,
}
use pgcov.Coverage.Positions.{
  find_hits-set_hits, find_hits-ensure_file, find_hits-entries, index_file-cons,
}

lookup_nil : (k : Bytes) → lookup {V = ℕ} k [] ≡ none
unfolding lookup
lookup_nil k = refl

value_nil : (k : Bytes) → value_or_zero (lookup k []) ≡ 0
value_nil k = rw (lookup_nil k)

index_file-none : (g : Bytes) (m : FileHits) → lookup g m ≡ none → index_file g m ≡ none
unfolding index_file
index_file-none g m e = rw (index_file, e)

pub hits_nil : (g j : Bytes) → hits [] g j ≡ 0
unfolding find_hits index_file lookup
hits_nil g j = refl

hits-set_hits :
    (m : FileHits) (f k g j : Bytes) (n : ℕ)
    → hits (set_hits m f k n) g j ≡ (if bytes_eq f g && bytes_eq k j then n else hits m g j)
hits-set_hits m f k g j n = ground (arith, find_hits-set_hits m f k g j n)

abbrev file_hits : List (Bytes × ℕ) → Bytes → ℕ
file_hits m k = value_or_zero (lookup k m)

file_hits-cons :
    (k j : Bytes) (n : ℕ) (m : List (Bytes × ℕ))
    → file_hits ((k, n) ∷ m) j ≡ (if bytes_eq k j then n else file_hits m j)
file_hits-cons k j n m = elim (Bool-cases (bytes_eq k j)) [
  | inl e ↦ rw (lookup_here k j n m e, e)
  | inr e ↦ rw (lookup_there k j n m e, e)
]

-- After its own key no later entry of a map changes that count.
file_hits-absent :
    (k j : Bytes) (n : ℕ) (m : List (Bytes × ℕ))
    → Uniq ((k, n) ∷ m)
    → bytes_eq k j ≡ true
    → file_hits m j ≡ 0
file_hits-absent k j n m u e =
    rw (lookup_absent j m (subst (λ x. All (λ i. i ≢ x) (keys m)) ((bytes_eq_iff k j).0 e) u.0))

-- One `dst[file][posKey] += hits`.
hits_add :
    (dst : FileHits) (f k g j : Bytes) (n : ℕ)
    → hits (set_hits dst f k (add_int (hits dst f k) n)) g j
      ≡ (if bytes_eq f g && bytes_eq k j then add_int (hits dst g j) n else hits dst g j)
hits_add dst f k g j n = elim (Bool-cases (bytes_eq f g && bytes_eq k j)) [
  | inl e ↦
      let ef : f ≡ g = (bytes_eq_iff f g).0 (ground arith) in
      let ek : k ≡ j = (bytes_eq_iff k j).0 (ground arith) in
      rw (hits-set_hits dst f k g j (add_int (hits dst f k) n), e, ef, ek)
  | inr e ↦ rw (hits-set_hits dst f k g j (add_int (hits dst f k) n), e)
]

hits_add-lt :
    (dst : FileHits) (f k g j : Bytes) (n : ℕ)
    → hits dst g j < modulus
    → hits (set_hits dst f k (add_int (hits dst f k) n)) g j < modulus
hits_add-lt dst f k g j n b = elim (Bool-cases (bytes_eq f g && bytes_eq k j)) [
  | inl e ↦ rw (hits_add dst f k g j n, e) (omega arith)
  | inr e ↦ rw (hits_add dst f k g j n, e) b
]

-- A count before the loops, and what they add to it.
abbrev summed : Bool → ℕ → ℕ → ℕ
summed here before more = if here then (before + more) % modulus else before

summed_step :
    (f k : Bool) (v n r s x y : ℕ)
    → v < modulus
    → x ≡ (if f && k then add_int v n else v)
    → y ≡ summed f x r
    → s ≡ (if k then n else r)
    → (k ≡ true → r ≡ 0)
    → y ≡ summed f v s
summed_step true true v n r s x y b p q t z = omega (arith, z refl)
summed_step true false v n r s x y b p q t z = omega arith
summed_step false k v n r s x y b p q t z = q ∙ p

summed_zero : (here : Bool) (v : ℕ) → v < modulus → v ≡ summed here v 0
summed_zero true v b = omega arith
summed_zero false v b = refl

-- The inner loop adds one file's counts.
hits-merge_file :
    (m : List (Bytes × ℕ)) (dst : FileHits) (f g j : Bytes)
    → Uniq m
    → hits dst g j < modulus
    → hits (merge_file dst f m) g j ≡ summed (bytes_eq f g) (hits dst g j) (file_hits m j)
unfolding merge_file
hits-merge_file [] dst f g j u b = summed_zero (bytes_eq f g) (hits dst g j) b
hits-merge_file ((k, n) ∷ m) dst f g j u b =
    let dst' = set_hits dst f k (add_int (hits dst f k) n) in
    summed_step (bytes_eq f g) (bytes_eq k j) (hits dst g j) n (file_hits m j)
      (file_hits ((k, n) ∷ m) j) (hits dst' g j) (hits (merge_file dst' f m) g j) b
      (hits_add dst f k g j n) (hits-merge_file m dst' f g j u.1 (hits_add-lt dst f k g j n b))
      (file_hits-cons k j n m) (file_hits-absent k j n m u)

hits-cons :
    (f g j : Bytes) (h : PositionHits) (m : FileHits)
    → hits ((f, h) ∷ m) g j ≡ (if bytes_eq f g then file_hits (entries h) j else hits m g j)
hits-cons f g j h m = elim (Bool-cases (bytes_eq f g)) [
  | inl e ↦ rw (find_hits-entries ((f, h) ∷ m) g j, index_file-cons f g h m, e)
  | inr e ↦
      rw (find_hits-entries ((f, h) ∷ m) g j, index_file-cons f g h m, e, find_hits-entries m g j)
]

hits-absent :
    (f g j : Bytes) (h : PositionHits) (m : FileHits)
    → Uniq ((f, h) ∷ m)
    → bytes_eq f g ≡ true
    → hits m g j ≡ 0
hits-absent f g j h m u e =
    let gone : lookup g m ≡ none =
      lookup_absent g m (subst (λ x. All (λ i. i ≢ x) (keys m)) ((bytes_eq_iff f g).0 e) u.0) in
    rw (find_hits-entries m g j, index_file-none g m gone, lookup_nil j)

hits-ensure_file : (f g j : Bytes) (m : FileHits) → hits (ensure_file f m) g j ≡ hits m g j
hits-ensure_file f g j m = ap value_or_zero (find_hits-ensure_file f g j m)

total_step :
    (f : Bool) (v n r s x y : ℕ)
    → v < modulus
    → x ≡ summed f v n
    → y ≡ (x + r) % modulus
    → s ≡ (if f then n else r)
    → (f ≡ true → r ≡ 0)
    → y ≡ (v + s) % modulus
total_step true v n r s x y b p q t z = omega (arith, z refl)
total_step false v n r s x y b p q t z = omega arith

summed-lt : (f : Bool) (v n x : ℕ) → v < modulus → x ≡ summed f v n → x < modulus
summed-lt true v n x b p = omega arith
summed-lt false v n x b p = omega arith

-- `mergeInto` adds, at every position, the source's count to the destination's, as an `int` does.
pub hits-merge_into :
    (src dst : FileHits) (g j : Bytes)
    → Uniq src
    → AllHits src
    → hits dst g j < modulus
    → hits (merge_into dst src) g j ≡ (hits dst g j + hits src g j) % modulus
unfolding merge_into
hits-merge_into [] dst g j u a b = omega (arith, hits_nil g j)
hits-merge_into ((f, none) ∷ src) dst g j u a b =
    total_step (bytes_eq f g) (hits dst g j) 0 (hits src g j) (hits ((f, none) ∷ src) g j)
      (hits dst g j) (hits (merge_into dst src) g j) b (summed_zero (bytes_eq f g) (hits dst g j) b)
      (hits-merge_into src dst g j u.1 a.1 b)
      (hits-cons f g j none src ∙ ap (λ n. if bytes_eq f g then n else hits src g j) (value_nil j))
      (hits-absent f g j none src u)
hits-merge_into ((f, some m) ∷ src) dst g j u a b =
    let dst' = merge_file (ensure_file f dst) f m in
    let added : hits dst' g j ≡ summed (bytes_eq f g) (hits dst g j) (file_hits m j) =
      hits-merge_file m (ensure_file f dst) f g j a.0 (rw (hits-ensure_file f g j dst) b)
      ∙ ap (λ v. summed (bytes_eq f g) v (file_hits m j)) (hits-ensure_file f g j dst) in
    total_step (bytes_eq f g) (hits dst g j) (file_hits m j) (hits src g j)
      (hits ((f, some m) ∷ src) g j) (hits dst' g j) (hits (merge_into dst' src) g j) b added
      (hits-merge_into src dst' g j u.1 a.1
        (summed-lt (bytes_eq f g) (hits dst g j) (file_hits m j) (hits dst' g j) b added))
      (hits-cons f g j (some m) src) (hits-absent f g j (some m) src u)

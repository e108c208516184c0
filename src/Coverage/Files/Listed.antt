-- ===== src/Coverage/Files/Listed.antt =====
-- Which files are listed, and in which order.
use pgcov.Base.{
  Bool, true, false, ◌||◌, Option, none, some, List, [], ◌∷◌, Bytes, bytes_eq, All, ◌≡◌, ◌≢◌, refl,
  ap, ◌∙◌, arith, inl, inr, Bool-cases,
}
use pgcov.Text.Order.{bytes_leb, insert_sorted, sort_strings}
use pgcov.Dict.{lookup, insert, keys, Uniq}
use pgcov.Dict.Laws.{lookup-insert, insert-Uniq}
use pgcov.Coverage.{FileHits, Coverage}
use pgcov.Coverage.Files.{seen_from, get_files}

abbrev pub is_in : Bytes → List Bytes → Bool
is_in f [] = false
is_in f (g ∷ gs) = bytes_eq g f || is_in f gs

abbrev pub known {ℓ} : {A : Type ℓ} → Option A → Bool
known none = false
known (some x) = true

-- The first text is smaller than the head of the second list.
abbrev pub Below : Bytes → List Bytes → Type 0
Below s [] = Unit
Below s (t ∷ ts) = bytes_leb t s ≡ false

-- Strictly ascending, so that nothing stands twice.
abbrev pub Ascending : List Bytes → Type 0
Ascending [] = Unit
Ascending (s ∷ ss) = Below s ss × Ascending ss

leb_antisym : (s t : Bytes) → bytes_leb s t ≡ true → bytes_leb t s ≡ true → s ≡ t
unfolding bytes_leb
leb_antisym [] [] a b = refl
leb_antisym [] (d ∷ t) a b = cc
leb_antisym (c ∷ s) [] a b = cc
leb_antisym (c ∷ s) (d ∷ t) a b =
    let same : c ≡ d = ground (arith, a, b) in
    let one : bytes_leb s t ≡ true = ground (arith, a, b) in
    let two : bytes_leb t s ≡ true = ground (arith, a, b) in rw (same, leb_antisym s t one two)

Below-insert_sorted :
    (x s : Bytes) (ts : List Bytes)
    → bytes_leb s x ≡ false
    → Below x ts
    → Below x (insert_sorted s ts)
unfolding insert_sorted
Below-insert_sorted x s [] a b = a
Below-insert_sorted x s (t ∷ ts) a b = elim (Bool-cases (bytes_leb s t)) [
  | inl e ↦ rw e a
  | inr e ↦ rw e b
]

insert_sorted-Ascending :
    (s : Bytes) (ts : List Bytes)
    → All (λ t. t ≢ s) ts
    → Ascending ts
    → Ascending (insert_sorted s ts)
unfolding insert_sorted
insert_sorted-Ascending s [] h a = (tt, tt)
insert_sorted-Ascending s (t ∷ ts) h a = elim (Bool-cases (bytes_leb s t)) [
  | inl e ↦
      let strict : bytes_leb t s ≡ false = elim (Bool-cases (bytes_leb t s)) [
        | inl k ↦ absurd (h.0 (leb_antisym t s k e))
        | inr k ↦ k
      ] in
      rw e (strict, a)
  | inr e ↦ rw e (Below-insert_sorted t s ts e a.0, insert_sorted-Ascending s ts h.1 a.1)
]

All-into {κ} :
    (P : Bytes → Type κ) (s : Bytes) (ts : List Bytes) → P s → All P ts → All P (insert_sorted s ts)
unfolding insert_sorted
All-into P s [] p h = (p, tt)
All-into P s (t ∷ ts) p h = elim (Bool-cases (bytes_leb s t)) [
  | inl e ↦ rw e (p, h)
  | inr e ↦ rw e (h.0, All-into P s ts p h.1)
]

All-sorted {κ} : (P : Bytes → Type κ) (ss : List Bytes) → All P ss → All P (sort_strings ss)
unfolding sort_strings
All-sorted P [] h = tt
All-sorted P (s ∷ ss) h = All-into P s (sort_strings ss) h.0 (All-sorted P ss h.1)

sort_keys-Ascending : (m : List (Bytes × Unit {0})) → Uniq m → Ascending (sort_strings (keys m))
unfolding sort_strings
sort_keys-Ascending [] u = tt
sort_keys-Ascending ((k, v) ∷ m) u =
    insert_sorted-Ascending k (sort_strings (keys m)) (All-sorted (λ j. j ≢ k) (keys m) u.0)
      (sort_keys-Ascending m u.1)

is_in-insert_sorted :
    (f s : Bytes) (ts : List Bytes) → is_in f (insert_sorted s ts) ≡ (bytes_eq s f || is_in f ts)
unfolding insert_sorted
is_in-insert_sorted f s [] = refl
is_in-insert_sorted f s (t ∷ ts) = ground (arith, is_in-insert_sorted f s ts)

is_in-sort_keys :
    (f : Bytes) (m : List (Bytes × Unit {0})) → is_in f (sort_strings (keys m)) ≡ known (lookup f m)
unfolding sort_strings lookup
is_in-sort_keys f [] = refl
is_in-sort_keys f ((k, v) ∷ m) =
    is_in-insert_sorted f k (sort_strings (keys m)) ∙ ground (arith, is_in-sort_keys f m)

known-seen_from :
    (f : Bytes) (m : FileHits) (acc : List (Bytes × Unit {0}))
    → known (lookup f (seen_from acc m)) ≡ (known (lookup f m) || known (lookup f acc))
unfolding seen_from lookup
known-seen_from f [] acc = refl
known-seen_from f ((file, h) ∷ m) acc =
    known-seen_from f m (insert file tt acc) ∙ rw (lookup-insert file f tt acc) (ground arith)

seen_from-Uniq : (m : FileHits) (acc : List (Bytes × Unit {0})) → Uniq acc → Uniq (seen_from acc m)
unfolding seen_from
seen_from-Uniq [] acc u = u
seen_from-Uniq ((file, h) ∷ m) acc u =
    seen_from-Uniq m (insert file tt acc) (insert-Uniq file tt acc u)

-- The files of GetFiles are strictly ascending by their bytes, so none is listed twice, and a file is
-- among them exactly when it has an entry among the executable or the implicit positions.
get_files_lem :
    (c : Coverage)
    → Ascending (get_files c)
      × ((f : Bytes)
          → is_in f (get_files c)
            ≡ (known (lookup f c.implicit_positions) || known (lookup f c.positions)))
unfolding get_files lookup
get_files_lem c =
    let execs = seen_from [] c.positions in
    (
      sort_keys-Ascending (seen_from execs c.implicit_positions)
          (seen_from-Uniq c.implicit_positions execs (seen_from-Uniq c.positions [] tt)),
      λ f.
          is_in-sort_keys f (seen_from execs c.implicit_positions)
          ∙ known-seen_from f c.implicit_positions execs
          ∙ ap (λ b. known (lookup f c.implicit_positions) || b) (known-seen_from f c.positions [])
          ∙ ground arith,
    )

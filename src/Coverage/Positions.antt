-- ===== src/Coverage/Positions.antt =====
-- What one write changes, and that writes keep the data well formed.
use pgcov.Base.{
  ℕ, none, some, List, [], ◌∷◌, if◌then◌else◌, ◌&&◌, Bytes, bytes_eq, bytes_eq_iff, ◌≡◌, refl, ap,
  ◌∙◌, inl, inr, arith, Bool-cases, Option-cases, subst,
}
use pgcov.Dict.{lookup, insert, Uniq}
use pgcov.Dict.Laws.{lookup-insert, insert-Uniq}
use pgcov.Key.{format_position_key}
use pgcov.Coverage.{
  PositionHits, FileHits, Coverage, entries, index_file, find_hits, ensure_file, set_hits,
  add_position, add_implicit_position, AllHits, IsWf,
}

index_file-insert :
    (f g : Bytes) (h : PositionHits) (m : FileHits)
    → index_file g (insert f h m) ≡ (if bytes_eq f g then h else index_file g m)
unfolding index_file
index_file-insert f g h m = ground (arith, lookup-insert f g h m)

pub ensure_file-none :
    (f : Bytes) (m : FileHits) → index_file f m ≡ none → ensure_file f m ≡ insert f (some []) m
unfolding ensure_file
ensure_file-none f m e = rw (ensure_file, e)

pub ensure_file-some :
    (f : Bytes) (m : FileHits) {h : List (Bytes × ℕ)}
    → index_file f m ≡ some h
    → ensure_file f m ≡ m
unfolding ensure_file
ensure_file-some f m e = rw (ensure_file, e)

entries-ensure_file :
    (f g : Bytes) (m : FileHits)
    → entries (index_file g (ensure_file f m)) ≡ entries (index_file g m)
entries-ensure_file f g m = elim (Option-cases (index_file f m)) [
  | inl e ↦ elim (Bool-cases (bytes_eq f g)) [
    | inl s ↦
        let o : index_file g m ≡ none =
          subst (λ x. index_file x m ≡ none) ((bytes_eq_iff f g).0 s) e in
        rw (ensure_file-none f m e, index_file-insert f g (some []) m, s, o)
    | inr d ↦ rw (ensure_file-none f m e, index_file-insert f g (some []) m, d)
  ]
  | inr (h, e) ↦ rw (ensure_file-some f m e)
]

-- Making the inner map changes no count.
pub find_hits-ensure_file :
    (f g k : Bytes) (m : FileHits) → find_hits (ensure_file f m) g k ≡ find_hits m g k
unfolding find_hits
find_hits-ensure_file f g k m = ap (lookup k) (entries-ensure_file f g m)

pub find_hits-entries :
    (m : FileHits) (f k : Bytes) → find_hits m f k ≡ lookup k (entries (index_file f m))
unfolding find_hits
find_hits-entries m f k = refl

-- A write is read back, and no other count changes.
pub find_hits-set_hits :
    (m : FileHits) (f k g j : Bytes) (n : ℕ)
    → find_hits (set_hits m f k n) g j
      ≡ (if bytes_eq f g && bytes_eq k j then some n else find_hits m g j)
unfolding set_hits
find_hits-set_hits m f k g j n = elim (Bool-cases (bytes_eq f g)) [
  | inl e ↦
      let same : f ≡ g = (bytes_eq_iff f g).0 e in
      rw (
        find_hits-entries _ g j,
        index_file-insert f g _ m,
        e,
        lookup-insert k j n (entries (index_file f m)),
        find_hits-entries m g j,
        same,
      )
  | inr e ↦ rw (find_hits-entries _ g j, index_file-insert f g _ m, e, find_hits-entries m g j)
]

-- The count at one position after `AddPosition`; the implicit positions are left alone.
pub add_position_lem :
    (c : Coverage) (f g k : Bytes) (s l n : ℕ)
    → (find_hits (add_position c f s l n).positions g k ≡ (
        if bytes_eq f g && bytes_eq (format_position_key s l) k
        then some n
        else find_hits c.positions g k))
      × ((add_position c f s l n).implicit_positions ≡ c.implicit_positions)
unfolding add_position
add_position_lem c f g k s l n = (
  find_hits-set_hits (ensure_file f c.positions) f (format_position_key s l) g k n
      ∙ ap (λ o. if bytes_eq f g && bytes_eq (format_position_key s l) k then some n else o)
          (find_hits-ensure_file f g k c.positions),
  refl,
)

pub add_implicit_position_lem :
    (c : Coverage) (f g k : Bytes) (s l n : ℕ)
    → (find_hits (add_implicit_position c f s l n).implicit_positions g k ≡ (
        if bytes_eq f g && bytes_eq (format_position_key s l) k
        then some n
        else find_hits c.implicit_positions g k))
      × ((add_implicit_position c f s l n).positions ≡ c.positions)
unfolding add_implicit_position
add_implicit_position_lem c f g k s l n = (
  find_hits-set_hits (ensure_file f c.implicit_positions) f (format_position_key s l) g k n
      ∙ ap (λ o. if bytes_eq f g && bytes_eq (format_position_key s l) k then some n else o)
          (find_hits-ensure_file f g k c.implicit_positions),
  refl,
)

AllHits-insert :
    (f : Bytes) (h : PositionHits) (m : FileHits)
    → Uniq (entries h)
    → AllHits m
    → AllHits (insert f h m)
unfolding insert
AllHits-insert f h [] u a = (u, tt)
AllHits-insert f h ((g, w) ∷ m) u a = elim (Bool-cases (bytes_eq g f)) [
  | inl e ↦ rw e (u, a.1)
  | inr e ↦ rw e (a.0, AllHits-insert f h m u a.1)
]

pub index_file-cons :
    (f g : Bytes) (h : PositionHits) (m : FileHits)
    → index_file g ((f, h) ∷ m) ≡ (if bytes_eq f g then h else index_file g m)
unfolding index_file lookup
index_file-cons f g h m = ground arith

pub index_file-nil : (f : Bytes) → index_file f [] ≡ none
unfolding index_file lookup
index_file-nil f = refl

index_file-Uniq : (f : Bytes) (m : FileHits) → AllHits m → Uniq (entries (index_file f m))
index_file-Uniq f [] a = rw (index_file-nil f) tt
index_file-Uniq f ((g, w) ∷ m) a = elim (Bool-cases (bytes_eq g f)) [
  | inl e ↦ rw (index_file-cons g f w m, e) a.0
  | inr e ↦ rw (index_file-cons g f w m, e) (index_file-Uniq f m a.1)
]

pub set_hits-IsWf : (m : FileHits) (f k : Bytes) (n : ℕ) → IsWf m → IsWf (set_hits m f k n)
unfolding set_hits
set_hits-IsWf m f k n w = record {
  files = insert-Uniq f _ m w.files;
  inner = AllHits-insert f _ m (insert-Uniq k n _ (index_file-Uniq f m w.inner)) w.inner;
}

pub ensure_file-IsWf : (f : Bytes) (m : FileHits) → IsWf m → IsWf (ensure_file f m)
ensure_file-IsWf f m w = elim (Option-cases (index_file f m)) [
  | inl e ↦ rw (ensure_file-none f m e) (record {
    files = insert-Uniq f (some []) m w.files;
    inner = AllHits-insert f (some []) m tt w.inner;
  })
  | inr (h, e) ↦ rw (ensure_file-some f m e) w
]

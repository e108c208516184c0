-- ===== src/Coverage/Texts.antt =====
-- Coverage whose strings are all UTF-8 (internal/coverage/model.go), which is what JSON can carry.
use pgcov.Base.{
  ℕ, true, Option, none, some, List, [], ◌∷◌, Bytes, bytes_eq, ◌≡◌, refl, subst, inl, inr,
  Bool-cases, Option-cases, ◌+◌, ok, err, Result,
}
use pgcov.Dict.{insert}
use pgcov.Text.Utf8.{is_utf8}
use pgcov.Coverage.{
  PositionHits, FileHits, Coverage, VersionError, entries, index_file, ensure_file, set_hits,
  merge_file, merge_into, merge_step, merge_from, merge, new_coverage, validate_version,
}
use pgcov.Coverage.Positions.{index_file-cons, index_file-nil, ensure_file-none, ensure_file-some}

abbrev pub IsUtf8 : Bytes → Type 0
IsUtf8 s = is_utf8 s ≡ true

-- All keys of a map are UTF-8.
abbrev pub AllKeys : List (Bytes × ℕ) → Type 0
AllKeys [] = Unit
AllKeys ((k, n) ∷ m) = IsUtf8 k × AllKeys m

-- All file names, and all positions of each.
abbrev pub AllNames : FileHits → Type 0
AllNames [] = Unit
AllNames ((f, h) ∷ m) = IsUtf8 f × AllKeys (entries h) × AllNames m

pub record IsText (c : Coverage) : Type 0 where
  pub version : IsUtf8 c.version
  pub root : IsUtf8 c.root
  pub executable : AllNames c.positions
  pub implicit : AllNames c.implicit_positions

-- Every input that is not nil.
abbrev pub AllText : List (Option Coverage) → Type 0
AllText [] = Unit
AllText (none ∷ cs) = AllText cs
AllText (some c ∷ cs) = IsText c × AllText cs

insert-AllKeys :
    (k : Bytes) (n : ℕ) (m : List (Bytes × ℕ)) → IsUtf8 k → AllKeys m → AllKeys (insert k n m)
unfolding insert
insert-AllKeys k n [] u a = (u, tt)
insert-AllKeys k n ((j, w) ∷ m) u a = elim (Bool-cases (bytes_eq j k)) [
  | inl e ↦ rw e (u, a.1)
  | inr e ↦ rw e (a.0, insert-AllKeys k n m u a.1)
]

insert-AllNames :
    (f : Bytes) (h : PositionHits) (m : FileHits)
    → IsUtf8 f
    → AllKeys (entries h)
    → AllNames m
    → AllNames (insert f h m)
unfolding insert
insert-AllNames f h [] u k a = (u, k, tt)
insert-AllNames f h ((g, w) ∷ m) u k (b, c, a) = elim (Bool-cases (bytes_eq g f)) [
  | inl e ↦ rw e (u, k, a)
  | inr e ↦ rw e (b, c, insert-AllNames f h m u k a)
]

index_file-AllKeys : (f : Bytes) (m : FileHits) → AllNames m → AllKeys (entries (index_file f m))
index_file-AllKeys f [] a = rw (index_file-nil f) tt
index_file-AllKeys f ((g, w) ∷ m) (b, c, a) = elim (Bool-cases (bytes_eq g f)) [
  | inl e ↦ rw (index_file-cons g f w m, e) c
  | inr e ↦ rw (index_file-cons g f w m, e) (index_file-AllKeys f m a)
]

set_hits-AllNames :
    (m : FileHits) (f k : Bytes) (n : ℕ)
    → IsUtf8 f
    → IsUtf8 k
    → AllNames m
    → AllNames (set_hits m f k n)
unfolding set_hits
set_hits-AllNames m f k n u v a =
    insert-AllNames f _ m u (insert-AllKeys k n _ v (index_file-AllKeys f m a)) a

ensure_file-AllNames :
    (f : Bytes) (m : FileHits) → IsUtf8 f → AllNames m → AllNames (ensure_file f m)
ensure_file-AllNames f m u a = elim (Option-cases (index_file f m)) [
  | inl e ↦ rw (ensure_file-none f m e) (insert-AllNames f (some []) m u tt a)
  | inr (h, e) ↦ rw (ensure_file-some f m e) a
]

merge_file-AllNames :
    (f : Bytes) (m : List (Bytes × ℕ)) (dst : FileHits)
    → IsUtf8 f
    → AllKeys m
    → AllNames dst
    → AllNames (merge_file dst f m)
unfolding merge_file
merge_file-AllNames f [] dst u k a = a
merge_file-AllNames f ((p, n) ∷ m) dst u (v, k) a =
    merge_file-AllNames f m _ u k (set_hits-AllNames dst f p _ u v a)

merge_into-AllNames :
    (src dst : FileHits) → AllNames src → AllNames dst → AllNames (merge_into dst src)
unfolding merge_into
merge_into-AllNames [] dst s a = a
merge_into-AllNames ((f, none) ∷ src) dst (u, k, s) a = merge_into-AllNames src dst s a
merge_into-AllNames ((f, some m) ∷ src) dst (u, k, s) a =
    merge_into-AllNames src _ s (merge_file-AllNames f m _ u k (ensure_file-AllNames f dst u a))

merge_step-IsText : (r c : Coverage) → IsText r → IsText c → IsText (merge_step r c)
unfolding merge_step
merge_step-IsText r c a b = record {
  version = a.version;
  root = elim (Bool-cases (bytes_eq r.root [])) [ inl e ↦ rw e b.root | inr e ↦ rw e a.root ];
  executable = merge_into-AllNames c.positions r.positions b.executable a.executable;
  implicit = merge_into-AllNames c.implicit_positions r.implicit_positions b.implicit a.implicit;
}

-- A merge that succeeds goes on behind each input.
merge_from-behind :
    (i : ℕ) (result c r : Coverage) (cs : List (Option Coverage))
    (v : Result VersionError (Unit {0}))
    → validate_version (some c) ≡ v
    → merge_from i result (some c ∷ cs) ≡ ok r
    → merge_from (i + 1) (merge_step result c) cs ≡ ok r
unfolding merge_from
merge_from-behind i result c r cs (ok _) q e = rw (merge_from, q) at e
merge_from-behind i result c r cs (err f) q e = cc (rw (merge_from, q) at e)

merge_from-IsText :
    (i : ℕ) (cs : List (Option Coverage)) (result r : Coverage)
    → AllText cs
    → IsText result
    → merge_from i result cs ≡ ok r
    → IsText r
unfolding merge_from
merge_from-IsText i [] result r t a e = let same : result ≡ r = cc in subst IsText same a
merge_from-IsText i (none ∷ cs) result r t a e = merge_from-IsText (i + 1) cs result r t a e
merge_from-IsText i (some c ∷ cs) result r (b, t) a e =
    merge_from-IsText (i + 1) cs (merge_step result c) r t (merge_step-IsText result c a b)
      (merge_from-behind i result c r cs _ refl e)

-- A merge of coverage with strings in UTF-8 has strings in UTF-8.
pub merge-IsText :
    (now : ℕ) (cs : List (Option Coverage)) (r : Coverage)
    → AllText cs
    → merge now cs ≡ ok r
    → IsText r
unfolding merge new_coverage is_utf8
merge-IsText now cs r t e =
    merge_from-IsText 0 cs _ r t
      (record { version = refl; root = refl; executable = tt; implicit = tt }) e

-- ===== src/Dict/Laws.antt =====
-- The laws of the maps.
use pgcov.Base.{
  true, false, List, [], ◌∷◌, Option, none, some, if◌then◌else◌, Bytes, bytes_eq, bytes_eq_iff,
  bytes_eq_refl, ◌≡◌, ◌≢◌, refl, sym, subst, inl, inr, All, arith, Bool-cases,
}
use pgcov.Dict.{lookup, insert, copy, keys, Uniq}

pub bytes_eq_ne : (a b : Bytes) → a ≢ b → bytes_eq a b ≡ false
bytes_eq_ne a b h = elim (Bool-cases (bytes_eq a b)) [
  | inl e ↦ absurd (h ((bytes_eq_iff a b).0 e))
  | inr e ↦ e
]

module _ {ℓ} {V : Type ℓ} where
  pub lookup-insert :
      (k j : Bytes) (v : V) (m : List (Bytes × V))
      → lookup j (insert k v m) ≡ (if bytes_eq k j then some v else lookup j m)
  unfolding lookup insert
  lookup-insert k j v [] = refl
  lookup-insert k j v ((i, w) ∷ m) =
      ground (arith, bytes_eq_iff k j, bytes_eq_iff i k, bytes_eq_iff i j, lookup-insert k j v m)

  pub lookup-insert_self :
      (k : Bytes) (v : V) (m : List (Bytes × V)) → lookup k (insert k v m) ≡ some v
  lookup-insert_self k v m = rw (lookup-insert k k v m, bytes_eq_refl k)

  pub lookup-insert_ne :
      (k j : Bytes) (v : V) (m : List (Bytes × V)) → k ≢ j → lookup j (insert k v m) ≡ lookup j m
  lookup-insert_ne k j v m h = rw (lookup-insert k j v m, bytes_eq_ne k j h)

  -- A key that does not occur has no value.
  pub lookup_absent :
      (k : Bytes) (m : List (Bytes × V)) → All (λ j. j ≢ k) (keys m) → lookup k m ≡ none
  unfolding lookup
  lookup_absent k [] h = refl
  lookup_absent k ((j, v) ∷ m) h = rw (bytes_eq_ne j k h.0) (lookup_absent k m h.1)

  insert-absent :
      (k i : Bytes) (v : V) (m : List (Bytes × V))
      → All (λ j. j ≢ i) (keys m)
      → k ≢ i
      → All (λ j. j ≢ i) (keys (insert k v m))
  unfolding insert
  insert-absent k i v [] h n = (n, tt)
  insert-absent k i v ((j, w) ∷ m) h n = elim (Bool-cases (bytes_eq j k)) [
    | inl e ↦ rw e (n, h.1)
    | inr e ↦ rw e (h.0, insert-absent k i v m h.1 n)
  ]

  pub insert-Uniq : (k : Bytes) (v : V) (m : List (Bytes × V)) → Uniq m → Uniq (insert k v m)
  unfolding insert
  insert-Uniq k v [] u = (tt, tt)
  insert-Uniq k v ((j, w) ∷ m) u = elim (Bool-cases (bytes_eq j k)) [
    | inl e ↦ rw e (subst (λ x. All (λ i. i ≢ x) (keys m)) ((bytes_eq_iff j k).0 e) u.0, u.1)
    | inr e ↦ rw e (
      insert-absent k j v m u.0 (λ p. cc (e, (bytes_eq_iff j k).1 (sym p))),
      insert-Uniq k v m u.1,
    )
  ]

  pub lookup_here :
      (j k : Bytes) (v : V) (m : List (Bytes × V))
      → bytes_eq j k ≡ true
      → lookup k ((j, v) ∷ m) ≡ some v
  unfolding lookup
  lookup_here j k v m e = rw e

  pub lookup_there :
      (j k : Bytes) (v : V) (m : List (Bytes × V))
      → bytes_eq j k ≡ false
      → lookup k ((j, v) ∷ m) ≡ lookup k m
  unfolding lookup
  lookup_there j k v m e = rw e

  abbrev pub or_else : Option V → Option V → Option V
  or_else none o = o
  or_else (some v) o = some v

  -- A copied map holds the entries of `src`, and those of `dst` under the other keys.
  pub lookup-copy :
      (src dst : List (Bytes × V)) (k : Bytes)
      → Uniq src
      → lookup k (copy dst src) ≡ or_else (lookup k src) (lookup k dst)
  unfolding copy
  lookup-copy [] dst k u = rw (lookup_absent k [] tt)
  lookup-copy ((j, v) ∷ src) dst k u = elim (Bool-cases (bytes_eq j k)) [
    | inl e ↦
        let gone : lookup k src ≡ none =
          lookup_absent k src
            (subst (λ x. All (λ i. i ≢ x) (keys src)) ((bytes_eq_iff j k).0 e) u.0) in
        rw (
          lookup-copy src (insert j v dst) k u.1,
          gone,
          lookup-insert j k v dst,
          e,
          lookup_here j k v src e,
        )
    | inr e ↦ rw (
      lookup-copy src (insert j v dst) k u.1,
      lookup-insert j k v dst,
      e,
      lookup_there j k v src e,
    )
  ]

  pub copy-Uniq : (src dst : List (Bytes × V)) → Uniq dst → Uniq (copy dst src)
  unfolding copy
  copy-Uniq [] dst u = u
  copy-Uniq ((k, v) ∷ src) dst u = copy-Uniq src (insert k v dst) (insert-Uniq k v dst u)

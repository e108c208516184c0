-- ===== src/Discovery/Sources.antt =====
-- What discovery of the sources beside the tests returns.
use pgcov.Base.{
  Bool, true, false, ◌||◌, List, [], ◌∷◌, ◌++◌, if◌then◌else◌, Bytes, bytes_eq, bytes_eq_iff,
  bytes_eq_refl, Result, ok, >>=-ok, All, All-append, ◌≡◌, refl, sym, ap, ◌∙◌, subst, Bool-cases,
  inl, inr,
}
use pgcov.Discovery.{
  DiscoveredFile, Files, DiscoverError, discover_relative_to, is_source, seen, test_dirs, paths,
  add_sources, add_dirs, discover_co_located_sources,
}

-- Every file is a source.
abbrev pub AllSources : List DiscoveredFile → Type 0
AllSources = All (λ f. is_source f.ty ≡ true)

-- No path stands twice.
abbrev pub Distinct : List Bytes → Type 0
Distinct [] = Unit
Distinct (p ∷ ps) = seen p ps ≡ false × Distinct ps

or_left : (a b : Bool) → (a || b) ≡ false → a ≡ false × b ≡ false
or_left true b h = cc
or_left false b h = (refl, h)

bytes_eq_sym : (p q : Bytes) → bytes_eq p q ≡ false → bytes_eq q p ≡ false
bytes_eq_sym p q h = elim (Bool-cases (bytes_eq q p)) [
  | inl e ↦
      ap (λ x. bytes_eq x p) ((bytes_eq_iff q p).0 e)
      ∙ bytes_eq_refl p
      ∙ sym (bytes_eq_refl p)
      ∙ ap (λ x. bytes_eq p x) (sym ((bytes_eq_iff q p).0 e))
      ∙ h
  | inr e ↦ e
]

seen_last :
    (p q : Bytes) (ps : List Bytes)
    → seen p ps ≡ false
    → bytes_eq p q ≡ false
    → seen p (ps ++ (q ∷ [])) ≡ false
unfolding seen
seen_last p q [] h k = rw k refl
seen_last p q (r ∷ ps) h k =
    let (a, b) = or_left (bytes_eq p r) (seen p ps) h in rw a (seen_last p q ps b k)

pub Distinct-last :
    (p : Bytes) (ps : List Bytes) → Distinct ps → seen p ps ≡ false → Distinct (ps ++ (p ∷ []))
unfolding seen
Distinct-last p [] d h = (refl, tt)
Distinct-last p (q ∷ ps) (e, d) h =
    let (a, b) = or_left (bytes_eq p q) (seen p ps) h in
    (seen_last q p ps e (bytes_eq_sym p q a), Distinct-last p ps d b)

module _ (fs : Files) where
  paths_last :
      (sources : List DiscoveredFile) (f : DiscoveredFile)
      → paths (sources ++ (f ∷ [])) ≡ paths sources ++ (f.path ∷ [])
  paths_last [] f = refl
  paths_last (g ∷ sources) f = ap (◌∷◌ g.path) (paths_last sources f)

  abbrev pub Good : List DiscoveredFile → Type 0
  Good sources = AllSources sources × Distinct (paths sources)

  add_one :
      (a b : Bool) (sources : List DiscoveredFile) (f : DiscoveredFile)
      → is_source f.ty ≡ a
      → seen f.path (paths sources) ≡ b
      → Good sources
      → Good (if a then (if b then sources else sources ++ (f ∷ [])) else sources)
  add_one true true sources f h k g = g
  add_one true false sources f h k (s, d) = (
    All-append (λ x. is_source x.ty ≡ true) sources (f ∷ []) s (h, tt),
    subst Distinct (sym (paths_last sources f)) (Distinct-last f.path (paths sources) d k),
  )
  add_one false b sources f h k g = g

  add_sources-Good :
      (sources files : List DiscoveredFile) → Good sources → Good (add_sources fs sources files)
  unfolding add_sources
  add_sources-Good sources [] g = g
  add_sources-Good sources (f ∷ files) g =
      add_sources-Good
        (if is_source f.ty
          then (if seen f.path (paths sources) then sources else sources ++ (f ∷ []))
          else sources)
        files (add_one (is_source f.ty) (seen f.path (paths sources)) sources f refl refl g)

  Good-ok :
      (sources result : List DiscoveredFile)
      → Good sources
      → ◌≡◌ {A = Result DiscoverError (List DiscoveredFile)} (ok sources) (ok result)
      → Good result
  Good-ok sources result g h = let e : sources ≡ result = cc in subst Good e g

  add_dirs-Good :
      (root : Bytes) (sources : List DiscoveredFile) (dirs : List Bytes)
      (result : List DiscoveredFile)
      → Good sources
      → add_dirs fs root sources dirs ≡ ok result
      → Good result
  unfolding add_dirs
  add_dirs-Good root sources [] result g h = Good-ok sources result g h
  add_dirs-Good root sources (test_dir ∷ dirs) result g h =
      let (files, k, _) =
        >>=-ok (discover_relative_to fs test_dir root)
          (λ files. add_dirs fs root (add_sources fs sources files) dirs) result h in
      add_dirs-Good root (add_sources fs sources files) dirs result
        (add_sources-Good sources files g) k

  -- The files that are returned are sources, and no path is among them twice.
  pub discover_co_located_sources-Good :
      (root : Bytes) (test_files result : List DiscoveredFile)
      → discover_co_located_sources fs root test_files ≡ ok result
      → Good result
  unfolding discover_co_located_sources
  discover_co_located_sources-Good root test_files result h =
      add_dirs-Good root [] (test_dirs fs [] test_files) result (tt, tt) h

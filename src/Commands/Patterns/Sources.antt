-- ===== src/Commands/Patterns/Sources.antt =====
-- The sources that are listed by patterns.
use pgcov.Base.{
  ℕ, ◌≢◌, true, List, [], ◌∷◌, ◌++◌, if◌then◌else◌, Bytes, codes, false, bytes_eq, bytes_eq_refl,
  Result, ok, err, ◌>>=◌, >>=-ok, All, All_map, ◌≡◌, refl, sym, ap, subst, Bool-cases, inl, inr,
}
use pgcov.Text.{has_suffix, to_lower}
use pgcov.Text.Order.{sort_strings, All-sort_strings}
use pgcov.Discovery.{DiscoveredFile, Stat, Files, classify_file, is_source, seen, paths}
use pgcov.Discovery.Sources.{AllSources, Distinct, Distinct-last}
use pgcov.Commands.Patterns.{
  PatternError, resolved, add_matches, matches_of, expand_from, expand_patterns, with_relative,
  with_info, source_of, sources_of, root_of, explicit_sources,
}

-- Whatever path is in the first list is in the second.
abbrev Grows : List Bytes → List Bytes → Type 0
Grows files files' = (path : Bytes) → seen path files ≡ true → seen path files' ≡ true

seen-append :
    (path : Bytes) (files more : List Bytes)
    → seen path files ≡ true
    → seen path (files ++ more) ≡ true
unfolding seen
seen-append path [] more h = cc
seen-append path (f ∷ files) more h = elim (Bool-cases (bytes_eq path f)) [
  | inl e ↦ rw e refl
  | inr e ↦ rw e (seen-append path files more (rw e at h))
]

seen_at_end : (path : Bytes) (files : List Bytes) → seen path (files ++ (path ∷ [])) ≡ true
unfolding seen
seen_at_end path [] = rw (bytes_eq_refl path) refl
seen_at_end path (f ∷ files) = elim (Bool-cases (bytes_eq path f)) [
  | inl e ↦ rw e refl
  | inr e ↦ rw e (seen_at_end path files)
]

abbrev added : Bytes → List Bytes → List Bytes
added path files = if seen path files then files else files ++ (path ∷ [])

added_lem :
    (path : Bytes) (files : List Bytes)
    → Distinct files
    → Distinct (added path files)
      × Grows files (added path files)
      × (seen path (added path files) ≡ true)
added_lem path files d = elim (Bool-cases (seen path files)) [
  | inl e ↦ rw e (d, λ p h. h, e)
  | inr e ↦ rw e (
    Distinct-last path files d e,
    λ p h. seen-append p files (path ∷ []) h,
    seen_at_end path files,
  )
]

-- The name of a file of SQL that is no test, in any case of its letters.
abbrev pub IsSourceName : Bytes → Type 0
IsSourceName name =
    (has_suffix (to_lower name) (codes ".sql") ≡ true)
    × (has_suffix (to_lower name) (codes "_test.sql") ≡ false)

classify_file-IsSourceName :
    (name : Bytes) → is_source (classify_file name) ≡ true → IsSourceName name
unfolding classify_file
classify_file-IsSourceName name h = elim (Bool-cases (has_suffix (to_lower name) (codes ".sql"))) [
  | inl e ↦ elim (Bool-cases (has_suffix (to_lower name) (codes "_test.sql"))) [
    | inl q ↦ absurd (cc (rw (e, q) at h))
    | inr q ↦ (e, q)
  ]
  | inr e ↦ absurd (cc (rw e at h))
]

-- A record that is returned has the fields that were written.
with_value :
    (x source : DiscoveredFile)
    → ◌≡◌ {A = Result PatternError DiscoveredFile} (ok x) (ok source)
    → (source.path ≡ x.path) × (is_source source.ty ≡ is_source x.ty)
with_value x source h =
    let e : x ≡ source = cc in (ap (λ s. s.path) (sym e), ap (λ s. is_source s.ty) (sym e))

module _ (fs : Files) (glob : Bytes → Result Bytes (List Bytes)) (mod_time : Bytes → ℕ)
    (read_file : Bytes → Result Bytes Bytes) where
  -- The absolute path of the match is among the files.
  abbrev IsIn : List Bytes → Bytes → Type 0
  IsIn files m = (path : Bytes) × (fs.abs m ≡ ok path) × (seen path files ≡ true)

  IsIn-Grows :
      (files files' : List Bytes) → Grows files files' → (m : Bytes) → IsIn files m → IsIn files' m
  IsIn-Grows files files' g m (path, a, h) = (path, a, g path h)

  -- The pattern matches something, and the absolute path of each match is among the files.
  pub Covered : List Bytes → Bytes → Type 0
  Covered files p =
      (matches : List Bytes) × (glob p ≡ ok matches) × (matches ≢ []) × All (IsIn files) matches

  resolved-ok :
      (m : Bytes) (r : Result Bytes Bytes) (path : Bytes)
      → resolved fs glob mod_time read_file m r ≡ ok path
      → r ≡ ok path
  resolved-ok m (err e) path h = cc
  resolved-ok m (ok p) path h = cc

  matches_of-ok :
      (p : Bytes) (r : Result Bytes (List Bytes)) (matches : List Bytes)
      → matches_of fs glob mod_time read_file p r ≡ ok matches
      → (r ≡ ok matches) × (matches ≢ [])
  matches_of-ok p (err e) matches h = cc
  matches_of-ok p (ok []) matches h = cc
  matches_of-ok p (ok (m ∷ ms)) matches h = let e : (m ∷ ms) ≡ matches = cc in (ap ok e, λ k. cc)

  with_relative-ok :
      (f : Bytes) (rel : Result Bytes Bytes) (source : DiscoveredFile)
      → with_relative fs glob mod_time read_file f rel ≡ ok source
      → (source.path ≡ f) × (is_source source.ty ≡ true)
  with_relative-ok f (err e) source h = cc
  with_relative-ok f (ok rel) source h = with_value _ source h

  add_matches_lem :
      (matches files result : List Bytes)
      → Distinct files
      → add_matches fs glob mod_time read_file files matches ≡ ok result
      → Distinct result × Grows files result × All (IsIn result) matches
  unfolding add_matches
  add_matches_lem [] files result d h =
      let e : files ≡ result = cc in (subst Distinct e d, subst (Grows files) e (λ p k. k), tt)
  add_matches_lem (m ∷ matches) files result d h =
      let (path, k, r) =
        >>=-ok (resolved fs glob mod_time read_file m (fs.abs m))
          (λ path. add_matches fs glob mod_time read_file (added path files) matches) result h in
      let (d', g', here) = added_lem path files d in
      let (d'', g'', rest) = add_matches_lem matches (added path files) result d' k in
      (d'', λ p q. g'' p (g' p q), ((path, resolved-ok m (fs.abs m) path r, g'' path here), rest))

  expand_from_lem :
      (patterns files result : List Bytes)
      → Distinct files
      → expand_from fs glob mod_time read_file files patterns ≡ ok result
      → Distinct result × Grows files result × All (Covered result) patterns
  unfolding expand_from Covered
  expand_from_lem [] files result d h =
      let e : files ≡ result = cc in (subst Distinct e d, subst (Grows files) e (λ p k. k), tt)
  expand_from_lem (p ∷ patterns) files result d h =
      let (matches, h1, r) =
        >>=-ok (matches_of fs glob mod_time read_file p (glob p))
          (λ matches.
            add_matches fs glob mod_time read_file files (sort_strings matches)
            >>= (λ files'. expand_from fs glob mod_time read_file files' patterns))
          result h in
      let (files', h2, r') =
        >>=-ok (add_matches fs glob mod_time read_file files (sort_strings matches))
          (λ files'. expand_from fs glob mod_time read_file files' patterns) result h1 in
      let (d', g', inside) = add_matches_lem (sort_strings matches) files files' d r' in
      let (d'', g'', rest) = expand_from_lem patterns files' result d' h2 in
      let (globbed, some_match) = matches_of-ok p (glob p) matches r in
      (
        d'',
        λ q k. g'' q (g' q k),
        (
          (
            matches,
            globbed,
            some_match,
            All_map (IsIn files') (IsIn result) (IsIn-Grows files' result g'') matches
                (All-sort_strings (IsIn files') matches inside),
          ),
          rest,
        ),
      )

  with_info-ok :
      (root f : Bytes) (info : Stat) (source : DiscoveredFile)
      → with_info fs glob mod_time read_file root f info ≡ ok source
      → (source.path ≡ f) × (is_source source.ty ≡ true)
  with_info-ok root f Stat.stat_missing source h = cc
  with_info-ok root f (Stat.stat_error e) source h = cc
  with_info-ok root f Stat.stat_file source h = with_relative-ok f (fs.rel root f) source h
  with_info-ok root f Stat.stat_dir source h = with_relative-ok f (fs.rel root f) source h

  source_of-ok :
      (root f : Bytes) (source : DiscoveredFile)
      → source_of fs glob mod_time read_file root f ≡ ok source
      → (source.path ≡ f) × (is_source source.ty ≡ true) × IsSourceName (fs.base f)
  unfolding source_of
  source_of-ok root f source h = elim (Bool-cases (is_source (classify_file (fs.base f)))) [
    | inl e ↦
        let (p, t) = with_info-ok root f (fs.stat f) source (rw e at h) in
        (p, t, classify_file-IsSourceName (fs.base f) e)
    | inr e ↦ absurd (cc (rw e at h))
  ]

  -- The names of the files are those of sources.
  abbrev pub AllNamed : List DiscoveredFile → Type 0
  AllNamed = All (λ f. IsSourceName (fs.base f.path))

  sources_of-ok :
      (root : Bytes) (files : List Bytes) (sources : List DiscoveredFile)
      → sources_of fs glob mod_time read_file root files ≡ ok sources
      → (paths sources ≡ files) × AllSources sources × AllNamed sources
  unfolding sources_of
  sources_of-ok root [] sources h =
      let e : [] ≡ sources = cc in
      subst (λ x. (paths x ≡ []) × AllSources x × AllNamed x) e (refl, tt, tt)
  sources_of-ok root (f ∷ files) sources h =
      let (source, h1, r) =
        >>=-ok (source_of fs glob mod_time read_file root f)
          (λ source.
            sources_of fs glob mod_time read_file root files >>= (λ rest. ok (source ∷ rest)))
          sources h in
      let (rest, h2, r') =
        >>=-ok (sources_of fs glob mod_time read_file root files) (λ rest. ok (source ∷ rest))
          sources h1 in
      let (a, b, n) = source_of-ok root f source r in
      let (a', b', n') = sources_of-ok root files rest r' in
      let named = subst (λ p. IsSourceName (fs.base p)) (sym a) n in
      let e : (source ∷ rest) ≡ sources = cc in
      subst (λ x. (paths x ≡ f ∷ files) × AllSources x × AllNamed x) e
        (rw (a, a'), (b, b'), (named, n'))

  -- Where the sources listed by patterns are accepted: each of them is taken for a source and the name
  -- of its file ends in .sql and not in _test.sql, in whatever case; no path is among them twice; and
  -- each pattern matches something and has the absolute path of every match among them.
  pub explicit_sources-Good :
      (search_path : Bytes) (patterns : List Bytes) (sources : List DiscoveredFile)
      → explicit_sources fs glob mod_time read_file search_path patterns ≡ ok sources
      → AllSources sources
        × AllNamed sources
        × Distinct (paths sources)
        × All (Covered (paths sources)) patterns
  unfolding explicit_sources expand_patterns
  explicit_sources-Good search_path patterns sources h =
      let (files, h1, r) =
        >>=-ok (expand_patterns fs glob mod_time read_file patterns)
          (λ files.
            root_of fs glob mod_time read_file (fs.abs search_path)
            >>= (λ root. sources_of fs glob mod_time read_file root files))
          sources h in
      let (root, h2, _) =
        >>=-ok (root_of fs glob mod_time read_file (fs.abs search_path))
          (λ root. sources_of fs glob mod_time read_file root files) sources h1 in
      let (same, all, named) = sources_of-ok root files sources h2 in
      let (d, _, covered) = expand_from_lem patterns [] files tt r in
      (
        all,
        named,
        subst Distinct (sym same) d,
        subst (λ x. All (Covered x) patterns) (sym same) covered,
      )

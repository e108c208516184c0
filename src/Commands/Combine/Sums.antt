-- ===== src/Commands/Combine/Sums.antt =====
-- A merged file, read back, holds the sums of the files that were merged.
use pgcov.Base.{
  ℕ, suc, ◌+◌, ◌%◌, ◌≤◌, false, Option, none, some, List, [], ◌∷◌, ◌++◌, ltb, Bytes, bytes_eq,
  length, length-append, Result, ok, err, ◌≡◌, refl, ap, ◌∙◌, subst, inl, inr, arith, Bool-cases,
}
use pgcov.Decimal.{modulus}
use pgcov.Coverage.{Coverage, VersionError, hits, merge, validate_version, schema_version, IsWf}
use pgcov.Coverage.Texts.{IsText, AllText, merge-IsText}
use pgcov.Coverage.Inputs.{AllWf, AllValid, sum_hits, first_root, merge_sums}
use pgcov.Coverage.Store.{
  Storage, FileState, StoreError, save, load, found, read, parsed, checked, wrote, marshalled,
  made_dir,
}
use pgcov.Commands.Combine.{
  CombineError, load_all, add_loaded, prints, saved, output_merged, merge_loaded, combine,
}

-- The same coverage: the order of a Go map is left open.
pub record SameData (c d : Coverage) : Type 0 where
  pub version : d.version ≡ c.version
  pub root : d.root ≡ c.root
  pub executable : (f k : Bytes) → hits d.positions f k ≡ hits c.positions f k
  pub implicit : (f k : Bytes) → hits d.implicit_positions f k ≡ hits c.implicit_positions f k

-- What packages os and encoding/json promise: a file that was written is there with its content; what
-- Marshal gives for strings in UTF-8, Unmarshal reads back (it replaces what is not UTF-8); and what
-- Unmarshal gives are Go maps, with no key twice, whose strings are UTF-8.
pub record StorageLaws {W : Type 0} (storage : Storage W) : Type 0 where
  pub there :
      (path content : Bytes) (w w' : W)
      → storage.write_file path content w ≡ (none, w')
      → storage.stat path w' ≡ FileState.is_there
  pub read_back :
      (path content : Bytes) (w w' : W)
      → storage.write_file path content w ≡ (none, w')
      → storage.read_file path w' ≡ ok content
  pub decoded :
      (c : Coverage) (content : Bytes)
      → IsText c
      → storage.marshal c ≡ ok content
      → (d : Coverage) × (storage.unmarshal content ≡ ok d) × SameData c d
  pub maps :
      (content : Bytes) (c : Coverage)
      → storage.unmarshal content ≡ ok c
      → IsWf c.positions × IsWf c.implicit_positions
  pub texts : (content : Bytes) (c : Coverage) → storage.unmarshal content ≡ ok c → IsText c

valid_of_version : (c : Coverage) → c.version ≡ schema_version → validate_version (some c) ≡ ok tt
unfolding validate_version
valid_of_version c e = rw (e, bytes_eq) refl

module _ {W : Type 0} (storage : Storage W) (write_stdout : Bytes → W → Option Bytes × W) where
  -- Each input is loaded as the coverage at its place.
  abbrev pub Loads : List Bytes → W → List (Option Coverage) → Type 0
  Loads [] w cs = cs ≡ []
  Loads (path ∷ inputs) w [] = ⊥
  Loads (path ∷ inputs) w (c ∷ cs) =
      ((d : Coverage) × (c ≡ some d) × (load storage path w ≡ ok d)) × Loads inputs w cs

  add_loaded-Loads :
      (path : Bytes) (inputs : List Bytes) (w : W) (cs : List (Option Coverage))
      (r : Result StoreError Coverage) (rest : Result CombineError (List (Option Coverage)))
      → load storage path w ≡ r
      → ((ds : List (Option Coverage)) → rest ≡ ok ds → Loads inputs w ds)
      → add_loaded storage write_stdout path r rest ≡ ok cs
      → Loads (path ∷ inputs) w cs
  add_loaded-Loads path inputs w cs (err f) rest q h e = cc
  add_loaded-Loads path inputs w cs (ok d) (err f) q h e = cc
  add_loaded-Loads path inputs w cs (ok d) (ok ds) q h e =
      let same : some d ∷ ds ≡ cs = cc in
      subst (Loads (path ∷ inputs) w) same ((d, refl, q), h ds refl)

  load_all-Loads :
      (inputs : List Bytes) (w : W) (cs : List (Option Coverage))
      → load_all storage write_stdout inputs w ≡ ok cs
      → Loads inputs w cs
  unfolding load_all
  load_all-Loads [] w cs e = let q : ok [] ≡ ok cs = e in cc
  load_all-Loads (path ∷ inputs) w cs e =
      add_loaded-Loads path inputs w cs (load storage path w)
        (load_all storage write_stdout inputs w) refl (load_all-Loads inputs w) e

  abbrev Decodes : Coverage → Type 0
  Decodes c =
      (content : Bytes) × (storage.unmarshal content ≡ ok c) × (validate_version (some c) ≡ ok tt)

  checked-Decodes :
      (content : Bytes) (c d : Coverage) (v : Result VersionError (Unit {0}))
      → storage.unmarshal content ≡ ok d
      → validate_version (some d) ≡ v
      → checked storage d v ≡ ok c
      → Decodes c
  checked-Decodes content c d (err f) u q e = cc
  checked-Decodes content c d (ok _) u q e =
      let same : d ≡ c = cc in subst Decodes same (content, u, q)

  read-Decodes : (c : Coverage) (r : Result Bytes Bytes) → read storage r ≡ ok c → Decodes c
  read-Decodes c (err f) e = cc
  read-Decodes c (ok content) e = go (storage.unmarshal content) refl e
    where
      go :
          (u : Result Bytes Coverage)
          → storage.unmarshal content ≡ u
          → parsed storage u ≡ ok c
          → Decodes c
      go (err f) q e' = cc
      go (ok d) q e' = checked-Decodes content c d (validate_version (some d)) q refl e'

  found-Decodes :
      (path : Bytes) (w : W) (c : Coverage) (st : FileState)
      → found storage path st w ≡ ok c
      → Decodes c
  found-Decodes path w c FileState.is_missing e = cc
  found-Decodes path w c FileState.is_there e = read-Decodes c (storage.read_file path w) e
  found-Decodes path w c FileState.is_unknown e = read-Decodes c (storage.read_file path w) e

  load-Decodes : (path : Bytes) (w : W) (c : Coverage) → load storage path w ≡ ok c → Decodes c
  unfolding load
  load-Decodes path w c e = found-Decodes path w c (storage.stat path w) e

  abbrev pub Written : Bytes → Coverage → W → Type 0
  Written path c w' =
      (content : Bytes) × (storage.marshal c ≡ ok content)
      × ((w : W) × (storage.write_file path content w ≡ (none, w')))

  wrote-Written :
      (path : Bytes) (c : Coverage) (content : Bytes) (w1 w' : W) (r : Option Bytes × W)
      → storage.marshal c ≡ ok content
      → storage.write_file path content w1 ≡ r
      → wrote storage r ≡ (none, w')
      → Written path c w'
  wrote-Written path c content w1 w' (some f, w2) m q e = cc
  wrote-Written path c content w1 w' (none, w2) m q e =
      let at_end : w2 ≡ w' = ap (λ r. r.1) e in
      (content, m, (w1, subst (λ x. storage.write_file path content w1 ≡ (none, x)) at_end q))

  made_dir-Written :
      (path : Bytes) (c : Coverage) (w' : W) (r : Option Bytes × W)
      → made_dir storage path c r ≡ (none, w')
      → Written path c w'
  made_dir-Written path c w' (some f, w1) e = cc
  made_dir-Written path c w' (none, w1) e = go (storage.marshal c) refl e
    where
      go :
          (r : Result Bytes Bytes)
          → storage.marshal c ≡ r
          → marshalled storage path r w1 ≡ (none, w')
          → Written path c w'
      go (err f) q e' = cc
      go (ok content) q e' =
          wrote-Written path c content w1 w' (storage.write_file path content w1) q refl e'

  pub save-Written :
      (path : Bytes) (c : Coverage) (w w' : W)
      → save storage path c w ≡ (none, w')
      → Written path c w'
  unfolding save
  save-Written path c w w' e = made_dir-Written path c w' (storage.mkdir_all (storage.dir path) w) e

  module _ (laws : StorageLaws storage) where
    -- What is saved is loaded again, if its strings are UTF-8.
    pub load-save :
        (path : Bytes) (c : Coverage) (w w' : W)
        → c.version ≡ schema_version
        → IsText c
        → save storage path c w ≡ (none, w')
        → (d : Coverage) × (load storage path w' ≡ ok d) × SameData c d
    unfolding load
    load-save path c w w' v t e =
        let (content, m, at_world) = save-Written path c w w' e in
        let (w1, q) = at_world in
        let (d, u, same) = laws.decoded c content t m in
        (
          d,
          rw
              (
                laws.there path content w1 w' q,
                laws.read_back path content w1 w' q,
                u,
                valid_of_version d (same.version ∙ v),
              )
              refl,
          same,
        )

    Loads-AllValid :
        (inputs : List Bytes) (w : W) (cs : List (Option Coverage))
        → Loads inputs w cs
        → AllValid cs × AllWf cs × AllText cs
    Loads-AllValid [] w cs h = rw h (tt, tt, tt)
    Loads-AllValid (path ∷ inputs) w [] h = absurd h
    Loads-AllValid (path ∷ inputs) w (none ∷ cs) h = let x = h.0.1 in absurd (cc)
    Loads-AllValid (path ∷ inputs) w (some c ∷ cs) (h, hs) =
        let (d, e, l) = h in
        let (content, u, v) = load-Decodes path w d l in
        let (valid, wf, text) = Loads-AllValid inputs w cs hs in
        let same : d ≡ c = cc in
        (
          (subst (λ x. validate_version (some x) ≡ ok tt) same v, valid),
          (
            subst (λ x. IsWf x.positions × IsWf x.implicit_positions) same (laws.maps content d u),
            wf,
          ),
          (subst IsText same (laws.texts content d u), text),
        )

    -- The file `output` holds the merge of `cs`, whatever order its maps have.
    pub record HoldsMerge (output : Bytes) (cs : List (Option Coverage)) (w : W) : Type 0 where
      pub content : Coverage
      pub loads : load storage output w ≡ ok content
      pub supported : content.version ≡ schema_version
      pub rooted : content.root ≡ first_root [] cs
      pub executable :
          (f k : Bytes) → hits content.positions f k ≡ sum_hits (λ c. c.positions) cs f k % modulus
      pub implicit :
          (f k : Bytes)
          → hits content.implicit_positions f k
            ≡ sum_hits (λ c. c.implicit_positions) cs f k % modulus

    saved-none :
        (w' : W) (r : Option StoreError × W)
        → saved storage write_stdout r ≡ (none, w')
        → r ≡ (none, w')
    saved-none w' (some e, w1) h = cc
    saved-none w' (none, w1) h = ap (λ x. (none, x)) (ap (λ r. r.1) h)

    output_merged-HoldsMerge :
        (now : ℕ) (output : Bytes) (cs : List (Option Coverage)) (w w' : W)
        → prints storage write_stdout output ≡ false
        → AllValid cs
        → AllWf cs
        → AllText cs
        → output_merged storage write_stdout output (merge now cs) w ≡ (none, w')
        → HoldsMerge output cs w'
    output_merged-HoldsMerge now output cs w w' p v a t h =
        let (r, e, is_merge) = merge_sums now cs v a in
        let stored : saved storage write_stdout (save storage output r w) ≡ (none, w') =
          rw (e, p) at h in
        let (d, l, same) =
          load-save output r w w' is_merge.supported (merge-IsText now cs r t e)
            (saved-none w' _ stored) in
        record {
          content = d;
          loads = l;
          supported = same.version ∙ is_merge.supported;
          rooted = same.root ∙ is_merge.rooted;
          executable = λ f k. same.executable f k ∙ is_merge.executable f k;
          implicit = λ f k. same.implicit f k ∙ is_merge.implicit f k;
        }

    -- Where the laws of the disk and of encoding/json hold, and the command merges into a file
    -- without an error: there are at least two inputs, each of them loads, and the file loads as
    -- coverage of the supported version whose root is the first one that is not empty and whose
    -- count at every position of either map is the sum of the inputs' counts, as an int.
    pub combine_sums :
        (now : ℕ) (inputs : List Bytes) (output : Bytes) (w w' : W)
        → prints storage write_stdout output ≡ false
        → combine storage write_stdout now inputs output w ≡ (none, w')
        → (2 ≤ length inputs)
          × ((cs : List (Option Coverage)) × Loads inputs w cs × HoldsMerge output cs w')
    unfolding combine
    combine_sums now inputs output w w' p h = elim (Bool-cases (ltb (length inputs) 2)) [
      | inl few ↦ cc (rw few at h)
      | inr many ↦ go (load_all storage write_stdout inputs w) refl (rw many at h)
    ]
      where
        go :
            (r : Result CombineError (List (Option Coverage)))
            → load_all storage write_stdout inputs w ≡ r
            → merge_loaded storage write_stdout now output r w ≡ (none, w')
            → (2 ≤ length inputs)
              × ((cs : List (Option Coverage)) × Loads inputs w cs × HoldsMerge output cs w')
        go (err e) q k = cc
        go (ok cs) q k =
            let ls = load_all-Loads inputs w cs q in
            let (v, a, t) = Loads-AllValid inputs w cs ls in
            (ground arith, (cs, ls, output_merged-HoldsMerge now output cs w w' p v a t k))

  load_all_rejects :
      (before after : List Bytes) (bad : Bytes) (w : W) (cs : List (Option Coverage))
      (e : StoreError)
      → Loads before w cs
      → load storage bad w ≡ err e
      → load_all storage write_stdout (before ++ (bad ∷ after)) w
        ≡ err (CombineError.cannot_load bad e)
  unfolding load_all
  load_all_rejects [] after bad w cs e h q = rw q
  load_all_rejects (path ∷ before) after bad w [] e h q = absurd h
  load_all_rejects (path ∷ before) after bad w (c ∷ cs) e (h, hs) q =
      let (d, same, l) = h in rw (l, load_all_rejects before after bad w cs e hs q) refl

  -- The first of several inputs that does not load ends the command with the error that names it, and
  -- nothing has changed.
  pub combine_rejects :
      (now : ℕ) (before after : List Bytes) (bad output : Bytes) (w : W)
      (cs : List (Option Coverage)) (e : StoreError)
      → 2 ≤ length before + suc (length after)
      → Loads before w cs
      → load storage bad w ≡ err e
      → combine storage write_stdout now (before ++ (bad ∷ after)) output w
        ≡ (some (CombineError.cannot_load bad e), w)
  unfolding combine
  combine_rejects now before after bad output w cs e many h q =
      let enough : ltb (length (before ++ (bad ∷ after))) 2 ≡ false =
        ground (arith, length-append before (bad ∷ after)) in
      rw (enough, load_all_rejects before after bad w cs e h q) refl

-- ===== src/Collector/Seed.antt =====
-- What `InitializeFromInstrumented` makes of the locations.
use pgcov.Base.{
  ℕ, Bool, true, false, Option, none, some, List, [], ◌∷◌, if◌then◌else◌, ◌&&◌, ◌||◌, not, Bytes,
  bytes_eq, bytes_eq_iff, ◌≡◌, refl, sym, ap, ◌∙◌, inl, inr, arith, Bool-cases,
}
use pgcov.Key.{format_position_key}
use pgcov.Coverage.{Coverage, FileHits, find_hits}
use pgcov.Coverage.Positions.{add_position_lem, add_implicit_position_lem}
use pgcov.Point.{CoveragePoint}
use pgcov.Collector.{seed, seed_implicit, seed_executable, seed_all, initialize_from_instrumented}

-- The location stands at the position, and belongs to the implicit or to the executable map.
pub is_at : Bool → Bytes → Bytes → CoveragePoint → Bool
is_at implicit g k p =
    (if implicit then p.implicit_coverage else not p.implicit_coverage)
    && (bytes_eq p.file g && bytes_eq (format_position_key p.start_pos p.len) k)

pub some_at : Bool → Bytes → Bytes → List CoveragePoint → Bool
some_at implicit g k [] = false
some_at implicit g k (p ∷ ps) = is_at implicit g k p || some_at implicit g k ps

-- A count of zero where there was none and a location stands.
abbrev pub seeded : Option ℕ → Bool → Option ℕ
seeded (some n) b = some n
seeded none true = some 0
seeded none false = none

abbrev pub part : Bool → Coverage → FileHits
part true c = c.implicit_positions
part false c = c.positions

seeded-false : (x : Option ℕ) → x ≡ seeded x false
seeded-false none = refl
seeded-false (some n) = refl

seeded-some : (m : Bool) (x : Option ℕ) (n : ℕ) → (m ≡ true → x ≡ some n) → x ≡ seeded x m
seeded-some true x n h = rw (h refl)
seeded-some false x n h = seeded-false x

seeded-none :
    (m : Bool) (x x' : Option ℕ)
    → (m ≡ true → x ≡ none)
    → x' ≡ (if m then some 0 else x)
    → x' ≡ seeded x m
seeded-none true x x' h e = rw (e, h refl)
seeded-none false x x' h e = e ∙ seeded-false x

module _ (c : Coverage) (p : CoveragePoint) (g k : Bytes) where
  abbrev pos_key : Bytes
  pos_key = format_position_key p.start_pos p.len

  abbrev here : Bool
  here = bytes_eq p.file g && bytes_eq pos_key k

  here_file : here ≡ true → p.file ≡ g
  here_file h = (bytes_eq_iff p.file g).0 (ground arith)

  here_key : here ≡ true → pos_key ≡ k
  here_key h = (bytes_eq_iff pos_key k).0 (ground arith)

  here_hits : (m : FileHits) → here ≡ true → find_hits m g k ≡ find_hits m p.file pos_key
  here_hits m h = rw (here_file h, here_key h)

  seed_implicit_lem :
      (o : Option ℕ)
      → find_hits c.implicit_positions p.file pos_key ≡ o
      → (find_hits (seed_implicit c p o).implicit_positions g k
          ≡ seeded (find_hits c.implicit_positions g k) here)
        × ((seed_implicit c p o).positions ≡ c.positions)
  unfolding seed_implicit
  seed_implicit_lem (some n) e =
      (seeded-some here _ n (λ h. here_hits c.implicit_positions h ∙ e), refl)
  seed_implicit_lem none e =
      let (written, kept) = add_implicit_position_lem c p.file g k p.start_pos p.len 0 in
      (seeded-none here _ _ (λ h. here_hits c.implicit_positions h ∙ e) written, kept)

  seed_executable_lem :
      (o : Option ℕ)
      → find_hits c.positions p.file pos_key ≡ o
      → (find_hits (seed_executable c p o).positions g k ≡ seeded (find_hits c.positions g k) here)
        × ((seed_executable c p o).implicit_positions ≡ c.implicit_positions)
  unfolding seed_executable
  seed_executable_lem (some n) e = (seeded-some here _ n (λ h. here_hits c.positions h ∙ e), refl)
  seed_executable_lem none e =
      let (written, kept) = add_position_lem c p.file g k p.start_pos p.len 0 in
      (seeded-none here _ _ (λ h. here_hits c.positions h ∙ e) written, kept)

  seed-true :
      p.implicit_coverage ≡ true
      → seed c p ≡ seed_implicit c p (find_hits c.implicit_positions p.file pos_key)
  unfolding seed
  seed-true e = rw e

  seed-false :
      p.implicit_coverage ≡ false
      → seed c p ≡ seed_executable c p (find_hits c.positions p.file pos_key)
  unfolding seed
  seed-false e = rw e

  is_at_kind :
      (implicit b : Bool)
      → p.implicit_coverage ≡ b
      → (if implicit then b else not b) && here ≡ is_at implicit g k p
  unfolding is_at
  is_at_kind implicit b e = ap (λ x. (if implicit then x else not x) && here) (sym e)

  seed_lem :
      (implicit : Bool)
      → find_hits (part implicit (seed c p)) g k
        ≡ seeded (find_hits (part implicit c) g k) (is_at implicit g k p)
  seed_lem true = elim (Bool-cases p.implicit_coverage) [
    | inl e ↦
        ap (λ x. find_hits x.implicit_positions g k) (seed-true e)
        ∙ (seed_implicit_lem _ refl).0
        ∙ ap (seeded (find_hits c.implicit_positions g k)) (is_at_kind true true e)
    | inr e ↦
        ap (λ x. find_hits x.implicit_positions g k) (seed-false e)
        ∙ ap (λ m. find_hits m g k) (seed_executable_lem _ refl).1
        ∙ seeded-false (find_hits c.implicit_positions g k)
        ∙ ap (seeded (find_hits c.implicit_positions g k)) (is_at_kind true false e)
  ]
  seed_lem false = elim (Bool-cases p.implicit_coverage) [
    | inl e ↦
        ap (λ x. find_hits x.positions g k) (seed-true e)
        ∙ ap (λ m. find_hits m g k) (seed_implicit_lem _ refl).1
        ∙ seeded-false (find_hits c.positions g k)
        ∙ ap (seeded (find_hits c.positions g k)) (is_at_kind false true e)
    | inr e ↦
        ap (λ x. find_hits x.positions g k) (seed-false e)
        ∙ (seed_executable_lem _ refl).0
        ∙ ap (seeded (find_hits c.positions g k)) (is_at_kind false false e)
  ]

seeded-or : (o : Option ℕ) (a b : Bool) → seeded (seeded o a) b ≡ seeded o (a || b)
seeded-or (some n) a b = refl
seeded-or none true b = refl
seeded-or none false true = refl
seeded-or none false false = refl

seed_all_lem :
    (ps : List CoveragePoint) (implicit : Bool) (c : Coverage) (g k : Bytes)
    → find_hits (part implicit (seed_all c ps)) g k
      ≡ seeded (find_hits (part implicit c) g k) (some_at implicit g k ps)
unfolding seed_all some_at
seed_all_lem [] implicit c g k = seeded-false (find_hits (part implicit c) g k)
seed_all_lem (p ∷ ps) implicit c g k =
    seed_all_lem ps implicit (seed c p) g k
    ∙ ap (λ o. seeded o (some_at implicit g k ps)) (seed_lem c p g k implicit)
    ∙ seeded-or (find_hits (part implicit c) g k) (is_at implicit g k p) (some_at implicit g k ps)

-- The locations of all files.
abbrev pub some_in : Bool → Bytes → Bytes → List (List CoveragePoint) → Bool
some_in implicit g k [] = false
some_in implicit g k (ps ∷ rest) = some_at implicit g k ps || some_in implicit g k rest

-- After seeding, a position has a count in a map exactly when it had one or a location of that kind
-- stands there; old counts are kept, and new ones are zero.
pub initialize_lem :
    (files : List (List CoveragePoint)) (implicit : Bool) (c : Coverage) (g k : Bytes)
    → find_hits (part implicit (initialize_from_instrumented c files)) g k
      ≡ seeded (find_hits (part implicit c) g k) (some_in implicit g k files)
unfolding initialize_from_instrumented
initialize_lem [] implicit c g k = seeded-false (find_hits (part implicit c) g k)
initialize_lem (ps ∷ files) implicit c g k =
    initialize_lem files implicit (seed_all c ps) g k
    ∙ ap (λ o. seeded o (some_in implicit g k files)) (seed_all_lem ps implicit c g k)
    ∙ seeded-or (find_hits (part implicit c) g k) (some_at implicit g k ps)
        (some_in implicit g k files)

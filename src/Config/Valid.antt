-- ===== src/Config/Valid.antt =====
-- Which configurations are accepted.
use pgcov.Base.{
  ℕ, ◌≤◌, Bool, true, false, ◌||◌, not, Option, none, some, [], ltb, if◌then◌else◌, bytes_eq, ◌≡◌,
  refl, arith, ◌↔◌,
}
use pgcov.Decimal.{is_positive}
use pgcov.Config.{Config, ConfigError, FloatTests, validate}

past :
    (b : Bool) (e : ConfigError) (rest : Option ConfigError)
    → (if b then some e else rest) ≡ none
    → b ≡ false × rest ≡ none
past true e rest h = cc
past false e rest h = (refl, h)

not-true : (b : Bool) → not b ≡ false → b ≡ true
not-true true h = refl
not-true false h = cc

or_false : (a b : Bool) → (a || b) ≡ false → a ≡ false × b ≡ false
or_false true b h = cc
or_false false b h = (refl, h)

at_most : (n : ℕ) → ltb 100 n ≡ false → n ≤ 100
at_most n h = ground (arith, h)

not_above : (n : ℕ) → n ≤ 100 → ltb 100 n ≡ false
not_above n h = ground arith

module _ {F : Type 0} where
  -- What a run asks of its configuration.
  pub record IsValid (tests : FloatTests F) (c : Config F) : Type 0 where
    pub connection : bytes_eq c.connection_string [] ≡ false
    pub timeout_positive : is_positive c.timeout ≡ true
    pub parallel_positive : is_positive c.parallelism ≡ true
    pub parallel_bound : c.parallelism ≤ 100
    pub coverage : bytes_eq c.coverage_file [] ≡ false
    pub threshold_low : tests.is_below_0 c.fail_under ≡ false
    pub threshold_high : tests.is_above_100 c.fail_under ≡ false

  pub validate-IsValid :
      (tests : FloatTests F) (c : Config F) → (validate tests c ≡ none) ↔ IsValid tests c
  unfolding validate
  validate-IsValid tests c = (
    λ h.
        let (a, h1) = past _ _ _ h in
        let (b, h2) = past _ _ _ h1 in
        let (d, h3) = past _ _ _ h2 in
        let (e, h4) = past _ _ _ h3 in
        let (f, h5) = past _ _ _ h4 in
        let (g, _) = past _ _ _ h5 in
        let (low, high) =
          or_false (tests.is_below_0 c.fail_under) (tests.is_above_100 c.fail_under) g in
        record {
          connection = a;
          timeout_positive = not-true (is_positive c.timeout) b;
          parallel_positive = not-true (is_positive c.parallelism) d;
          parallel_bound = at_most c.parallelism e;
          coverage = f;
          threshold_low = low;
          threshold_high = high;
        },
    λ v.
        rw
          (
            v.connection,
            v.timeout_positive,
            v.parallel_positive,
            not_above c.parallelism v.parallel_bound,
            v.coverage,
            v.threshold_low,
            v.threshold_high,
          )
          refl,
  )

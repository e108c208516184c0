-- ===== src/Report/Html/Resolve.antt =====
-- Each byte goes to the first range that holds it.
use pgcov.Base.{
  ℕ, ◌+◌, ◌-◌, ◌≤◌, ◌<◌, Bool, true, false, Option, none, some, List, [], ◌∷◌, ◌&&◌, ltb, leb,
  if◌then◌else◌, ◌≡◌, refl, sym, ap, ◌∙◌, ◌⊎◌, inl, inr, arith, All, Bool-cases,
}
use pgcov.Decimal.{half}
use pgcov.Report.Html.{
  PositionRange, add_int, sub_int, le_int, max_int, resolve_from, resolve_overlapping_ranges,
}

-- A range that ends within the `int`s.
abbrev pub Fits : PositionRange → Type 0
Fits r = r.start_pos + r.len < half

-- The ranges come by their starts.
abbrev pub IsSorted : List PositionRange → Type 0
IsSorted [] = Unit
IsSorted (r ∷ rs) = All (λ s. r.start_pos ≤ s.start_pos) rs × IsSorted rs

abbrev pub holds : ℕ → PositionRange → Bool
holds b r = leb r.start_pos b && ltb b (r.start_pos + r.len)

-- The hit count of the first range that holds the byte.
abbrev pub hit_at : ℕ → List PositionRange → Option ℕ
hit_at b [] = none
hit_at b (r ∷ rs) = if holds b r then some r.hit_count else hit_at b rs

hit_at_before :
    (b lo : ℕ) (rs : List PositionRange)
    → b < lo
    → All (λ s. lo ≤ s.start_pos) rs
    → hit_at b rs ≡ none
hit_at_before b lo [] h k = refl
hit_at_before b lo (r ∷ rs) h k = ground (arith, hit_at_before b lo rs h k.1)

-- The loop on numbers that do not wrap around.
unfoldable pub plain_from : ℕ → List PositionRange → List PositionRange
plain_from cur [] = []
plain_from cur (r ∷ rs) =
    let stop = r.start_pos + r.len in
    let start = if leb r.start_pos cur then cur else r.start_pos in
    if leb stop start
    then plain_from cur rs
    else record { start_pos = start; len = stop - start; hit_count = r.hit_count }
      ∷ plain_from stop rs

add_int_small : (a b : ℕ) → a + b < half → add_int a b ≡ a + b
unfolding add_int
add_int_small a b h = omega arith

le_int_small : (a b : ℕ) → a < half → b < half → le_int a b ≡ leb a b
unfolding le_int
le_int_small a b h k = ground arith

max_int_small : (a b : ℕ) → a < half → b < half → max_int a b ≡ (if leb a b then b else a)
unfolding max_int
max_int_small a b h k = ap (λ t. if t then b else a) (le_int_small a b h k)

sub_int_small : (a b : ℕ) → a < half → b ≤ a → sub_int a b ≡ a - b
unfolding sub_int
sub_int_small a b h k = omega arith

resolve_skip :
    (r : PositionRange) (rs : List PositionRange) (cur : ℕ)
    → le_int (add_int r.start_pos r.len) cur ≡ true
    → resolve_from cur (r ∷ rs) ≡ resolve_from cur rs
unfolding resolve_from
resolve_skip r rs cur e = rw e

resolve_empty :
    (r : PositionRange) (rs : List PositionRange) (cur start len : ℕ)
    → le_int (add_int r.start_pos r.len) cur ≡ false
    → start ≡ max_int r.start_pos cur
    → len ≡ sub_int (add_int r.start_pos r.len) start
    → le_int len 0 ≡ true
    → resolve_from cur (r ∷ rs) ≡ resolve_from cur rs
unfolding resolve_from
resolve_empty r rs cur start len e p q z = rw (e, ← p, ← q, z)

resolve_keep :
    (r : PositionRange) (rs : List PositionRange) (cur start len stop : ℕ)
    → le_int (add_int r.start_pos r.len) cur ≡ false
    → start ≡ max_int r.start_pos cur
    → len ≡ sub_int (add_int r.start_pos r.len) start
    → le_int len 0 ≡ false
    → stop ≡ add_int start len
    → resolve_from cur (r ∷ rs)
      ≡ record { start_pos = start; len = len; hit_count = r.hit_count } ∷ resolve_from stop rs
unfolding resolve_from
resolve_keep r rs cur start len stop e p q z t = rw (e, ← p, ← q, z, ← t)

plain_skip :
    (r : PositionRange) (rs : List PositionRange) (cur start : ℕ)
    → start ≡ (if leb r.start_pos cur then cur else r.start_pos)
    → leb (r.start_pos + r.len) start ≡ true
    → plain_from cur (r ∷ rs) ≡ plain_from cur rs
unfolding plain_from
plain_skip r rs cur start p e = rw (← p, e)

plain_keep :
    (r : PositionRange) (rs : List PositionRange) (cur start : ℕ)
    → start ≡ (if leb r.start_pos cur then cur else r.start_pos)
    → leb (r.start_pos + r.len) start ≡ false
    → plain_from cur (r ∷ rs)
      ≡ record { start_pos = start; len = r.start_pos + r.len - start; hit_count = r.hit_count }
        ∷ plain_from (r.start_pos + r.len) rs
unfolding plain_from
plain_keep r rs cur start p e = rw (← p, e)

lt→leb : (a b : ℕ) → b < a → leb a b ≡ false
lt→leb a b h = ground arith

later_start :
    (a cur start : ℕ)
    → start ≡ (if leb a cur then cur else a)
    → (cur ≤ start) × (a ≤ start) × ((start ≡ cur) ⊎ (start ≡ a))
later_start a cur start e = ground arith

resolve-plain_step :
    (r : PositionRange) (rs : List PositionRange) (cur start : ℕ)
    → cur < half
    → Fits r
    → start ≡ (if leb r.start_pos cur then cur else r.start_pos)
    → resolve_from cur rs ≡ plain_from cur rs
    → resolve_from (r.start_pos + r.len) rs ≡ plain_from (r.start_pos + r.len) rs
    → resolve_from cur (r ∷ rs) ≡ plain_from cur (r ∷ rs)
resolve-plain_step r rs cur start h f p same next =
    let stop = r.start_pos + r.len in
    let (past, from, which) = later_start r.start_pos cur start p in
    let added = add_int_small r.start_pos r.len f in
    let test : le_int (add_int r.start_pos r.len) cur ≡ leb stop cur =
      ap (λ x. le_int x cur) added ∙ le_int_small stop cur f h in
    let started : start ≡ max_int r.start_pos cur =
      p ∙ sym (max_int_small r.start_pos cur (omega arith) h) in
    elim (Bool-cases (leb stop start)) [
      | inl e ↦ elim (Bool-cases (leb stop cur)) [
        | inl t ↦ resolve_skip r rs cur (test ∙ t) ∙ same ∙ sym (plain_skip r rs cur start p e)
        | inr t ↦
            let zero_len : stop ≡ start = ground (arith, which) in
            resolve_empty r rs cur start (stop - start) (test ∙ t) started
              (sym (
                ap (λ x. sub_int x start) added
                ∙ sub_int_small stop start f (ground (arith, zero_len))))
              (le_int_small (stop - start) 0 (omega arith) (omega arith) ∙ ground (arith, zero_len))
            ∙ same
            ∙ sym (plain_skip r rs cur start p e)
      ]
      | inr e ↦
          let above : start < stop = ground arith in
          resolve_keep r rs cur start (stop - start) stop (test ∙ lt→leb stop cur (omega arith))
            started
            (sym (ap (λ x. sub_int x start) added ∙ sub_int_small stop start f (omega arith)))
            (le_int_small (stop - start) 0 (omega arith) (omega arith)
              ∙ lt→leb (stop - start) 0 (omega arith))
            (sym (add_int_small start (stop - start) (omega arith) ∙ omega arith))
          ∙ ap (λ t. record { start_pos = start; len = stop - start; hit_count = r.hit_count } ∷ t)
              next
          ∙ sym (plain_keep r rs cur start p e)
    ]

pub resolve-plain_from :
    (rs : List PositionRange) (cur : ℕ)
    → cur < half
    → All Fits rs
    → resolve_from cur rs ≡ plain_from cur rs
resolve-plain_from [] cur h k = unfold resolve_from plain_from in refl
resolve-plain_from (r ∷ rs) cur h (f, fs) =
    resolve-plain_step r rs cur (if leb r.start_pos cur then cur else r.start_pos) h f refl
      (resolve-plain_from rs cur h fs) (resolve-plain_from rs (r.start_pos + r.len) f fs)

hit_at-plain_from :
    (b : ℕ) (rs : List PositionRange) (cur : ℕ)
    → IsSorted rs
    → hit_at b (plain_from cur rs) ≡ (if leb cur b then hit_at b rs else none)
unfolding plain_from
hit_at-plain_from b [] cur s = ground arith
hit_at-plain_from b (r ∷ rs) cur (s, ss) = ground (
  arith,
  hit_at-plain_from b rs cur ss,
  hit_at-plain_from b rs (r.start_pos + r.len) ss,
  hit_at_before b r.start_pos rs,
)

-- If every range ends within the `int`s and they come by their starts, each byte has after
-- `resolveOverlappingRanges` the hit count of the first range that held it, and none if none did.
pub hit_at-resolve :
    (b : ℕ) (rs : List PositionRange)
    → IsSorted rs
    → All Fits rs
    → hit_at b (resolve_overlapping_ranges rs) ≡ hit_at b rs
unfolding resolve_overlapping_ranges
hit_at-resolve b rs s f =
    ap (hit_at b) (resolve-plain_from rs 0 (omega arith) f)
    ∙ hit_at-plain_from b rs 0 s
    ∙ ground arith

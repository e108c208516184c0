-- ===== src/Report/Html.antt =====
-- The ranges of internal/report/html.go: `parsePositionRanges` and `resolveOverlappingRanges`.
-- Numbers are 64-bit patterns of Go `int`s, whose sums may wrap around.
pub mod Resolve
pub mod Render
pub mod Layout
pub mod Page
use pgcov.Base.{
  ℕ, ◌+◌, ◌-◌, ◌%◌, Bool, true, false, Option, none, some, List, [], ◌∷◌, ◌==◌, ltb, leb,
  if◌then◌else◌, Bytes, codes, Result, ok, err,
}
use pgcov.Decimal.{half, modulus}
use pgcov.Key.{KeyError, parse_position_key}

pub record PositionRange : Type 0 where
  pub start_pos : ℕ
  pub len : ℕ
  pub hit_count : ℕ

unfoldable pub add_int : ℕ → ℕ → ℕ
add_int a b = (a + b) % modulus

unfoldable pub sub_int : ℕ → ℕ → ℕ
sub_int a b = (a + modulus - b) % modulus

-- `a <= b` on `int`s.
unfoldable pub le_int : ℕ → ℕ → Bool
le_int a b = leb ((a + half) % modulus) ((b + half) % modulus)

unfoldable pub max_int : ℕ → ℕ → ℕ
unfolding le_int
max_int a b = if le_int a b then b else a

abbrev range_of : ℕ → Result KeyError (ℕ × ℕ) → List PositionRange → List PositionRange
range_of hits (ok (start, len)) rs = record { start_pos = start; len = len; hit_count = hits } ∷ rs
range_of hits (err _) rs = rs

-- Entries whose key does not parse are skipped.
unfoldable pub ranges_of : List (Bytes × ℕ) → List PositionRange
unfolding parse_position_key
ranges_of [] = []
ranges_of ((pos_key, hits) ∷ m) = range_of hits (parse_position_key pos_key) (ranges_of m)

-- `sort.Slice` by the start; where two start together the order is left open, and here it is kept.
insert_range : PositionRange → List PositionRange → List PositionRange
insert_range r [] = r ∷ []
insert_range r (s ∷ rs) = if leb r.start_pos s.start_pos then r ∷ s ∷ rs else s ∷ insert_range r rs

unfoldable pub sort_ranges : List PositionRange → List PositionRange
unfolding insert_range
sort_ranges [] = []
sort_ranges (r ∷ rs) = insert_range r (sort_ranges rs)

-- The loop; `current_end` is where the last range that was kept ends.
unfoldable pub resolve_from : ℕ → List PositionRange → List PositionRange
resolve_from current_end [] = []
resolve_from current_end (r ∷ rs) =
    let stop = add_int r.start_pos r.len in
    let adjusted_start = max_int r.start_pos current_end in
    let adjusted_len = sub_int stop adjusted_start in
    let skip = resolve_from current_end rs in
    let keep =
      record { start_pos = adjusted_start; len = adjusted_len; hit_count = r.hit_count }
      ∷ resolve_from (add_int adjusted_start adjusted_len) rs in
    if le_int stop current_end then skip else if le_int adjusted_len 0 then skip else keep

unfoldable pub resolve_overlapping_ranges : List PositionRange → List PositionRange
unfolding resolve_from
resolve_overlapping_ranges = resolve_from 0

unfoldable pub parse_position_ranges : List (Bytes × ℕ) → List PositionRange
unfolding ranges_of sort_ranges resolve_overlapping_ranges
parse_position_ranges pos_hits = resolve_overlapping_ranges (sort_ranges (ranges_of pos_hits))

unfoldable pub get_coverage_class : ℕ → Bytes
get_coverage_class hit_count = if hit_count == 0 then codes "cov0" else codes "cov10"

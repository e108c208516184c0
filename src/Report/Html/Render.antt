-- ===== src/Report/Html/Render.antt =====
-- `renderSourceWithPositions` of internal/report/html.go, up to the escaping of the texts: the pieces
-- that it writes, a plain text or a span with its hit count. The slice of a text whose end is in front
-- of its start, or negative, is a run-time panic, `none`.
use pgcov.Base.{
  ℕ, ◌+◌, ◌-◌, ◌%◌, ◌≤◌, ◌<◌, Bool, true, false, ◌||◌, Option, none, some, List, [], ◌∷◌, ◌++◌, ltb,
  leb, if◌then◌else◌, Bytes, length, drop, slice, ◌≡◌, refl, sym, ap, ◌∙◌, arith, All, append-nil,
  drop_all, slice_join, slice_rest, ltb→lt, subst,
}
use pgcov.Decimal.{half, modulus, is_negative}
use pgcov.Report.Html.{PositionRange, add_int, resolve_from, resolve_overlapping_ranges}
use pgcov.Report.Html.Resolve.{Fits, plain_from, resolve-plain_from}

abbrev pub Pieces : Type 0
Pieces = List (Option ℕ × Bytes)

abbrev min_of : ℕ → ℕ → ℕ
min_of a b = if ltb a b then a else b

abbrev pub onto : Option ℕ × Bytes → Option Pieces → Option Pieces
onto piece none = none
onto piece (some pieces) = some (piece ∷ pieces)

-- The ranges that start within the text.
valid_ranges : ℕ → List PositionRange → List PositionRange
valid_ranges source_len [] = []
valid_ranges source_len (r ∷ rs) =
    if ltb r.start_pos source_len
    then r ∷ valid_ranges source_len rs
    else valid_ranges source_len rs

-- The span of a range from `pos` to its end; `rest` renders what is behind it.
abbrev span : Bytes → PositionRange → ℕ → (ℕ → Option Pieces) → Option Pieces
span text r pos rest =
    let end_pos = min_of (add_int r.start_pos r.len) (length text) in
    if is_negative (add_int r.start_pos r.len) || ltb end_pos pos
    then none
    else onto (some r.hit_count, slice text pos end_pos) (rest end_pos)

-- The loop at `pos`, for ranges that start within the text.
render_from : Bytes → ℕ → List PositionRange → Option Pieces
unfolding add_int
render_from text pos [] =
    if ltb pos (length text) then some ((none, drop pos text) ∷ []) else some []
render_from text pos (r ∷ rs) =
    if ltb pos (length text)
    then (if ltb pos r.start_pos
        then onto (none, slice text pos (min_of r.start_pos (length text)))
            (span text r (min_of r.start_pos (length text)) (λ p. render_from text p rs))
        else span text r pos (λ p. render_from text p rs))
    else some []

unfoldable pub render_source_with_positions : Bytes → List PositionRange → Option Pieces
unfolding render_from valid_ranges
render_source_with_positions text ranges = render_from text 0 (valid_ranges (length text) ranges)

-- The texts of the pieces, joined.
unfoldable pub plain_text : Pieces → Bytes
plain_text [] = []
plain_text ((_, s) ∷ pieces) = s ++ plain_text pieces

-- Each range starts where the one in front of it ends, or behind, and ends within the `int`s.
abbrev pub Chained : ℕ → List PositionRange → Type 0
Chained lo [] = Unit
Chained lo (r ∷ rs) =
    (lo ≤ r.start_pos) × (r.start_pos + r.len < half) × Chained (r.start_pos + r.len) rs

-- The pieces show the text from `pos` on.
abbrev pub Shows : Bytes → ℕ → Option Pieces → Type 0
Shows text pos o = (pieces : Pieces) × o ≡ some pieces × plain_text pieces ≡ drop pos text

Chained-weaken : (lo lo' : ℕ) (rs : List PositionRange) → lo' ≤ lo → Chained lo rs → Chained lo' rs
Chained-weaken lo lo' [] h c = tt
Chained-weaken lo lo' (r ∷ rs) h (a, b, c) = (omega (arith, a, h), b, c)

module _ (text : Bytes) where
  onto-Shows :
      (k : Option ℕ) (a b : ℕ) (o : Option Pieces)
      → a ≤ b
      → b ≤ length text
      → Shows text b o
      → Shows text a (onto (k, slice text a b) o)
  unfolding plain_text
  onto-Shows k a b o h l (pieces, e, s) = (
    (k, slice text a b) ∷ pieces,
    ap (onto (k, slice text a b)) e,
    ap (λ x. slice text a b ++ x) (s ∙ sym (slice_rest text b l))
        ∙ slice_join text a b (length text) h l
        ∙ slice_rest text a (omega (arith, h, l)),
  )

  pick_Shows :
      (a : ℕ) (x : Bool) (o o' : Option Pieces)
      → (x ≡ true → Shows text a o)
      → (x ≡ false → Shows text a o')
      → Shows text a (if x then o else o')
  pick_Shows a true o o' f g = f refl
  pick_Shows a false o o' f g = g refl

  end_of : (r : PositionRange) → ℕ
  end_of r = min_of (add_int r.start_pos r.len) (length text)

  end_bounds :
      (r : PositionRange)
      → r.start_pos < length text
      → r.start_pos + r.len < half
      → r.start_pos ≤ end_of r × end_of r ≤ length text × end_of r ≤ r.start_pos + r.len
  unfolding end_of add_int
  end_bounds r v f =
      let e : (r.start_pos + r.len) % modulus ≡ r.start_pos + r.len = omega arith in
      (ground (arith, e), ground arith, ground (arith, e))

  span_fits :
      (r : PositionRange) (p : ℕ)
      → p ≡ r.start_pos
      → r.start_pos + r.len < half
      → r.start_pos ≤ end_of r
      → ¬ ((is_negative (add_int r.start_pos r.len) || ltb (end_of r) p) ≡ true)
  unfolding add_int
  span_fits r p q f a h =
      let e : (r.start_pos + r.len) % modulus ≡ r.start_pos + r.len = omega arith in
      ground (arith, e, h, a, q, f)

  span-Shows :
      (r : PositionRange) (p : ℕ) (rest : ℕ → Option Pieces)
      → p ≡ r.start_pos
      → r.start_pos < length text
      → r.start_pos + r.len < half
      → ((e : ℕ) → e ≤ length text → e ≤ r.start_pos + r.len → Shows text e (rest e))
      → Shows text p (span text r p rest)
  unfolding end_of
  span-Shows r p rest q v f k =
      let (a, b, c) = end_bounds r v f in
      pick_Shows p (is_negative (add_int r.start_pos r.len) || ltb (end_of r) p) none
        (onto (some r.hit_count, slice text p (end_of r)) (rest (end_of r)))
        (λ h. absurd (span_fits r p q f a h))
        (λ _.
          onto-Shows (some r.hit_count) p (end_of r) (rest (end_of r)) (omega (arith, a, q)) b
            (k (end_of r) b c))

  at_end : (pos : ℕ) → pos ≤ length text → length text ≤ pos → drop pos text ≡ []
  at_end pos l k =
      let e : pos ≡ length text = omega (arith, l, k) in ap (λ n. drop n text) e ∙ drop_all text

  render_from-Shows :
      (rs : List PositionRange) (pos : ℕ)
      → pos ≤ length text
      → Chained pos rs
      → All (λ r. r.start_pos < length text) rs
      → Shows text pos (render_from text pos rs)
  unfolding render_from plain_text
  render_from-Shows [] pos l c v =
      pick_Shows pos (ltb pos (length text)) (some ((none, drop pos text) ∷ [])) (some [])
        (λ _. ((none, drop pos text) ∷ [], refl, append-nil (drop pos text)))
        (λ h. ([], refl, sym (at_end pos l (ground (arith, h)))))
  render_from-Shows (r ∷ rs) pos l (a, b, c) (v, vs) =
      let rest = λ (p : ℕ). render_from text p rs in
      let go : (e : ℕ) → e ≤ length text → e ≤ r.start_pos + r.len → Shows text e (rest e) =
        λ e h k. render_from-Shows rs e h (Chained-weaken (r.start_pos + r.len) e rs k c) vs in
      let start = min_of r.start_pos (length text) in
      let s : start ≡ r.start_pos = ground (arith, v) in
      pick_Shows pos (ltb pos (length text))
        (if ltb pos r.start_pos
          then onto (none, slice text pos start) (span text r start rest)
          else span text r pos rest)
        (some [])
        (λ _.
          pick_Shows pos (ltb pos r.start_pos)
            (onto (none, slice text pos start) (span text r start rest)) (span text r pos rest)
            (λ h.
              onto-Shows none pos start (span text r start rest) (omega (arith, a, s))
                (omega (arith, s, v)) (span-Shows r start rest s v b go))
            (λ h. span-Shows r pos rest (ground (arith, h, a)) v b go))
        (λ h. absurd (ground (arith, h, a, v)))

pick_Chained :
    (lo : ℕ) (x : Bool) (rs rs' : List PositionRange)
    → (x ≡ true → Chained lo rs)
    → (x ≡ false → Chained lo rs')
    → Chained lo (if x then rs else rs')
pick_Chained lo true rs rs' f g = f refl
pick_Chained lo false rs rs' f g = g refl

valid_ranges-Chained :
    (n lo : ℕ) (rs : List PositionRange) → Chained lo rs → Chained lo (valid_ranges n rs)
unfolding valid_ranges
valid_ranges-Chained n lo [] c = tt
valid_ranges-Chained n lo (r ∷ rs) (a, b, c) =
    pick_Chained lo (ltb r.start_pos n) (r ∷ valid_ranges n rs) (valid_ranges n rs)
      (λ _. (a, b, valid_ranges-Chained n (r.start_pos + r.len) rs c))
      (λ _.
        valid_ranges-Chained n lo rs
          (Chained-weaken (r.start_pos + r.len) lo rs (omega (arith, a)) c))

valid_ranges-All :
    (n : ℕ) (rs : List PositionRange) → All (λ r. r.start_pos < n) (valid_ranges n rs)
unfolding valid_ranges
valid_ranges-All n [] = tt
valid_ranges-All n (r ∷ rs) =
    pick_All (ltb r.start_pos n) (λ h. (ltb→lt r.start_pos n h, valid_ranges-All n rs))
      (valid_ranges-All n rs)
  where
    pick_All :
        (x : Bool)
        → (x ≡ true → All (λ s. s.start_pos < n) (r ∷ valid_ranges n rs))
        → All (λ s. s.start_pos < n) (valid_ranges n rs)
        → All (λ s. s.start_pos < n) (if x then r ∷ valid_ranges n rs else valid_ranges n rs)
    pick_All true f g = f refl
    pick_All false f g = g

plain_from-Chained :
    (cur : ℕ) (rs : List PositionRange) → All Fits rs → Chained cur (plain_from cur rs)
unfolding plain_from
plain_from-Chained cur [] f = tt
plain_from-Chained cur (r ∷ rs) (f, fs) =
    let stop = r.start_pos + r.len in
    let start = if leb r.start_pos cur then cur else r.start_pos in
    let lo : cur ≤ start = ground arith in
    pick_Chained cur (leb stop start) (plain_from cur rs)
      (record { start_pos = start; len = stop - start; hit_count = r.hit_count }
        ∷ plain_from stop rs)
      (λ _. plain_from-Chained cur rs fs)
      (λ h.
        let k : start + (stop - start) ≡ stop = omega (arith, below stop start h) in
        (
          lo,
          omega (arith, k, f),
          Chained-weaken stop (start + (stop - start)) (plain_from stop rs) (omega (arith, k))
              (plain_from-Chained stop rs fs),
        ))
  where
    below : (a b : ℕ) → leb a b ≡ false → b < a
    below a b h = ground (arith, h)

-- For ranges that end within the `int`s, in any order, the page shows the source itself: rendering with
-- the resolved ranges never slices out of bounds, and the texts of the pieces joined are the source.
pub render-resolve_overlapping_ranges :
    (text : Bytes) (ranges : List PositionRange)
    → All Fits ranges
    → (pieces : Pieces) × render_source_with_positions text (resolve_overlapping_ranges ranges)
        ≡ some pieces
      × plain_text pieces ≡ text
unfolding render_source_with_positions resolve_overlapping_ranges
render-resolve_overlapping_ranges text ranges f =
    let e = resolve-plain_from ranges 0 (omega arith) f in
    let n = length text in
    render_from-Shows text (valid_ranges n (resolve_from 0 ranges)) 0 (omega arith)
      (valid_ranges-Chained n 0 (resolve_from 0 ranges)
        (subst (Chained 0) (sym e) (plain_from-Chained 0 ranges f)))
      (valid_ranges-All n (resolve_from 0 ranges))

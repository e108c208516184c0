-- ===== src/Report/Lcov/Lines.antt =====
-- The counts of the lines, and the line of a position.
use pgcov.Base.{
  ℕ, zero, suc, take, length, leb, ◌&&◌, Bool-cases, inl, inr, ◌+◌, ◌%◌, ◌<◌, Bool, true, false,
  List, [], ◌∷◌, ◌==◌, ltb, if◌then◌else◌, Bytes, ◌≡◌, refl, ap, ◌∙◌, arith, All, Result,
}
use pgcov.Decimal.{modulus, half}
use pgcov.Key.{KeyError, parse_position_key, format_position_key}
use pgcov.Key.RoundTrip.{parse_position_key-format}
use pgcov.Parser.Lines.{newlines}
use pgcov.Coverage.{add_int}
use pgcov.Report.Lcov.{
  line_loop, position_to_line, add_line, line_of, add_entry, convert_onto,
  convert_positions_to_lines,
}

-- The count of a line; 0 where the line is not there.
abbrev pub line_hits : ℕ → List (ℕ × ℕ) → ℕ
line_hits line [] = 0
line_hits line ((l, n) ∷ m) = if line == l then n else line_hits line m

-- Lines ascend, so none stands twice.
abbrev pub Ascends : List (ℕ × ℕ) → Type 0
Ascends [] = Unit
Ascends ((l, n) ∷ m) = All (λ e. l < e.0) m × Ascends m

-- The sum of the counts whose positions the code puts on the line.
sum_at : Bytes → ℕ → List (Bytes × ℕ) → ℕ
sum_at text line [] = 0
sum_at text line ((k, n) ∷ m) =
    (if line_of text (parse_position_key k) == line then n else 0) + sum_at text line m

absent_line :
    (l line : ℕ) (m : List (ℕ × ℕ)) → line < l → All (λ e. l < e.0) m → line_hits line m ≡ 0
absent_line l line [] h k = refl
absent_line l line ((j, n) ∷ m) h k = ground (arith, absent_line l line m h k.1)

absent_self : (l : ℕ) (m : List (ℕ × ℕ)) → All (λ e. l < e.0) m → line_hits l m ≡ 0
absent_self l [] k = refl
absent_self l ((j, n) ∷ m) k = ground (arith, absent_self l m k.1)

line_hits-add_line :
    (l line h : ℕ) (m : List (ℕ × ℕ))
    → Ascends m
    → line_hits line m < modulus
    → line_hits line (add_line l h m)
      ≡ (if l == line then add_int (line_hits line m) h else line_hits line m)
unfolding add_line
line_hits-add_line l line h [] a b = ground arith
line_hits-add_line l line h ((j, n) ∷ m) a b =
    ground (arith, line_hits-add_line l line h m a.1, absent_line j line m, absent_self j m a.0)

pick {ℓ κ} :
    {A : Type ℓ} (P : A → Type κ) (b : Bool) {x y : A}
    → (b ≡ true → P x)
    → (b ≡ false → P y)
    → P (if b then x else y)
pick P true f g = f refl
pick P false f g = g refl

All-add_line :
    (i l h : ℕ) (m : List (ℕ × ℕ))
    → i < l
    → All (λ e. i < e.0) m
    → All (λ e. i < e.0) (add_line l h m)
unfolding add_line
All-add_line i l h [] p a = (p, tt)
All-add_line i l h ((j, n) ∷ m) p a =
    pick (All (λ e. i < e.0)) (l == j) (λ _. a)
      (λ _.
        pick (All (λ e. i < e.0)) (ltb l j) (λ _. (p, a)) (λ _. (a.0, All-add_line i l h m p a.1)))

All-below : (i j : ℕ) (m : List (ℕ × ℕ)) → i < j → All (λ e. j < e.0) m → All (λ e. i < e.0) m
All-below i j [] p a = tt
All-below i j ((k, n) ∷ m) p a = (omega (arith, a.0), All-below i j m p a.1)

add_line-Ascends : (l h : ℕ) (m : List (ℕ × ℕ)) → Ascends m → Ascends (add_line l h m)
unfolding add_line
add_line-Ascends l h [] a = (tt, tt)
add_line-Ascends l h ((j, n) ∷ m) a =
    pick Ascends (l == j) (λ _. a)
      (λ e.
        pick Ascends (ltb l j)
          (λ p. ((ground (arith, p), All-below l j m (ground (arith, p)) a.0), a))
          (λ p. (All-add_line j l h m (ground (arith, e, p)) a.0, add_line-Ascends l h m a.1)))

add_entry-Ascends :
    (text : Bytes) (key : Result KeyError (ℕ × ℕ)) (h : ℕ) (m : List (ℕ × ℕ))
    → Ascends m
    → Ascends (add_entry text key h m)
unfolding add_entry
add_entry-Ascends text key h m a =
    pick Ascends (ltb 0 (line_of text key)) (λ _. add_line-Ascends (line_of text key) h m a)
      (λ _. a)

line_hits-add_entry :
    (text : Bytes) (key : Result KeyError (ℕ × ℕ)) (line h : ℕ) (m : List (ℕ × ℕ))
    → 0 < line
    → Ascends m
    → line_hits line m < modulus
    → line_hits line (add_entry text key h m)
      ≡ (line_hits line m + (if line_of text key == line then h else 0)) % modulus
unfolding add_entry
line_hits-add_entry text key line h m p a b =
    ground (arith, line_hits-add_line (line_of text key) line h m a b)

line_hits-convert_onto :
    (text : Bytes) (line : ℕ) (es : List (Bytes × ℕ)) (m : List (ℕ × ℕ))
    → 0 < line
    → Ascends m
    → line_hits line m < modulus
    → line_hits line (convert_onto text es m) ≡ (line_hits line m + sum_at text line es) % modulus
unfolding convert_onto sum_at
line_hits-convert_onto text line [] m p a b = omega (arith, b)
line_hits-convert_onto text line ((k, n) ∷ es) m p a b =
    let e = line_hits-add_entry text (parse_position_key k) line n m p a b in
    let ih =
      line_hits-convert_onto text line es (add_entry text (parse_position_key k) n m) p
        (add_entry-Ascends text (parse_position_key k) n m a) (omega (arith, e)) in
    omega (arith, e, ih)

convert_positions_to_lines-sum_at :
    (text : Bytes) (line : ℕ) (pos_hits : List (Bytes × ℕ))
    → 0 < line
    → line_hits line (convert_positions_to_lines text pos_hits)
      ≡ sum_at text line pos_hits % modulus
unfolding convert_positions_to_lines
convert_positions_to_lines-sum_at text line pos_hits p =
    line_hits-convert_onto text line pos_hits [] p tt (omega arith)
    ∙ ap (λ n. n % modulus) {x = 0 + sum_at text line pos_hits} (omega arith)

line_loop-newlines :
    (n : ℕ) (s : Bytes) (line : ℕ) → line_loop n s line ≡ line + newlines (take n s)
unfolding line_loop newlines
line_loop-newlines zero s line = omega arith
line_loop-newlines (suc n) [] line = omega arith
line_loop-newlines (suc n) (c ∷ s) line = elim (Bool-cases (c == b'\n')) [
  | inl e ↦ rw e (omega (arith, line_loop-newlines n s (line + 1)))
  | inr e ↦ rw e (omega (arith, line_loop-newlines n s line))
]

-- A start, a length and a count.
abbrev pub PlaceHits : Type 0
PlaceHits = List (ℕ × ℕ × ℕ)

abbrev pub keyed : PlaceHits → List (Bytes × ℕ)
keyed [] = []
keyed ((start, len, n) ∷ es) = (format_position_key start len, n) ∷ keyed es

-- Starts and lengths are non-negative ints.
abbrev pub AreInts : PlaceHits → Type 0
AreInts = All (λ e. (e.0 < half) × (e.1 < half))

-- The position is within the text, behind as many line breaks as there are lines in front of this one.
abbrev pub is_on_line : Bytes → ℕ → ℕ → Bool
is_on_line text line start = leb start (length text) && (1 + newlines (take start text) == line)

-- The sum of the counts whose positions lie on the line.
abbrev pub sum_on_line : Bytes → ℕ → PlaceHits → ℕ
sum_on_line text line [] = 0
sum_on_line text line ((start, len, n) ∷ es) =
    (if is_on_line text line start then n else 0) + sum_on_line text line es

position_to_line-is_on_line :
    (text : Bytes) (line start : ℕ)
    → 0 < line
    → (position_to_line text start == line) ≡ is_on_line text line start
unfolding position_to_line
position_to_line-is_on_line text line start p = ground (arith, line_loop-newlines start text 1)

sum_at-keyed :
    (text : Bytes) (line : ℕ) (es : PlaceHits)
    → 0 < line
    → AreInts es
    → sum_at text line (keyed es) ≡ sum_on_line text line es
unfolding sum_at
sum_at-keyed text line [] p h = refl
sum_at-keyed text line ((start, len, n) ∷ es) p (h, hs) =
    rw
      (
        parse_position_key-format start len h.0 h.1,
        position_to_line-is_on_line text line start p,
        sum_at-keyed text line es p hs,
      )
      refl

-- For the keys of starts and lengths that are non-negative ints and a line number above 0, the count
-- that the LCOV report gives the line is the sum, as an int, of the counts of those positions that lie
-- within the source and behind as many of its line breaks as there are lines in front of this one.
pub convert_positions_to_lines_lem :
    (text : Bytes) (line : ℕ) (es : PlaceHits)
    → 0 < line
    → AreInts es
    → line_hits line (convert_positions_to_lines text (keyed es))
      ≡ sum_on_line text line es % modulus
convert_positions_to_lines_lem text line es p h =
    convert_positions_to_lines-sum_at text line (keyed es) p
    ∙ ap (λ n. n % modulus) (sum_at-keyed text line es p h)

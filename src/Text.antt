-- ===== src/Text.antt =====
-- The functions of Go's package strings that the program uses, on bytes.
pub mod Escape
pub mod Fields
pub mod Hex
pub mod Order
pub mod Utf8
use pgcov.Base.{
  ℕ, zero, suc, ◌+◌, ◌-◌, Bool, true, false, ◌&&◌, ◌||◌, Option, none, some, List, [], ◌∷◌, ◌++◌,
  ◌==◌, leb, ltb, if◌then◌else◌, Bytes, length, drop, get_or, bytes_eq,
}

-- `strings.ToLower` on the ASCII letters; other bytes are kept.
abbrev pub lower : ℕ → ℕ
lower c = if leb b'A' c && leb c b'Z' then c + 32 else c

unfoldable pub to_lower : Bytes → Bytes
to_lower [] = []
to_lower (c ∷ s) = lower c ∷ to_lower s

unfoldable pub has_prefix : Bytes → Bytes → Bool
has_prefix s [] = true
has_prefix [] (p ∷ ps) = false
has_prefix (c ∷ s) (p ∷ ps) = c == p && has_prefix s ps

unfoldable pub has_suffix : Bytes → Bytes → Bool
unfolding bytes_eq
has_suffix s p = leb (length p) (length s) && bytes_eq (drop (length s - length p) s) p

-- `strings.EqualFold` against a word of ASCII letters. Two letters outside ASCII fold to ASCII ones:
-- the long s (0xC5 0xBF) and the Kelvin sign (0xE2 0x84 0xAA).
unfoldable pub fold_width : ℕ → Bytes → ℕ
fold_width w [] = 0
fold_width w (c ∷ s) =
    if lower c == lower w
    then 1
    else if lower w == b's' && (c == 0xC5 && get_or s 0 0 == 0xBF)
    then 2
    else if lower w == b'k' && (c == 0xE2 && (get_or s 0 0 == 0x84 && get_or s 1 0 == 0xAA))
    then 3
    else 0

unfoldable pub equal_fold : Bytes → Bytes → Bool
unfolding fold_width
equal_fold [] [] = true
equal_fold (c ∷ s) [] = false
equal_fold s (w ∷ ws) = let n = fold_width w s in ltb 0 n && equal_fold (drop n s) ws

-- `strings.Index` of one byte.
unfoldable pub index_byte : ℕ → Bytes → Option ℕ
index_byte b [] = none
index_byte b (c ∷ s) =
    if c == b
    then some 0
    else elim (index_byte b s) as (λ _. Option ℕ) [ none ↦ none | some n ↦ some (suc n) ]

-- `strings.Split` and `strings.SplitSeq` at one byte.
unfoldable pub split_onto : ℕ → Bytes → Bytes → List Bytes
split_onto sep cur [] = cur ∷ []
split_onto sep cur (c ∷ s) = elim (c == sep) [
  | true ↦ cur ∷ split_onto sep [] s
  | false ↦ split_onto sep (cur ++ c ∷ []) s
]

unfoldable pub split : ℕ → Bytes → List Bytes
unfolding split_onto
split sep s = split_onto sep [] s

-- `strings.Join`
unfoldable pub join : Bytes → List Bytes → Bytes
join sep [] = []
join sep (p ∷ []) = p
join sep (p ∷ q ∷ ps) = p ++ (sep ++ join sep (q ∷ ps))

-- `strings.ReplaceAll(s, "'", "''")`
unfoldable pub double_quotes : Bytes → Bytes
double_quotes [] = []
double_quotes (c ∷ s) = (if c == b'\'' then b'\'' ∷ b'\'' ∷ [] else c ∷ []) ++ double_quotes s

abbrev pub is_blank : ℕ → Bool
is_blank c = c == b' ' || c == b'\t'

-- `strings.TrimLeft(s, " \t")`
unfoldable pub trim_blanks : Bytes → Bytes
trim_blanks [] = []
trim_blanks (c ∷ s) = if is_blank c then trim_blanks s else c ∷ s

-- The bytes of the white space, as `unicode.IsSpace` has it, that a text begins with; 0 for none.
unfoldable pub space_width : ℕ → Bytes → ℕ
space_width a s =
    let b = get_or s 0 0 in
    let c = get_or s 1 0 in
    if a == b' ' || (leb 9 a && leb a 13)
    then 1
    else if a == 0xC2 && (b == 0x85 || b == 0xA0)
    then 2
    else if (a == 0xE1 && (b == 0x9A && c == 0x80))
        || ((a == 0xE2
              && (b == 0x80
                  && ((leb 0x80 c && leb c 0x8A) || (c == 0xA8 || (c == 0xA9 || c == 0xAF)))))
            || ((a == 0xE2 && (b == 0x81 && c == 0x9F)) || (a == 0xE3 && (b == 0x80 && c == 0x80))))
    then 3
    else 0

-- Only white space behind the first `skip` bytes.
unfoldable pub all_space : ℕ → Bytes → Bool
unfolding space_width
all_space skip [] = true
all_space (suc skip) (a ∷ s) = all_space skip s
all_space zero (a ∷ s) = let w = space_width a s in ltb 0 w && all_space (w - 1) s

-- `strings.TrimSpace(s) == ""`
unfoldable pub is_empty_line : Bytes → Bool
unfolding all_space
is_empty_line s = all_space 0 s

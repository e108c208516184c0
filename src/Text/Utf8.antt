-- ===== src/Text/Utf8.antt =====
-- What UTF-8 is: the byte strings that `utf8.Valid` of Go's unicode/utf8 accepts.
use pgcov.Base.{
  ℕ, zero, suc, Bool, false, ◌&&◌, Option, none, some, [], ◌∷◌, leb, ltb, if◌then◌else◌, Bytes,
}

-- The bytes still to come of the character that was begun, and the bounds of the next one of them.
abbrev pub Pending : Type 0
Pending = ℕ × ℕ × ℕ

abbrev between_characters : Pending
between_characters = (0, 128, 191)

-- The first byte of a character.
unfoldable pub first_byte : ℕ → Option Pending
first_byte c =
    if ltb c 128
    then some between_characters
    else if leb 194 c && leb c 223
    then some (1, 128, 191)
    else if leb 224 c && leb c 224
    then some (2, 160, 191)
    else if leb 237 c && leb c 237
    then some (2, 128, 159)
    else if leb 225 c && leb c 239
    then some (2, 128, 191)
    else if leb 240 c && leb c 240
    then some (3, 144, 191)
    else if leb 241 c && leb c 243
    then some (3, 128, 191)
    else if leb 244 c && leb c 244
    then some (3, 128, 143)
    else none

unfoldable pub next_byte : Pending → ℕ → Option Pending
unfolding first_byte
next_byte (zero, low, high) c = first_byte c
next_byte (suc n, low, high) c = if leb low c && leb c high then some (n, 128, 191) else none

unfoldable pub ends_well : Option Pending → Bytes → Bool
unfolding next_byte
ends_well none s = false
ends_well (some (n, low, high)) [] = leb n 0
ends_well (some p) (c ∷ s) = ends_well (next_byte p c) s

unfoldable pub is_utf8 : Bytes → Bool
unfolding ends_well
is_utf8 s = ends_well (some between_characters) s

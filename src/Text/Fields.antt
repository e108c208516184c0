-- ===== src/Text/Fields.antt =====
-- The functions of Go's package strings that cut a text at white space, or look for a text in it.
use pgcov.Base.{
  ℕ, zero, suc, ◌-◌, true, false, ◌&&◌, Option, none, some, List, [], ◌∷◌, ◌++◌, leb, ltb,
  if◌then◌else◌, Bytes, length, take, drop,
}
use pgcov.Text.{space_width, all_space, has_prefix, has_suffix}

-- The text behind the white space that it begins with, of which `skip` bytes are still to go.
trim_left_from : ℕ → Bytes → Bytes
trim_left_from skip [] = []
trim_left_from (suc skip) (c ∷ s) = trim_left_from skip s
trim_left_from zero (c ∷ s) =
    let w = space_width c s in
    let rest = trim_left_from (w - 1) s in if ltb 0 w then rest else c ∷ s

-- The text in front of the white space that it ends with.
trim_right : Bytes → Bytes
unfolding all_space
trim_right [] = []
trim_right (c ∷ s) = let rest = trim_right s in if all_space 0 (c ∷ s) then [] else c ∷ rest

-- `strings.TrimSpace`
unfoldable pub trim_space : Bytes → Bytes
unfolding trim_left_from trim_right space_width
trim_space s = trim_right (trim_left_from 0 s)

abbrev pub field_of : Bytes → List Bytes
field_of [] = []
field_of (c ∷ s) = (c ∷ s) ∷ []

-- The fields of a text, the first of which begins with `cur`; `skip` bytes of white space are still
-- to go.
fields_from : ℕ → Bytes → Bytes → List Bytes
fields_from skip cur [] = field_of cur
fields_from (suc skip) cur (c ∷ s) = fields_from skip cur s
fields_from zero cur (c ∷ s) = elim (ltb 0 (space_width c s)) [
  | true ↦ field_of cur ++ fields_from (space_width c s - 1) [] s
  | false ↦ fields_from zero (cur ++ c ∷ []) s
]

-- `strings.Fields`
unfoldable pub fields : Bytes → List Bytes
unfolding fields_from space_width
fields s = fields_from 0 [] s

-- `strings.ToUpper` on the ASCII letters; other bytes are kept.
abbrev pub upper : ℕ → ℕ
upper c = if leb b'a' c && leb c b'z' then c - 32 else c

unfoldable pub to_upper : Bytes → Bytes
to_upper [] = []
to_upper (c ∷ s) = upper c ∷ to_upper s

-- `strings.Index`
unfoldable pub index_of : Bytes → Bytes → Option ℕ
unfolding has_prefix
index_of [] p = if has_prefix [] p then some 0 else none
index_of (c ∷ s) p =
    let rest = index_of s p in
    if has_prefix (c ∷ s) p
    then some 0
    else elim rest as (λ _. Option ℕ) [ none ↦ none | some n ↦ some (suc n) ]

-- `strings.TrimPrefix` and `strings.TrimSuffix`
unfoldable pub trim_prefix : Bytes → Bytes → Bytes
unfolding has_prefix
trim_prefix s p = if has_prefix s p then drop (length p) s else s

unfoldable pub trim_suffix : Bytes → Bytes → Bytes
unfolding has_suffix
trim_suffix s p = if has_suffix s p then take (length s - length p) s else s

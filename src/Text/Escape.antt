-- ===== src/Text/Escape.antt =====
-- `EscapeString` of Go's package html, and how a browser reads the result back: it shows the text
-- between the tags, with the entities decoded.
use pgcov.Base.{
  ℕ, ◌||◌, [], ◌∷◌, ◌++◌, ◌==◌, ==_iff, if◌then◌else◌, Bytes, codes, bytes_eq, Lacks, ◌≡◌, refl,
  sym, ap, ◌∙◌, subst, inl, inr, Bool-cases, append_assoc,
}

abbrev pub escape_byte : ℕ → Bytes
escape_byte c =
    if c == b'&'
    then codes "&amp;"
    else if c == b'\''
    then codes "&#39;"
    else if c == b'<'
    then codes "&lt;"
    else if c == b'>'
    then codes "&gt;"
    else if c == b'"'
    then codes "&#34;"
    else c ∷ []

unfoldable pub escape_string : Bytes → Bytes
escape_string [] = []
escape_string (c ∷ s) = escape_byte c ++ escape_string s

-- Where the reader stands: in a text, in a tag, or in an entity with this name so far.
pub data Mode : Type 0 where
  in_text in_tag : Mode
  in_entity : Bytes → Mode

-- The character of an entity; any other is shown as it stands.
abbrev pub decode : Bytes → Bytes
decode name =
    if bytes_eq name (codes "amp")
    then b'&' ∷ []
    else if bytes_eq name (codes "#39")
    then b'\'' ∷ []
    else if bytes_eq name (codes "lt")
    then b'<' ∷ []
    else if bytes_eq name (codes "gt")
    then b'>' ∷ []
    else if bytes_eq name (codes "#34")
    then b'"' ∷ []
    else b'&' ∷ (name ++ (b';' ∷ []))

abbrev pub emit : Mode → ℕ → Bytes
emit Mode.in_text c = if c == b'<' || c == b'&' then [] else c ∷ []
emit Mode.in_tag c = []
emit (Mode.in_entity name) c = if c == b';' then decode name else []

abbrev pub after : Mode → ℕ → Mode
after Mode.in_text c =
    if c == b'<' then Mode.in_tag else if c == b'&' then Mode.in_entity [] else Mode.in_text
after Mode.in_tag c = if c == b'>' then Mode.in_text else Mode.in_tag
after (Mode.in_entity name) c =
    if c == b';' then Mode.in_text else Mode.in_entity (name ++ (c ∷ []))

unfoldable pub shown_from : Mode → Bytes → Bytes
shown_from m [] = []
shown_from m (c ∷ s) = emit m c ++ shown_from (after m c) s

-- What a browser shows of a text.
unfoldable pub shown : Bytes → Bytes
unfolding shown_from
shown s = shown_from Mode.in_text s

mode_after : Mode → Bytes → Mode
mode_after m [] = m
mode_after m (c ∷ s) = mode_after (after m c) s

shown_from-append :
    (m : Mode) (s t : Bytes)
    → shown_from m (s ++ t) ≡ shown_from m s ++ shown_from (mode_after m s) t
unfolding shown_from mode_after
shown_from-append m [] t = refl
shown_from-append m (c ∷ s) t =
    ap (λ r. emit m c ++ r) (shown_from-append (after m c) s t)
    ∙ sym (
        append_assoc (emit m c) (shown_from (after m c) s)
          (shown_from (mode_after (after m c) s) t))

abbrev Reads : ℕ → Bytes → Type 0
Reads c s = (shown_from Mode.in_text s ≡ c ∷ []) × (mode_after Mode.in_text s ≡ Mode.in_text)

escape_byte-Reads : (c : ℕ) → Reads c (escape_byte c)
unfolding shown_from mode_after bytes_eq
escape_byte-Reads c = elim (Bool-cases (c == b'&')) [
  | inl e ↦ subst (λ x. Reads x (escape_byte x)) (sym ((==_iff c b'&').0 e)) (refl, refl)
  | inr a ↦ elim (Bool-cases (c == b'\'')) [
    | inl e ↦ subst (λ x. Reads x (escape_byte x)) (sym ((==_iff c b'\'').0 e)) (refl, refl)
    | inr q ↦ elim (Bool-cases (c == b'<')) [
      | inl e ↦ subst (λ x. Reads x (escape_byte x)) (sym ((==_iff c b'<').0 e)) (refl, refl)
      | inr l ↦ elim (Bool-cases (c == b'>')) [
        | inl e ↦ subst (λ x. Reads x (escape_byte x)) (sym ((==_iff c b'>').0 e)) (refl, refl)
        | inr g ↦ elim (Bool-cases (c == b'"')) [
          | inl e ↦ subst (λ x. Reads x (escape_byte x)) (sym ((==_iff c b'"').0 e)) (refl, refl)
          | inr d ↦ rw (a, q, l, g, d) (rw (l, a) (refl, refl))
        ]
      ]
    ]
  ]
]

-- An escaped text is shown as the text, whatever stands behind it.
pub shown-escape_string : (s t : Bytes) → shown (escape_string s ++ t) ≡ s ++ shown t
unfolding shown escape_string
shown-escape_string [] t = refl
shown-escape_string (c ∷ s) t =
    let (reads, back) = escape_byte-Reads c in
    ap shown (append_assoc (escape_byte c) (escape_string s) t)
    ∙ shown_from-append Mode.in_text (escape_byte c) (escape_string s ++ t)
    ∙ ap (λ r. r ++ shown_from (mode_after Mode.in_text (escape_byte c)) (escape_string s ++ t))
        reads
    ∙ ap (λ m. (c ∷ []) ++ shown_from m (escape_string s ++ t)) back
    ∙ ap (◌∷◌ c) (shown-escape_string s t)

in_tag_through : (s t : Bytes) → Lacks b'>' s → shown_from Mode.in_tag (s ++ (b'>' ∷ t)) ≡ shown t
unfolding shown_from shown
in_tag_through [] t h = refl
in_tag_through (c ∷ s) t (h, hs) = elim (Bool-cases (c == b'>')) [
  | inl e ↦ absurd (h ((==_iff c b'>').0 e))
  | inr e ↦ rw e (in_tag_through s t hs)
]

-- A tag is not shown.
pub shown_tag : (s t : Bytes) → Lacks b'>' s → shown (b'<' ∷ (s ++ (b'>' ∷ t))) ≡ shown t
unfolding shown shown_from
shown_tag s t h = in_tag_through s t h

-- ===== src/Scaffold/Arguments/Split.antt =====
-- An argument list is split at the commas between its arguments, and nowhere else.
use pgcov.Base.{
  ℕ, ◌≤◌, Bool, true, false, not, ◌+◌, ◌-◌, ◌&&◌, ◌==◌, Lacks, ◌||◌, List, [], ◌∷◌, ◌++◌, ltb,
  Bytes, length, slice, ◌≡◌, refl, ap, sym, ◌∙◌, All, arith, append_assoc, append-nil,
}
use pgcov.Text.{join}
use pgcov.Scaffold.Arguments.{split_from, split_args, depth_after, quoted_after, cuts}

-- The pieces joined by commas.
abbrev pub with_commas : List Bytes → Bytes
with_commas = join (b',' ∷ [])

split_cut :
    (depth : ℕ) (in_single : Bool) (cur : Bytes) (ch : ℕ) (body : Bytes)
    → cuts depth in_single ch ≡ true
    → split_from depth in_single cur (ch ∷ body) ≡ cur ∷ split_from depth in_single [] body
unfolding split_from
split_cut depth in_single cur ch body e = rw (e, split_from)

split_on :
    (depth : ℕ) (in_single : Bool) (cur : Bytes) (ch : ℕ) (body : Bytes)
    → cuts depth in_single ch ≡ false
    → split_from depth in_single cur (ch ∷ body)
      ≡ split_from
          (depth_after depth in_single ch)
          (quoted_after in_single ch)
          (cur ++ ch ∷ [])
          body
unfolding split_from
split_on depth in_single cur ch body e = rw (e, split_from)

split_end :
    (depth : ℕ) (in_single : Bool) (cur : Bytes) → split_from depth in_single cur [] ≡ cur ∷ []
unfolding split_from
split_end depth in_single cur = refl

join_cut :
    (cur : Bytes) (pieces : List Bytes) (p : Bytes) (ps : List Bytes)
    → pieces ≡ p ∷ ps
    → with_commas (cur ∷ pieces) ≡ cur ++ (b',' ∷ with_commas pieces)
unfolding join
join_cut cur pieces p ps e = rw e

-- A byte that is not part of a string and opens or closes nothing; a comma only inside parentheses.
abbrev pub is_plain : Bool → ℕ → Bool
is_plain inside c =
    not (c == b'\'') && (not (c == b'(') && (not (c == b')') && (inside || not (c == b','))))

-- A text whose parentheses match, with strings in which anything but a quote stands; outside of both
-- it has no comma, unless it stands inside parentheses itself.
pub data Balanced : Bool → Bytes → Type 0 where
  empty : {inside : Bool} → Balanced inside []
  plain :
      {inside : Bool} (c : ℕ) {s : Bytes}
      → is_plain inside c ≡ true
      → Balanced inside s
      → Balanced inside (c ∷ s)
  quoted :
      {inside : Bool} (text : Bytes) {s : Bytes}
      → Lacks b'\'' text
      → Balanced inside s
      → Balanced inside (b'\'' ∷ (text ++ (b'\'' ∷ s)))
  group :
      {inside : Bool} {inner s : Bytes}
      → Balanced true inner
      → Balanced inside s
      → Balanced inside (b'(' ∷ (inner ++ (b')' ∷ s)))

-- Inside a string nothing is cut.
split_from-quoted :
    (depth : ℕ) (cur text rest : Bytes)
    → Lacks b'\'' text
    → split_from depth true cur (text ++ rest) ≡ split_from depth true (cur ++ text) rest
split_from-quoted depth cur [] rest h = rw (append-nil cur) refl
split_from-quoted depth cur (c ∷ text) rest (h, hs) =
    let still : quoted_after true c ≡ true = ground (arith, h) in
    split_on depth true cur c (text ++ rest) refl
    ∙ ap (λ q. split_from depth q (cur ++ c ∷ []) (text ++ rest)) still
    ∙ split_from-quoted depth (cur ++ c ∷ []) text rest hs
    ∙ ap (λ t. split_from depth true t rest) (append_assoc cur (c ∷ []) text)

regroup :
    (cur text : Bytes) (a : ℕ) (s : Bytes) (b : ℕ)
    → (((cur ++ a ∷ []) ++ text) ++ b ∷ []) ++ s ≡ cur ++ (a ∷ (text ++ (b ∷ s)))
regroup cur text a s b =
    append_assoc ((cur ++ a ∷ []) ++ text) (b ∷ []) s
    ∙ append_assoc (cur ++ a ∷ []) text (b ∷ s)
    ∙ append_assoc cur (a ∷ []) (text ++ (b ∷ s))

-- A balanced text is read without a cut, and leaves the state as it was.
split_from-Balanced :
    {inside : Bool} {s : Bytes}
    → Balanced inside s
    → (depth : ℕ) (cur rest : Bytes) → (inside && depth == 0) ≡ false
    → split_from depth false cur (s ++ rest) ≡ split_from depth false (cur ++ s) rest
split_from-Balanced Balanced.empty depth cur rest f = rw (append-nil cur) refl
split_from-Balanced (Balanced.plain {inside} c {s} p b) depth cur rest f =
    let on : cuts depth false c ≡ false = ground (arith, p, f) in
    let deep : depth_after depth false c ≡ depth = ground (arith, p) in
    let out : quoted_after false c ≡ false = ground (arith, p) in
    split_on depth false cur c (s ++ rest) on
    ∙ ap (λ d. split_from d (quoted_after false c) (cur ++ c ∷ []) (s ++ rest)) deep
    ∙ ap (λ q. split_from depth q (cur ++ c ∷ []) (s ++ rest)) out
    ∙ split_from-Balanced b depth (cur ++ c ∷ []) rest f
    ∙ ap (λ t. split_from depth false t rest) (append_assoc cur (c ∷ []) s)
split_from-Balanced (Balanced.quoted text {s} l b) depth cur rest f =
    let q : ℕ = b'\'' in
    let opened : Bytes = cur ++ q ∷ [] in
    split_on depth false cur q ((text ++ (q ∷ s)) ++ rest) refl
    ∙ ap (split_from depth true opened) (append_assoc text (q ∷ s) rest)
    ∙ split_from-quoted depth opened text (q ∷ (s ++ rest)) l
    ∙ split_on depth true (opened ++ text) q (s ++ rest) refl
    ∙ split_from-Balanced b depth ((opened ++ text) ++ q ∷ []) rest f
    ∙ ap (λ t. split_from depth false t rest) (regroup cur text q s q)
split_from-Balanced (Balanced.group {inner = inner} {s} i b) depth cur rest f =
    let opened : Bytes = cur ++ b'(' ∷ [] in
    split_on depth false cur b'(' ((inner ++ (b')' ∷ s)) ++ rest) refl
    ∙ ap (split_from (depth + 1) false opened) (append_assoc inner (b')' ∷ s) rest)
    ∙ split_from-Balanced i (depth + 1) opened (b')' ∷ (s ++ rest)) (ground arith)
    ∙ split_on (depth + 1) false (opened ++ inner) b')' (s ++ rest) refl
    ∙ ap (λ d. split_from d false ((opened ++ inner) ++ b')' ∷ []) (s ++ rest)) {x = depth + 1 - 1}
        (omega arith)
    ∙ split_from-Balanced b depth ((opened ++ inner) ++ b')' ∷ []) rest f
    ∙ ap (λ t. split_from depth false t rest) (regroup cur inner b'(' s b')')

-- The arguments joined by commas are split into these arguments again.
split_from-with_commas :
    (arg : Bytes) (args : List Bytes)
    → All (Balanced false) (arg ∷ args)
    → split_from 0 false [] (with_commas (arg ∷ args)) ≡ arg ∷ args
split_from-with_commas arg [] (b, h) =
    let alone : with_commas (arg ∷ []) ≡ arg ++ [] = unfold join in sym (append-nil arg) in
    ap (split_from 0 false []) alone ∙ split_from-Balanced b 0 [] [] refl ∙ split_end 0 false arg
split_from-with_commas arg (next ∷ args) (b, h) =
    ap (split_from 0 false []) (join_cut arg (next ∷ args) next args refl)
    ∙ split_from-Balanced b 0 [] (b',' ∷ with_commas (next ∷ args)) refl
    ∙ split_cut 0 false arg b',' (with_commas (next ∷ args)) refl
    ∙ ap (◌∷◌ arg) (split_from-with_commas next args h)

-- Where the text between the bounds is one or more arguments joined by commas, in each of which the
-- parentheses match and every comma stands in parentheses or in a string, it is split into these
-- arguments again.
pub split_args-with_commas :
    (sql : Bytes) (start stop : ℕ) (arg : Bytes) (args : List Bytes)
    → start ≤ stop
    → stop ≤ length sql
    → slice sql start stop ≡ with_commas (arg ∷ args)
    → All (Balanced false) (arg ∷ args)
    → split_args sql start stop ≡ arg ∷ args
unfolding split_args
split_args-with_commas sql start stop arg args a b e h =
    let inside : (ltb stop start || ltb (length sql) stop) ≡ false = ground arith in
    rw (inside, e) (split_from-with_commas arg args h)

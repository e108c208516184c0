-- ===== src/Scaffold/Render/Commented.antt =====
-- A scaffold is made of comments and empty lines.
use pgcov.Base.{
  ℕ, ◌+◌, true, List, [], ◌∷◌, ◌++◌, ◌==◌, if◌then◌else◌, Bytes, codes, bytes_eq, length, ◌≡◌, ◌≢◌,
  ◌⊎◌, inl, inr, refl, ap, ◌∙◌, All, All-append, All_map, Lacks, Bool-cases, arith, append_assoc,
  append-nil, ==_iff,
}
use pgcov.Text.{split, split_onto, has_prefix}
use pgcov.Decimal.{print_int}
use pgcov.Key.RoundTrip.{print_int_avoids}
use pgcov.Scaffold.Functions.{FunctionInfo}
use pgcov.Scaffold.Render.{
  text_of, header_lines, no_function_lines, qualifier, args_display, function_lines,
  all_function_lines, body_lines, generate_scaffold,
}

abbrev newline : ℕ
newline = b'\n'

-- A comment of SQL up to the end of the line, or nothing.
abbrev pub IsComment : Bytes → Type 0
IsComment l = (l ≡ []) ⊎ (has_prefix l (codes "--") ≡ true)

-- A line that the scaffold may have: it has no line break of its own.
abbrev Good : Bytes → Type 0
Good l = Lacks newline l × IsComment l

split_onto-line :
    (cur l rest : Bytes)
    → Lacks newline l
    → split_onto newline cur (l ++ (newline ∷ rest)) ≡ (cur ++ l) ∷ split newline rest
unfolding split split_onto
split_onto-line cur [] rest h = rw (append-nil cur) refl
split_onto-line cur (c ∷ l) rest (h, hs) = elim (Bool-cases (c == newline)) [
  | inl e ↦ absurd (h ((==_iff c newline).0 e))
  | inr e ↦
      rw (e, split_onto)
        (split_onto-line (cur ++ (c ∷ [])) l rest hs
          ∙ ap (λ t. t ∷ split newline rest) (append_assoc cur (c ∷ []) l))
]

-- Splitting the text at its line breaks gives the lines back, and nothing behind the last one.
split-text_of :
    (ls : List Bytes) → All (Lacks newline) ls → split newline (text_of ls) ≡ ls ++ ([] ∷ [])
unfolding split
split-text_of [] h = unfold split_onto in refl
split-text_of (l ∷ ls) (h, hs) =
    ap (split_onto newline []) (append_assoc l (newline ∷ []) (text_of ls))
    ∙ split_onto-line [] l (text_of ls) h
    ∙ ap (◌∷◌ l) (split-text_of ls hs)

IsComment-of : (l : Bytes) → IsComment (b'-' ∷ b'-' ∷ l)
unfolding has_prefix
IsComment-of l = inr refl

abbrev joined : (a b : Bytes) → Lacks newline a → Lacks newline b → Lacks newline (a ++ b)
joined = All-append (λ c. c ≢ newline)

digits_Lacks : (n : ℕ) → Lacks newline (print_int n)
digits_Lacks = print_int_avoids newline (omega arith)

infixr 3 ◌then◌
abbrev ◌then◌ : {A B : Type 0} → A → B → A × B
a then b = (a, b)

-- The names and the arguments of the function have no line break.
abbrev pub OneLine : FunctionInfo → Type 0
OneLine fn = Lacks newline fn.schema × Lacks newline fn.name × Lacks newline fn.args

qualifier_Lacks : (fn : FunctionInfo) → OneLine fn → Lacks newline (qualifier fn)
qualifier_Lacks fn (s, n, a) = elim (Bool-cases (bytes_eq fn.schema [])) [
  | inl e ↦ rw e n
  | inr e ↦ rw e (joined fn.schema (b'.' ∷ fn.name) s (omega arith, n))
]

args_Lacks : (fn : FunctionInfo) → OneLine fn → Lacks newline (args_display fn)
args_Lacks fn (s, n, a) = elim (Bool-cases (bytes_eq fn.args [])) [
  | inl e ↦ rw e (omega arith)
  | inr e ↦ rw e a
]

header_lines-Good : (rel : Bytes) → Lacks newline rel → All Good (header_lines rel)
header_lines-Good rel h =
    (joined (codes "-- Auto-generated scaffold for ") rel (omega arith) h, IsComment-of _)
    then (omega arith, IsComment-of _)
    then (omega arith, IsComment-of _)
    then (omega arith, IsComment-of _)
    then (omega arith, IsComment-of _)
    then (omega arith, IsComment-of _)
    then (omega arith, IsComment-of _)
    then (
      joined (codes "-- and run 'pgcov run' to collect coverage against ") _ (omega arith)
          (joined rel (codes ".") h (omega arith)),
      IsComment-of _,
    )
    then (tt, inl refl)
    then tt

no_function_lines-Good : (rel : Bytes) → Lacks newline rel → All Good (no_function_lines rel)
no_function_lines-Good rel h =
    (
      joined (codes "-- No CREATE [OR REPLACE] FUNCTION statements were detected in ") _
          (omega arith) (joined rel (codes ".") h (omega arith)),
      IsComment-of _,
    )
    then (omega arith, IsComment-of _)
    then tt

function_lines-Good : (i n : ℕ) (fn : FunctionInfo) → OneLine fn → All Good (function_lines i n fn)
function_lines-Good i n fn h =
    let q = qualifier_Lacks fn h in
    (
      joined (codes "-- Function ") _ (omega arith) (
          joined (print_int (i + 1)) _ (digits_Lacks (i + 1)) (
            joined (codes " of ") _ (omega arith) (
              joined (print_int n) _ (digits_Lacks n) (
                joined (codes ": ") _ (omega arith) (
                  joined (qualifier fn) _ q (
                    joined (codes " (line ") _ (omega arith) (
                      joined (print_int fn.start_line) (codes ")") (digits_Lacks fn.start_line)
                        (omega arith)))))))),
      IsComment-of _,
    )
    then (
      joined (codes "-- SELECT ") _ (omega arith) (
          joined (qualifier fn) _ q (
            joined (codes "(") _ (omega arith)
              (joined (args_display fn) (codes ");") (args_Lacks fn h) (omega arith)))),
      IsComment-of _,
    )
    then (omega arith, IsComment-of _)
    then (omega arith, IsComment-of _)
    then (
      joined (codes "--     PERFORM ") _ (omega arith) (joined (qualifier fn) _ q (omega arith)),
      IsComment-of _,
    )
    then (omega arith, IsComment-of _)
    then (tt, inl refl)
    then tt

all_function_lines-Good :
    (i n : ℕ) (fns : List FunctionInfo) → All OneLine fns → All Good (all_function_lines i n fns)
all_function_lines-Good i n [] h = tt
all_function_lines-Good i n (fn ∷ fns) (h, hs) =
    All-append Good (function_lines i n fn) (all_function_lines (i + 1) n fns)
      (function_lines-Good i n fn h) (all_function_lines-Good (i + 1) n fns hs)

body_lines-Good :
    (rel : Bytes) (fns : List FunctionInfo)
    → Lacks newline rel
    → All OneLine fns
    → All Good (body_lines rel fns)
body_lines-Good rel [] r h = no_function_lines-Good rel r
body_lines-Good rel (fn ∷ fns) r h = all_function_lines-Good 0 (length (fn ∷ fns)) (fn ∷ fns) h

-- Where the path, the names and the arguments have no line break, every line of a scaffold is empty
-- or a comment, so it executes nothing until it is edited.
pub generate_scaffold-IsComment :
    (rel : Bytes) (fns : List FunctionInfo)
    → Lacks newline rel
    → All OneLine fns
    → All IsComment (split newline (generate_scaffold rel fns))
unfolding generate_scaffold
generate_scaffold-IsComment rel fns r h =
    let ls = header_lines rel ++ body_lines rel fns in
    let good : All Good ls =
      All-append Good (header_lines rel) (body_lines rel fns) (header_lines-Good rel r)
        (body_lines-Good rel fns r h) in
    rw (split-text_of ls (All_map Good (Lacks newline) (λ l g. g.0) ls good)) (
      All-append IsComment ls ([] ∷ []) (All_map Good IsComment (λ l g. g.1) ls good)
        (inl refl, tt))

-- ===== src/Examples/Scaffolding.antt =====
-- The scaffold generator at concrete inputs.
use pgcov.Base.{
  Bool, true, ℕ, zero, suc, false, none, List, [], ◌∷◌, ◌&&◌, ◌++◌, if◌then◌else◌, Bytes, codes,
  bytes_eq, bytes_eq_iff, length, ◌≡◌, refl, subst, sym, arith, ok, err, All, Bool-cases, inl, inr,
}
use Prim.Native.String.{String}
use pgcov.Text.{split, equal_fold}
use pgcov.Text.Fields.{trim_suffix}
use pgcov.Lexer.{Token, Lexer, Ordered, ScansInOrder}
use pgcov.Discovery.{Stat}
use pgcov.Text.{join}
use pgcov.Scaffold.Arguments.{split_args, format_arg_list}
use pgcov.Scaffold.Arguments.Split.{is_plain, Balanced, split_args-with_commas}
use pgcov.Scaffold.Functions.{FunctionInfo, extract_functions}
use pgcov.Scaffold.Functions.Lines.{Ascending}
use pgcov.Scaffold.Functions.Grammar.{Reads}
use pgcov.Scaffold.Functions.Reads.{extract_functions_lem}
use pgcov.Scaffold.Render.{generate_scaffold}
use pgcov.Scaffold.Render.Commented.{IsComment, generate_scaffold-IsComment}
use pgcov.Scaffold.Create.{Disk, InitError, init}
use pgcov.Scaffold.Create.Overwrite.{Safe, init-Safe}

abbrev tok : ℕ → ℕ → String → Token
tok ty pos text = record { ty = ty; pos = pos; text = codes text }

abbrev two_functions : Bytes
two_functions =
    codes "SELECT 1; CREATE FUNCTION s.f(a int, IN b text); CREATE OR REPLACE FUNCTION g()"

abbrev two_functions_tokens : List Token
two_functions_tokens =
    tok 1001 0 "SELECT"
    ∷ tok 1012 7 "1"
    ∷ tok 59 8 ";"
    ∷ tok 1001 10 "CREATE"
    ∷ tok 1001 17 "FUNCTION"
    ∷ tok 1001 26 "s"
    ∷ tok 46 27 "."
    ∷ tok 1001 28 "f"
    ∷ tok 40 29 "("
    ∷ tok 1001 30 "a"
    ∷ tok 1001 32 "int"
    ∷ tok 44 35 ","
    ∷ tok 1001 37 "IN"
    ∷ tok 1001 40 "b"
    ∷ tok 1001 42 "text"
    ∷ tok 41 46 ")"
    ∷ tok 59 47 ";"
    ∷ tok 1001 49 "CREATE"
    ∷ tok 1001 56 "OR"
    ∷ tok 1001 59 "REPLACE"
    ∷ tok 1001 67 "FUNCTION"
    ∷ tok 1001 76 "g"
    ∷ tok 40 77 "("
    ∷ tok 41 78 ")"
    ∷ []

-- A lexer that knows one text.
abbrev one_text : Lexer
one_text = record {
  tokens = λ s. if bytes_eq s two_functions then two_functions_tokens else [];
  split_statements = λ s. [];
  comment = 1000;
  ident = 1001;
  s_const = 1002;
  k_begin = 1003;
  k_end = 1004;
  k_loop = 1005;
  k_declare = 1006;
  k_exception = 1007;
  k_return = 1008;
  k_raise = 1009;
  k_notice = 1010;
  k_warning = 1011;
  k_info = 1013;
  k_log = 1014;
  k_debug = 1015;
}

two_functions_tokens-Ordered : Ordered 0 79 two_functions_tokens
two_functions_tokens-Ordered = omega arith

one_text-ScansInOrder : ScansInOrder one_text
one_text-ScansInOrder s = elim (Bool-cases (bytes_eq s two_functions)) [
  | inl e ↦ rw e (
      subst (λ t. Ordered 0 (length t) two_functions_tokens)
        (sym ((bytes_eq_iff s two_functions).0 e)) two_functions_tokens-Ordered)
  | inr e ↦ rw e tt
]

abbrev info_f : FunctionInfo
info_f = record { schema = codes "s"; name = codes "f"; args = codes "int, b text"; start_line = 1 }

abbrev info_g : FunctionInfo
info_g = record { schema = []; name = codes "g"; args = []; start_line = 1 }

two_functions_found : extract_functions one_text two_functions ≡ info_f ∷ info_g ∷ []
unfolding extract_functions bytes_eq equal_fold
two_functions_found = refl

extract_functions_lem_example :
    Ascending (extract_functions one_text two_functions)
    × Reads one_text two_functions
        (one_text.tokens two_functions)
        (extract_functions one_text two_functions)
extract_functions_lem_example = extract_functions_lem one_text two_functions one_text-ScansInOrder

abbrev argument_text : Bytes
argument_text = codes "(a integer, IN b text DEFAULT 'x,y', numeric(1, 2))"

arguments_split :
    format_arg_list (split_args argument_text 1 50) ≡ codes "integer, b text, numeric(1, 2)"
unfolding format_arg_list split_args
arguments_split = refl

-- A type of two words without a name loses the first.
two_words_cut : format_arg_list (codes "double precision" ∷ []) ≡ codes "precision"
unfolding format_arg_list
two_words_cut = refl

are_plain : Bool → Bytes → Bool
are_plain inside [] = true
are_plain inside (c ∷ text) = is_plain inside c && are_plain inside text

Balanced-append :
    (inside : Bool) (text : Bytes) {s : Bytes}
    → are_plain inside text ≡ true
    → Balanced inside s
    → Balanced inside (text ++ s)
unfolding are_plain
Balanced-append inside [] h b = b
Balanced-append inside (c ∷ text) h b =
    Balanced.plain c (ground arith) (Balanced-append inside text (ground arith) b)

three_arguments-Balanced :
    All
      (Balanced false)
      (codes "a integer" ∷ codes " IN b text DEFAULT 'x,y'" ∷ codes " numeric(1, 2)" ∷ [])
unfolding are_plain
three_arguments-Balanced = (
  Balanced-append false (codes "a integer") refl Balanced.empty,
  (
    Balanced-append false (codes " IN b text DEFAULT ") refl
        (Balanced.quoted (codes "x,y") (omega arith) Balanced.empty),
    (
      Balanced-append false (codes " numeric") refl
          (Balanced.group (Balanced-append true (codes "1, 2") refl Balanced.empty) Balanced.empty),
      tt,
    ),
  ),
)

-- The comma in the string and the one in the parentheses do not cut.
split_args-with_commas_example :
    split_args argument_text 1 50
    ≡ codes "a integer" ∷ codes " IN b text DEFAULT 'x,y'" ∷ codes " numeric(1, 2)" ∷ []
split_args-with_commas_example =
    split_args-with_commas argument_text 1 50 (codes "a integer")
      (codes " IN b text DEFAULT 'x,y'" ∷ codes " numeric(1, 2)" ∷ []) (omega arith) (omega arith)
      (unfold join in refl) three_arguments-Balanced

generate_scaffold-IsComment_example :
    All IsComment (split b'\n' (generate_scaffold (codes "a.sql") (info_f ∷ info_g ∷ [])))
generate_scaffold-IsComment_example =
    generate_scaffold-IsComment (codes "a.sql") (info_f ∷ info_g ∷ []) (omega arith) (omega arith)

-- A disk with one source; its world counts the files written, and the target is there from the first
-- one on.
abbrev small_disk : Disk ℕ
small_disk = record {
  abs = λ p. ok p;
  dir = λ p. codes "/r";
  base = λ p. p;
  ext = λ p. codes ".sql";
  join = λ d f. f;
  to_slash = λ p. p;
  stat = λ p n.
      if bytes_eq p (codes "a.sql")
      then Stat.stat_file
      else elim n [ zero ↦ Stat.stat_missing | suc m ↦ Stat.stat_file ];
  read_file = λ p n. ok two_functions;
  mkdir_all = λ d n. (none, n);
  write_file = λ p t n. (none, suc n);
}

written_once : init small_disk one_text (codes "a.sql") [] false 0 ≡ (ok (codes "a_test.sql"), 1)
unfolding init bytes_eq equal_fold trim_suffix
written_once = refl

not_written_twice :
    init small_disk one_text (codes "a.sql") [] false 1
    ≡ (err (InitError.output_exists (codes "a_test.sql")), 1)
unfolding init bytes_eq equal_fold trim_suffix
not_written_twice = refl

init-Safe_example :
    Safe small_disk one_text
      (codes "a.sql")
      []
      false
      0
      (init small_disk one_text (codes "a.sql") [] false 0)
init-Safe_example = init-Safe small_disk one_text (codes "a.sql") [] false 0

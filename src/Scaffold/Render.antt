-- ===== src/Scaffold/Render.antt =====
-- `generateScaffold` of internal/cli/init.go: the text of a scaffold.
pub mod Commented
use pgcov.Base.{
  ℕ, zero, suc, ◌+◌, Bool, List, [], ◌∷◌, ◌++◌, if◌then◌else◌, Bytes, codes, bytes_eq, length,
}
use pgcov.Decimal.{print_int}
use pgcov.Scaffold.Functions.{FunctionInfo}

-- A line that `fmt.Fprintf` writes.
abbrev pub line : Bytes → Bytes
line text = text ++ (b'\n' ∷ [])

-- The lines of a text that ends with the last of them.
abbrev pub text_of : List Bytes → Bytes
text_of [] = []
text_of (l ∷ ls) = line l ++ text_of ls

abbrev pub header_lines : Bytes → List Bytes
header_lines rel =
    (codes "-- Auto-generated scaffold for " ++ rel)
    ∷ codes "-- pgcov init produced this file. Edit freely; rerun 'pgcov init' with --force"
    ∷ codes "-- to regenerate. Functions are detected in source order."
    ∷ codes "--"
    ∷ codes "-- Each function below ships with a commented sample call and a DO"
    ∷ codes "-- block template for multi-step coverage scenarios. Uncomment, fill in"
    ∷ codes "-- literal argument values that match the function's parameter list,"
    ∷ (codes "-- and run 'pgcov run' to collect coverage against " ++ (rel ++ codes "."))
    ∷ []
    ∷ []

abbrev pub no_function_lines : Bytes → List Bytes
no_function_lines rel =
    (codes "-- No CREATE [OR REPLACE] FUNCTION statements were detected in " ++ (rel ++ codes "."))
    ∷ codes "-- Add a SELECT against a table here, then run 'pgcov run'."
    ∷ []

abbrev pub qualifier : FunctionInfo → Bytes
qualifier fn = if bytes_eq fn.schema [] then fn.name else fn.schema ++ (b'.' ∷ fn.name)

-- The dash is U+2014, in UTF-8.
abbrev pub args_display : FunctionInfo → Bytes
args_display fn = if bytes_eq fn.args [] then 0xE2 ∷ 0x80 ∷ 0x94 ∷ [] else fn.args

-- The lines for the function at position `i` of `n`.
abbrev pub function_lines : ℕ → ℕ → FunctionInfo → List Bytes
function_lines i n fn =
    (codes "-- Function "
      ++ (print_int (i + 1)
          ++ (codes " of "
              ++ (print_int n
                  ++ (codes ": "
                      ++ (qualifier fn
                          ++ (codes " (line " ++ (print_int fn.start_line ++ codes ")"))))))))
    ∷ (codes "-- SELECT " ++ (qualifier fn ++ (codes "(" ++ (args_display fn ++ codes ");"))))
    ∷ codes "--"
    ∷ codes "-- DO $$ BEGIN"
    ∷ (codes "--     PERFORM " ++ (qualifier fn ++ codes "(/* fill in literal arguments */);"))
    ∷ codes "-- END $$;"
    ∷ []
    ∷ []

abbrev pub all_function_lines : ℕ → ℕ → List FunctionInfo → List Bytes
all_function_lines i n [] = []
all_function_lines i n (fn ∷ fns) = function_lines i n fn ++ all_function_lines (i + 1) n fns

abbrev pub body_lines : Bytes → List FunctionInfo → List Bytes
body_lines rel [] = no_function_lines rel
body_lines rel (fn ∷ fns) = all_function_lines 0 (length (fn ∷ fns)) (fn ∷ fns)

-- `rel` is `filepath.ToSlash` of the path of the source.
unfoldable pub generate_scaffold : Bytes → List FunctionInfo → Bytes
unfolding bytes_eq
generate_scaffold rel functions = text_of (header_lines rel ++ body_lines rel functions)

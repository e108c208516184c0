-- ===== src/Examples/Weaving.antt =====
-- The instrumenter on a small function, with a lexer that takes each byte but a space for a token.
use pgcov.Base.{
  ℕ, ◌+◌, ◌≤◌, Bool, true, false, none, some, List, [], ◌∷◌, ◌==◌, if◌then◌else◌, Bytes, codes,
  length, ◌≡◌, refl, arith, err,
}
use pgcov.Lexer.{Token, Lexer, Ordered, ScansInOrder}
use pgcov.Parser.{Statement, StatementType}
use pgcov.Instrument.{instrument_body}
use pgcov.Instrument.Weave.{Woven}
use pgcov.Instrument.Preserve.{made}
use pgcov.Instrument.Loop.{BodyInPlace, instrument_body-Woven}
use pgcov.Instrument.Files.{ParsedSql, Failure, instrument_statement, generate_coverage_instruments}
use pgcov.Instrument.Files.Statements.{Kept, HasFile, instrument_statement-Kept, generate_panics}

-- A token of one byte, with the byte as its type.
unfoldable pub tokens_from : ℕ → Bytes → List Token
tokens_from p [] = []
tokens_from p (c ∷ s) =
    let rest = tokens_from (p + 1) s in
    if c == b' ' then rest else record { ty = c; pos = p; text = c ∷ [] } ∷ rest

abbrev pub small_lexer : Lexer
small_lexer = record {
  tokens = λ s. tokens_from 0 s;
  split_statements = λ s. tokens_from 0 s ∷ [];
  comment = 1000;
  ident = 1001;
  s_const = 1002;
  k_begin = b'N';
  k_end = b'E';
  k_loop = 1003;
  k_declare = 1004;
  k_exception = 1005;
  k_return = b'R';
  k_raise = 1006;
  k_notice = 1007;
  k_warning = 1008;
  k_info = 1009;
  k_log = 1010;
  k_debug = 1011;
}

either :
    (lo n : ℕ) (b : Bool) (ts us : List Token)
    → Ordered lo n ts
    → Ordered lo n us
    → Ordered lo n (if b then ts else us)
either lo n true ts us h k = h
either lo n false ts us h k = k

tokens_from-Ordered :
    (s : Bytes) (lo p n : ℕ) → lo ≤ p → p + length s ≤ n → Ordered lo n (tokens_from p s)
unfolding tokens_from
tokens_from-Ordered [] lo p n h k = tt
tokens_from-Ordered (c ∷ s) lo p n h k =
    either lo n (c == b' ') (tokens_from (p + 1) s)
      (record { ty = c; pos = p; text = c ∷ [] } ∷ tokens_from (p + 1) s)
      (tokens_from-Ordered s lo (p + 1) n (omega (arith, h)) (omega (arith, k)))
      (
        h,
        omega (arith, k),
        tokens_from-Ordered s (p + 1) (p + 1) n (omega arith) (omega (arith, k)),
      )

small_lexer-ScansInOrder : ScansInOrder small_lexer
small_lexer-ScansInOrder s = tokens_from-Ordered s 0 0 (length s) (omega arith) (omega arith)

abbrev small_function : Statement
small_function = record {
  raw_sql = codes "DO 'BEGIN x; END'";
  start_pos = 5;
  start_line = 1;
  end_line = 1;
  ty = StatementType.stmt_do;
  language = codes "plpgsql";
  body = codes "BEGIN x; END";
  body_start = 4;
}

small_function-BodyInPlace : BodyInPlace small_function
small_function-BodyInPlace = record { starts = omega arith; in_place = refl }

-- One segment is instrumented: `x`, at offset 15 of the file.
small_function_test :
    instrument_body small_lexer small_function (codes "f") false (codes "c") true ≡ (
      codes "DO 'BEGIN x;\nEXECUTE 'SELECT pg_notify(''c'', ''f:15:1'')'; END'",
      record {
        file = codes "f";
        start_pos = 15;
        len = 1;
        signal_id = codes "f:15:1";
        implicit_coverage = false;
      }
          ∷ [],
    )
unfolding instrument_body tokens_from pgcov.Decimal.print_int
small_function_test = refl

instrument_body-Woven_example :
    Woven
      (made small_lexer small_function (codes "f") false (codes "c"))
      (instrument_body small_lexer small_function (codes "f") false (codes "c") true).0
      (codes "DO 'BEGIN x; END'")
      (instrument_body small_lexer small_function (codes "f") false (codes "c") true).1
instrument_body-Woven_example =
    instrument_body-Woven small_lexer small_function (codes "f") false (codes "c") true
      small_lexer-ScansInOrder small_function-BodyInPlace

instrument_statement-Kept_example :
    Kept small_lexer
      (codes "c")
      small_function
      (codes "f")
      StatementType.stmt_do
      (instrument_statement small_lexer (codes "c") small_function (codes "f"))
instrument_statement-Kept_example =
    instrument_statement-Kept small_lexer (codes "c") small_function (codes "f")
      small_lexer-ScansInOrder small_function-BodyInPlace

abbrev small_file : ParsedSql
small_file = record {
  file = some (record { path = codes "/r/f"; relative_path = codes "f" });
  statements = small_function ∷ [];
}

small_file-HasFile : HasFile (some small_file)
small_file-HasFile = (record { path = codes "/r/f"; relative_path = codes "f" }, refl)

generate_panics_example :
    generate_coverage_instruments small_lexer (codes "c") (some small_file ∷ none ∷ [])
    ≡ err Failure.nil_dereference
generate_panics_example =
    generate_panics small_lexer (codes "c") (some small_file ∷ []) [] none (small_file-HasFile, tt)
      tt

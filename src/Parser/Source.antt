-- ===== src/Parser/Source.antt =====
-- `Parse` of internal/parser/parse.go: a file is read and split into statements.
use pgcov.Base.{some, List, Bytes, Result, ok, err}
use pgcov.Lexer.{Lexer}
use pgcov.Parser.{Statement, split_and_classify}
use pgcov.Instrument.Files.{SourceFile, ParsedSql}

module _ (lx : Lexer) where
  unfoldable pub parse_statements : Bytes → List Statement
  parse_statements sql = split_and_classify lx sql

  -- What `os.ReadFile` gives is handed in; its error is wrapped.
  abbrev pub parsed : SourceFile → Result Bytes Bytes → Result Bytes ParsedSql
  parsed file (err e) = err e
  parsed file (ok content) =
      ok (record { file = some file; statements = split_and_classify lx content })

  unfoldable pub parse : (Bytes → Result Bytes Bytes) → SourceFile → Result Bytes ParsedSql
  parse read_file file = parsed file (read_file file.path)

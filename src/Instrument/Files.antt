-- ===== src/Instrument/Files.antt =====
-- `instrumentStatement`, `GenerateCoverageInstrument` and `GenerateCoverageInstruments`.
pub mod Statements
use pgcov.Base.{
  ℕ, Bool, true, false, ◌||◌, Option, none, some, List, [], ◌∷◌, ◌++◌, if◌then◌else◌, Bytes, codes,
  bytes_eq, map, Result, ok, err, ◌>>=◌,
}
use pgcov.Text.{join}
use pgcov.Lexer.{Lexer}
use pgcov.Parser.{Statement, StatementType}
use pgcov.Point.{CoveragePoint}
use pgcov.Instrument.{instrument_body, mark_statement_lines_as_covered}

-- `discovery.DiscoveredFile`: its paths.
pub record SourceFile : Type 0 where
  pub path : Bytes
  pub relative_path : Bytes

-- `parser.ParsedSQL`; the file may be nil.
pub record ParsedSql : Type 0 where
  pub file : Option SourceFile
  pub statements : List Statement

pub record InstrumentedSql : Type 0 where
  pub original : ParsedSql
  pub instrumented_text : Bytes
  pub locations : List CoveragePoint

-- `nil_input` is the error of `GenerateCoverageInstrument`. Its caller reads the path of the nil file
-- to wrap that error, which is a run-time panic.
pub data Failure : Type 0 where
  nil_input nil_dereference : Failure

module _ (lx : Lexer) (channel : Bytes) where
  mark : Statement → Bytes → Bytes × List CoveragePoint
  unfolding mark_statement_lines_as_covered
  mark stmt path = (stmt.raw_sql, mark_statement_lines_as_covered stmt path)

  -- By the language of a function, a procedure or a DO block.
  by_language : Statement → Bytes → Bytes × List CoveragePoint
  unfolding mark instrument_body bytes_eq
  by_language stmt path =
      if bytes_eq stmt.language (codes "plpgsql")
      then instrument_body lx stmt path false channel true
      else if bytes_eq stmt.language (codes "sql")
      then instrument_body lx stmt path true channel false
      else mark stmt path

  abbrev by_type : StatementType → Statement → Bytes → Bytes × List CoveragePoint
  by_type StatementType.stmt_function stmt path = by_language stmt path
  by_type StatementType.stmt_procedure stmt path = by_language stmt path
  by_type StatementType.stmt_do stmt path = by_language stmt path
  by_type _ stmt path = mark stmt path

  unfoldable pub instrument_statement : Statement → Bytes → Bytes × List CoveragePoint
  unfolding by_language mark
  instrument_statement stmt path = by_type stmt.ty stmt path

  abbrev pub shown_path : SourceFile → Bytes
  shown_path f = if bytes_eq f.relative_path [] then f.path else f.relative_path

  -- The loop over the statements: their texts and their locations.
  unfoldable pub instrument_all : List Statement → Bytes → List Bytes × List CoveragePoint
  unfolding instrument_statement
  instrument_all [] path = ([], [])
  instrument_all (stmt ∷ stmts) path =
      let (text, locations) = instrument_statement stmt path in
      let (texts, rest) = instrument_all stmts path in (text ∷ texts, locations ++ rest)

  generate_for : ParsedSql → Option SourceFile → Result Failure InstrumentedSql
  unfolding instrument_all join
  generate_for parsed none = err Failure.nil_input
  generate_for parsed (some f) =
      let (texts, locations) = instrument_all parsed.statements (shown_path f) in
      ok (record {
        original = parsed;
        instrumented_text = join (codes "\n\n") texts;
        locations = locations;
      })

  unfoldable pub generate_coverage_instrument : Option ParsedSql → Result Failure InstrumentedSql
  unfolding generate_for
  generate_coverage_instrument none = err Failure.nil_input
  generate_coverage_instrument (some parsed) = generate_for parsed parsed.file

  abbrev or_panic :
      Result Failure InstrumentedSql
      → (InstrumentedSql → Result Failure (List InstrumentedSql))
      → Result Failure (List InstrumentedSql)
  or_panic (ok inst) next = next inst
  or_panic (err _) next = err Failure.nil_dereference

  abbrev cons_ok :
      InstrumentedSql
      → Result Failure (List InstrumentedSql)
      → Result Failure (List InstrumentedSql)
  cons_ok inst (ok rest) = ok (inst ∷ rest)
  cons_ok inst (err e) = err e

  unfoldable pub generate_coverage_instruments :
      List (Option ParsedSql) → Result Failure (List InstrumentedSql)
  unfolding generate_coverage_instrument
  generate_coverage_instruments [] = ok []
  generate_coverage_instruments (p ∷ ps) =
      or_panic (generate_coverage_instrument p)
        (λ inst. cons_ok inst (generate_coverage_instruments ps))

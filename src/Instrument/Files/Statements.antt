-- ===== src/Instrument/Files/Statements.antt =====
-- What instrumenting a statement of any kind keeps.
use pgcov.Base.{
  true, false, Option, none, some, List, [], ◌∷◌, ◌++◌, Bytes, codes, bytes_eq, bytes_eq_iff, ◌≢◌,
  Bool-cases, inl, inr, ◌≡◌, refl, ap, ◌∙◌, All, Result, ok, err,
}
use pgcov.Lexer.{Lexer, ScansInOrder}
use pgcov.Parser.{Statement, StatementType}
use pgcov.Point.{CoveragePoint}
use pgcov.Instrument.Weave.{Woven}
use pgcov.Instrument.Loop.{BodyInPlace, instrument_body-Woven}
use pgcov.Instrument.Files.{
  Failure, SourceFile, ParsedSql, InstrumentedSql, instrument_statement, mark, by_language, by_type,
  generate_for, generate_coverage_instrument, generate_coverage_instruments, or_panic, cons_ok,
}
use pgcov.Instrument.{mark_statement_lines_as_covered, signal_call}

-- The statements that may have a body.
pub data IsRoutine : StatementType → Type 0 where
  is_function : IsRoutine StatementType.stmt_function
  is_procedure : IsRoutine StatementType.stmt_procedure
  is_do : IsRoutine StatementType.stmt_do

-- A statement without a body in a language that is instrumented.
pub data HasNoBody (ty : StatementType) (language : Bytes) : Type 0 where
  no_routine : ¬ IsRoutine ty → HasNoBody ty language
  other_language : language ≢ codes "plpgsql" → language ≢ codes "sql" → HasNoBody ty language

module _ (lx : Lexer) (channel : Bytes) (stmt : Statement) (path : Bytes) where
  -- A routine's text carries the calls of its language, one for each location; any other statement is
  -- unchanged and has one implicit location, which spans it.
  pub data Kept (ty : StatementType) (r : Bytes × List CoveragePoint) : Type 0 where
    plpgsql_body :
        IsRoutine ty
        → stmt.language ≡ codes "plpgsql"
        → Woven (λ cp. signal_call false channel cp.signal_id) r.0 stmt.raw_sql r.1
        → Kept ty r
    sql_body :
        IsRoutine ty
        → stmt.language ≡ codes "sql"
        → Woven (λ cp. signal_call true channel cp.signal_id) r.0 stmt.raw_sql r.1
        → Kept ty r
    unchanged :
        HasNoBody ty stmt.language
        → r.0 ≡ stmt.raw_sql
        → r.1 ≡ mark_statement_lines_as_covered stmt path
        → Kept ty r

  mark-Kept :
      (ty : StatementType) → HasNoBody ty stmt.language → Kept ty (mark lx channel stmt path)
  unfolding mark
  mark-Kept ty h = Kept.unchanged h refl refl

  differs : (b : Bytes) → bytes_eq stmt.language b ≡ false → stmt.language ≢ b
  differs b e q = let x = (bytes_eq_iff stmt.language b).1 q in cc

  by_language-Kept :
      (ty : StatementType)
      → IsRoutine ty
      → ScansInOrder lx
      → BodyInPlace stmt
      → Kept ty (by_language lx channel stmt path)
  unfolding by_language
  by_language-Kept ty t o b = elim (Bool-cases (bytes_eq stmt.language (codes "plpgsql"))) [
    | inl e ↦ rw e (
        Kept.plpgsql_body t ((bytes_eq_iff stmt.language (codes "plpgsql")).0 e)
          (instrument_body-Woven lx stmt path false channel true o b))
    | inr e ↦ elim (Bool-cases (bytes_eq stmt.language (codes "sql"))) [
      | inl q ↦
          rw (e, q)
            (Kept.sql_body t ((bytes_eq_iff stmt.language (codes "sql")).0 q)
              (instrument_body-Woven lx stmt path true channel false o b))
      | inr q ↦
          rw (e, q)
            (mark-Kept ty
              (HasNoBody.other_language (differs (codes "plpgsql") e) (differs (codes "sql") q)))
    ]
  ]

  by_type-Kept :
      (ty : StatementType)
      → ScansInOrder lx
      → BodyInPlace stmt
      → Kept ty (by_type lx channel ty stmt path)
  by_type-Kept StatementType.stmt_function o b = by_language-Kept _ IsRoutine.is_function o b
  by_type-Kept StatementType.stmt_procedure o b = by_language-Kept _ IsRoutine.is_procedure o b
  by_type-Kept StatementType.stmt_do o b = by_language-Kept _ IsRoutine.is_do o b
  by_type-Kept StatementType.stmt_unknown o b = mark-Kept _ (HasNoBody.no_routine (λ t. elim t [ ]))
  by_type-Kept StatementType.stmt_trigger o b = mark-Kept _ (HasNoBody.no_routine (λ t. elim t [ ]))
  by_type-Kept StatementType.stmt_view o b = mark-Kept _ (HasNoBody.no_routine (λ t. elim t [ ]))
  by_type-Kept StatementType.stmt_other o b = mark-Kept _ (HasNoBody.no_routine (λ t. elim t [ ]))

  -- For a lexer that scans from left to right and a body that stands in its statement: a function, a
  -- procedure or a DO block in plpgsql is instrumented to its own text with plpgsql calls woven in,
  -- one in sql to its own text with sql calls woven in, one call for each location; every other
  -- statement is unchanged and gets the implicit location of the whole statement.
  pub instrument_statement-Kept :
      ScansInOrder lx → BodyInPlace stmt → Kept stmt.ty (instrument_statement lx channel stmt path)
  unfolding instrument_statement
  instrument_statement-Kept o b = by_type-Kept stmt.ty o b

-- An input that can be instrumented.
abbrev pub HasFile : Option ParsedSql → Type 0
HasFile none = ⊥
HasFile (some p) = (f : SourceFile) × (p.file ≡ some f)

-- An input that is nil, or whose file is nil.
abbrev pub LacksFile : Option ParsedSql → Type 0
LacksFile none = Unit
LacksFile (some p) = p.file ≡ none

module _ (lx : Lexer) (channel : Bytes) where
  abbrev next : List (Option ParsedSql) → InstrumentedSql → Result Failure (List InstrumentedSql)
  next ps i = cons_ok lx channel i (generate_coverage_instruments lx channel ps)

  instrument_one :
      (p : Option ParsedSql)
      → HasFile p
      → (i : InstrumentedSql) × (generate_coverage_instrument lx channel p ≡ ok i)
  unfolding generate_coverage_instrument
  instrument_one none h = absurd h
  instrument_one (some p) (f, e) = (_, ap (generate_for lx channel p) e)

  instrument_none :
      (p : Option ParsedSql)
      → LacksFile p
      → generate_coverage_instrument lx channel p ≡ err Failure.nil_input
  unfolding generate_coverage_instrument
  instrument_none none h = refl
  instrument_none (some p) e = ap (generate_for lx channel p) e

  -- A nil input, or one whose file is nil, behind inputs that have a file makes the loop panic: the
  -- error is wrapped with the path of the file that is nil.
  pub generate_panics :
      (pre post : List (Option ParsedSql)) (p : Option ParsedSql)
      → All HasFile pre
      → LacksFile p
      → generate_coverage_instruments lx channel (pre ++ (p ∷ post)) ≡ err Failure.nil_dereference
  unfolding generate_coverage_instruments
  generate_panics [] post p h n = ap (λ r. or_panic lx channel r (next post)) (instrument_none p n)
  generate_panics (q ∷ pre) post p (h, hs) n =
      let (i, e) = instrument_one q h in
      ap (λ r. or_panic lx channel r (next (pre ++ (p ∷ post)))) e
      ∙ ap (cons_ok lx channel i) (generate_panics pre post p hs n)

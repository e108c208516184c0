-- ===== src/Report/Formats.antt =====
-- The report formats of internal/report/formatter.go.
use pgcov.Base.{
  Bool, true, false, ◌||◌, if◌then◌else◌, Bytes, codes, bytes_eq, ◌≡◌, refl, ◌↔◌, Result, ok, err,
}

-- The reporters.
pub data Formatter : Type 0 where
  json_reporter lcov_reporter html_reporter : Formatter

-- An unsupported format is named in the error.
unfoldable pub get_formatter : Bytes → Result Bytes Formatter
unfolding bytes_eq
get_formatter format =
    if bytes_eq format (codes "json")
    then ok Formatter.json_reporter
    else if bytes_eq format (codes "lcov")
    then ok Formatter.lcov_reporter
    else if bytes_eq format (codes "html")
    then ok Formatter.html_reporter
    else err format

unfoldable pub valid_format : Bytes → Bool
unfolding bytes_eq
valid_format format =
    bytes_eq format (codes "json")
    || (bytes_eq format (codes "lcov") || bytes_eq format (codes "html"))

-- `Name` of each reporter.
abbrev name : Formatter → Bytes
name Formatter.json_reporter = codes "json"
name Formatter.lcov_reporter = codes "lcov"
name Formatter.html_reporter = codes "html"

-- The choice by the three tests.
abbrev chosen : Bytes → Bool → Bool → Bool → Result Bytes Formatter
chosen format a b c =
    if a
    then ok Formatter.json_reporter
    else if b
    then ok Formatter.lcov_reporter
    else if c
    then ok Formatter.html_reporter
    else err format

agree :
    (format : Bytes) (a b c : Bool)
    → ((a || (b || c)) ≡ true) ↔ ((f : Formatter) × chosen format a b c ≡ ok f)
agree format true b c = (λ _. (Formatter.json_reporter, refl), λ _. refl)
agree format false true c = (λ _. (Formatter.lcov_reporter, refl), λ _. refl)
agree format false false true = (λ _. (Formatter.html_reporter, refl), λ _. refl)
agree format false false false = (λ h. cc, λ (f, h). cc)

-- The formats that are accepted up front are just those that have a reporter.
pub valid_format-get_formatter :
    (format : Bytes)
    → (valid_format format ≡ true) ↔ ((f : Formatter) × get_formatter format ≡ ok f)
unfolding valid_format get_formatter
valid_format-get_formatter format =
    agree format (bytes_eq format (codes "json")) (bytes_eq format (codes "lcov"))
      (bytes_eq format (codes "html"))

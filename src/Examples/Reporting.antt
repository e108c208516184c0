-- ===== src/Examples/Reporting.antt =====
-- The report command and the HTML page at concrete inputs.
use pgcov.Base.{
  ℕ, Option, none, some, List, [], ◌∷◌, ◌++◌, Bytes, codes, bytes_eq, ◌≡◌, refl, ok, All, arith,
}
use pgcov.Decimal.{print_int, atoi}
use pgcov.Coverage.{Coverage, all_positions, validate_version}
use pgcov.Coverage.Files.{get_files, resolve_base_dir}
use pgcov.Coverage.Percent.{Floats}
use pgcov.Coverage.Store.{Storage, FileState, load}
use pgcov.Report.Sources.{Places}
use pgcov.Key.{cut}
use pgcov.Report.Html.{ranges_of, le_int, sub_int, max_int}
use pgcov.Report.Html.Page.{format_page}
use pgcov.Report.Html.Page.Shown.{RangesFit, ShownIn, format_page-ShownIn}
use pgcov.Commands.Report.{Output, report}
use pgcov.Commands.Report.Written.{Sent, report_html-ShownIn}

-- A source with bytes that HTML escapes, of which the first six are covered.
abbrev source_text : Bytes
source_text = codes "SELECT a<b;"

abbrev one_file : Coverage
one_file = record {
  version = codes "2.0";
  timestamp = 7;
  positions = (codes "a.sql", some ((codes "0:6", 3) ∷ [])) ∷ [];
  implicit_positions = [];
  root = codes "/r";
}

abbrev some_places : Places
some_places = record {
  is_abs = λ p. bytes_eq p [];
  join = λ a b. a ++ (b'/' ∷ b);
  from_slash = λ p. p;
  getwd = ok (codes "/w");
  read_file = λ p. ok source_text;
}

abbrev whole_percents : Floats ℕ
whole_percents = record { zero_percent = 0; ratio = λ covered total. 100 }

one_file_fits :
    All (RangesFit whole_percents print_int some_places (codes "/r") one_file) (get_files one_file)
unfolding get_files ranges_of all_positions bytes_eq cut atoi
one_file_fits = ((omega arith, tt), tt)

page_of : Option Bytes → Bytes
page_of none = []
page_of (some page) = page

abbrev the_page : Bytes
the_page = page_of (format_page whole_percents print_int some_places (codes "/r") one_file)

format_page-ShownIn_example :
    (page : Bytes) × (format_page whole_percents print_int some_places (codes "/r") one_file
      ≡ some page)
    × All
        (ShownIn whole_percents print_int some_places (codes "/r") one_file page)
        (get_files one_file)
format_page-ShownIn_example =
    format_page-ShownIn whole_percents print_int some_places (codes "/r") one_file one_file_fits

-- The texts written to the standard output, or to files.
abbrev Written : Type 0
Written = List Bytes

abbrev stored_coverage : Storage Written
stored_coverage = record {
  dir = λ p. codes "/";
  stat = λ p w. FileState.is_there;
  read_file = λ p w. ok (codes "json");
  mkdir_all = λ p w. (none, w);
  write_file = λ p content w. (none, w);
  remove = λ p w. (none, w);
  marshal = λ c. ok (codes "json");
  unmarshal = λ content. ok one_file;
}

abbrev output : Output Written
output = record {
  create = λ p w. (none, w);
  write_to = λ p text w. (none, text ∷ w);
  write_stdout = λ text w. (none, text ∷ w);
  is_dir = λ p. bytes_eq p (codes "/r");
}

page_written :
    report stored_coverage output some_places whole_percents print_int
      (codes "c.json")
      (codes "html")
      (codes "-")
      (codes "/r")
      []
    ≡ (none, the_page ∷ [])
unfolding report page_of validate_version cut atoi le_int sub_int max_int
page_written = refl

one_file_loaded : load stored_coverage (codes "c.json") [] ≡ ok one_file
unfolding load validate_version
one_file_loaded = refl

report_html-ShownIn_example :
    (page : Bytes) × Sent stored_coverage output some_places whole_percents print_int
      (codes "-")
      page
      []
      (the_page ∷ [])
    × All
        (ShownIn whole_percents print_int some_places (codes "/r") one_file page)
        (get_files one_file)
unfolding resolve_base_dir
report_html-ShownIn_example =
    report_html-ShownIn stored_coverage output some_places whole_percents print_int (codes "c.json")
      (codes "html") (codes "-") (codes "/r") [] (the_page ∷ []) one_file refl one_file_loaded
      one_file_fits page_written

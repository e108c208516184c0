-- ===== src/Report/Html/Page.antt =====
-- `Format` of internal/report/html.go: the page that is written. The writer takes every byte; a page
-- whose rendering panics is `none`.
pub mod Shown
use pgcov.Base.{
  ℕ, suc, Option, none, some, List, [], ◌∷◌, ◌++◌, ◌==◌, if◌then◌else◌, Bytes, codes, Result, ok,
  err,
}
use pgcov.Decimal.{print_int}
use pgcov.Text.Escape.{escape_string}
use pgcov.Coverage.{Coverage, entries, all_positions}
use pgcov.Coverage.Files.{get_files}
use pgcov.Coverage.Percent.{Floats, position_coverage_percent}
use pgcov.Report.Sources.{Places, read_source_file}
use pgcov.Report.Html.{get_coverage_class, parse_position_ranges}
use pgcov.Report.Html.Render.{Pieces, render_source_with_positions}
use pgcov.Report.Html.Layout.{page_top, page_legend, page_footer}

-- The tag of a span, without its angle brackets.
abbrev pub span_tag : ℕ → Bytes
span_tag hit_count =
    codes "span class=\""
    ++ (get_coverage_class hit_count
        ++ (codes "\" title=\"" ++ (print_int hit_count ++ codes "\"")))

abbrev pub piece_html : Option ℕ × Bytes → Bytes
piece_html (none, text) = escape_string text
piece_html (some hit_count, text) =
    b'<' ∷ (span_tag hit_count ++ (b'>' ∷ (escape_string text ++ codes "</span>")))

-- What `renderSourceWithPositions` writes.
unfoldable pub pieces_html : Pieces → Bytes
pieces_html [] = []
pieces_html (piece ∷ pieces) = piece_html piece ++ pieces_html pieces

abbrev pub html_or_panic : Option Pieces → Option Bytes
html_or_panic none = none
html_or_panic (some pieces) = some (pieces_html pieces)

abbrev pub wrapped : Bytes → Bytes → Option Bytes → Option Bytes
wrapped before behind none = none
wrapped before behind (some text) = some (before ++ (text ++ behind))

abbrev pub pre_open : ℕ → Bytes
pre_open file_index =
    codes "\t\t<pre class=\"file\" id=\"file"
    ++ (print_int file_index
        ++ (codes "\" style=\""
            ++ ((if file_index == 0 then [] else codes "display: none") ++ codes "\">")))

abbrev pub pre_close : Bytes
pre_close = codes "</pre>\n\t\t\n\t\t"

-- `show` is the format `%.1f`.
module _ {F : Type 0} (floats : Floats F) (show : F → Bytes) (places : Places)
    (base_dir : Bytes) where
  -- A source that cannot be read shows the error instead.
  abbrev pub section_of : Coverage → Bytes → Result Bytes Bytes → Option Bytes
  section_of cov file (err e) = some (
      codes "// Error reading source file: "
      ++ (escape_string (codes "cannot open file: " ++ e) ++ (b'\n' ∷ [])))
  section_of cov file (ok text) =
      html_or_panic (
        render_source_with_positions text
          (parse_position_ranges (entries (all_positions cov file))))

  unfoldable pub write_file_detail : Coverage → Bytes → ℕ → Option Bytes
  unfolding read_source_file render_source_with_positions parse_position_ranges all_positions
  write_file_detail cov file file_index =
      wrapped (pre_open file_index) pre_close
        (section_of cov file (read_source_file places base_dir file))

  abbrev pub both : Option Bytes → Option Bytes → Option Bytes
  both none rest = none
  both (some text) none = none
  both (some text) (some rest) = some (text ++ rest)

  -- The loop over the files, of which the next one has this index.
  unfoldable pub write_file_details : Coverage → ℕ → List Bytes → Option Bytes
  unfolding write_file_detail
  write_file_details cov i [] = some []
  write_file_details cov i (file ∷ files) =
      both (write_file_detail cov file i) (write_file_details cov (suc i) files)

  -- An entry of the list of files. The format's `%%%%` prints two percent signs.
  abbrev pub file_option : Coverage → ℕ → Bytes → Bytes
  file_option cov i file =
      codes "\t\t\t\t<option value=\"file"
      ++ (print_int i
          ++ (codes "\">"
              ++ (escape_string file
                  ++ (codes " ("
                      ++ (show (position_coverage_percent floats cov file)
                          ++ codes "%%)</option>\n")))))

  unfoldable pub file_options : Coverage → ℕ → List Bytes → Bytes
  unfolding position_coverage_percent escape_string
  file_options cov i [] = []
  file_options cov i (file ∷ files) = file_option cov i file ++ file_options cov (suc i) files

  unfoldable pub write_header : Coverage → List Bytes → Bytes
  unfolding file_options page_top page_legend
  write_header cov files = page_top ++ (file_options cov 0 files ++ page_legend)

  -- `Format`
  unfoldable pub format_page : Coverage → Option Bytes
  unfolding write_file_details write_header get_files page_footer
  format_page cov =
      wrapped (write_header cov (get_files cov)) page_footer
        (write_file_details cov 0 (get_files cov))

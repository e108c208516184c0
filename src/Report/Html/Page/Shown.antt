-- ===== src/Report/Html/Page/Shown.antt =====
-- What the page shows of the sources.
use pgcov.Base.{
  All_map, ℕ, suc, Option, none, some, List, [], ◌∷◌, ◌++◌, Bytes, codes, Result, ok, err, All,
  All-append, Lacks, ◌≡◌, ◌≢◌, refl, sym, ap, ◌∙◌, arith, append_assoc, Bool-cases, inl, inr, ◌==◌,
  leb,
}
use pgcov.Decimal.{print_int}
use pgcov.Key.RoundTrip.{print_int_avoids}
use pgcov.Text.Escape.{escape_string, shown, shown-escape_string, shown_tag}
use pgcov.Coverage.{Coverage, entries, all_positions}
use pgcov.Coverage.Files.{get_files}
use pgcov.Coverage.Percent.{Floats}
use pgcov.Report.Sources.{Places, read_source_file}
use pgcov.Report.Html.{
  PositionRange, get_coverage_class, ranges_of, insert_range, sort_ranges, parse_position_ranges,
}
use pgcov.Report.Html.Resolve.{Fits}
use pgcov.Report.Html.Render.{Pieces, plain_text, render-resolve_overlapping_ranges}
use pgcov.Report.Html.Layout.{page_footer}
use pgcov.Report.Html.Page.{
  span_tag, piece_html, pieces_html, html_or_panic, wrapped, pre_open, pre_close, section_of,
  write_file_detail, write_file_details, write_header, format_page,
}

get_coverage_class-Lacks : (n : ℕ) → Lacks b'>' (get_coverage_class n)
unfolding get_coverage_class
get_coverage_class-Lacks n = elim (Bool-cases (n == 0)) [
  | inl e ↦ rw e (omega arith)
  | inr e ↦ rw e (omega arith)
]

span_tag-Lacks : (n : ℕ) → Lacks b'>' (span_tag n)
span_tag-Lacks n =
    let joined : (a b : Bytes) → Lacks b'>' a → Lacks b'>' b → Lacks b'>' (a ++ b) =
      All-append (λ c. c ≢ b'>') in
    joined (codes "span class=\"") _ (omega arith) (
      joined (get_coverage_class n) _ (get_coverage_class-Lacks n) (
        joined (codes "\" title=\"") _ (omega arith) (
          joined (print_int n) (codes "\"") (print_int_avoids b'>' (omega arith) n) (omega arith))))

shown-piece_html : (p : Option ℕ × Bytes) (t : Bytes) → shown (piece_html p ++ t) ≡ p.1 ++ shown t
shown-piece_html (none, text) t = shown-escape_string text t
shown-piece_html (some n, text) t =
    ap (λ r. shown (b'<' ∷ r))
      (append_assoc (span_tag n) (b'>' ∷ (escape_string text ++ codes "</span>")) t)
    ∙ shown_tag (span_tag n) ((escape_string text ++ codes "</span>") ++ t) (span_tag-Lacks n)
    ∙ ap shown (append_assoc (escape_string text) (codes "</span>") t)
    ∙ shown-escape_string text (codes "</span>" ++ t)
    ∙ ap (λ r. text ++ r) (shown_tag (codes "/span") t (omega arith))

-- A rendered source is shown as the texts of its pieces.
shown-pieces_html : (pieces : Pieces) → shown (pieces_html pieces) ≡ plain_text pieces
unfolding pieces_html plain_text
shown-pieces_html [] = unfold shown in refl
shown-pieces_html (p ∷ pieces) =
    shown-piece_html p (pieces_html pieces) ∙ ap (λ r. p.1 ++ r) (shown-pieces_html pieces)

insert_range-Fits :
    (r : PositionRange) (rs : List PositionRange)
    → Fits r
    → All Fits rs
    → All Fits (insert_range r rs)
unfolding insert_range
insert_range-Fits r [] f h = (f, tt)
insert_range-Fits r (s ∷ rs) f h = elim (Bool-cases (leb r.start_pos s.start_pos)) [
  | inl e ↦ rw e (f, h)
  | inr e ↦ rw e (h.0, insert_range-Fits r rs f h.1)
]

sort_ranges-Fits : (rs : List PositionRange) → All Fits rs → All Fits (sort_ranges rs)
unfolding sort_ranges
sort_ranges-Fits [] h = tt
sort_ranges-Fits (r ∷ rs) h = insert_range-Fits r (sort_ranges rs) h.0 (sort_ranges-Fits rs h.1)

module _ {F : Type 0} (floats : Floats F) (show : F → Bytes) (places : Places) (base_dir : Bytes)
    (cov : Coverage) where
  -- The ranges of the file end below the largest int.
  abbrev pub RangesFit : Bytes → Type 0
  RangesFit file = All Fits (ranges_of (entries (all_positions cov file)))

  -- The page has a section that shows the whole text of the file, if it can be read.
  abbrev pub ShownIn : Bytes → Bytes → Type 0
  ShownIn page file =
      (text : Bytes)
      → read_source_file places base_dir file ≡ ok text
      → (before behind html : Bytes) × (page ≡ before ++ (html ++ behind)) × (shown html ≡ text)

  ShownIn-behind : (more page file : Bytes) → ShownIn page file → ShownIn (more ++ page) file
  ShownIn-behind more page file h text r =
      let (before, behind, html, e, s) = h text r in
      (
        more ++ before,
        behind,
        html,
        ap (λ p. more ++ p) e ∙ sym (append_assoc more before (html ++ behind)),
        s,
      )

  ShownIn-before : (page more file : Bytes) → ShownIn page file → ShownIn (page ++ more) file
  ShownIn-before page more file h text r =
      let (before, behind, html, e, s) = h text r in
      (
        before,
        behind ++ more,
        html,
        ap (λ p. p ++ more) e
            ∙ append_assoc before (html ++ behind) more
            ∙ ap (λ p. before ++ p) (append_assoc html behind more),
        s,
      )

  -- The detail of a file is written and shows its text.
  Detailed : ℕ → Bytes → Type 0
  Detailed i file =
      (d : Bytes) × (write_file_detail floats show places base_dir cov file i ≡ some d)
      × ShownIn d file

  section-Detailed :
      (i : ℕ) (file : Bytes) (r : Result Bytes Bytes)
      → RangesFit file
      → read_source_file places base_dir file ≡ r
      → (d : Bytes) × (wrapped
            (pre_open i)
            pre_close
            (section_of floats show places base_dir cov file r)
          ≡ some d)
        × ShownIn d file
  unfolding parse_position_ranges
  section-Detailed i file (err e) f h = (_, refl, λ text k. absurd (cc))
  section-Detailed i file (ok text) f h =
      let (pieces, rendered, plain) =
        render-resolve_overlapping_ranges text
          (sort_ranges (ranges_of (entries (all_positions cov file)))) (sort_ranges-Fits _ f) in
      (
        pre_open i ++ (pieces_html pieces ++ pre_close),
        ap (λ o. wrapped (pre_open i) pre_close (html_or_panic o)) rendered,
        λ text' k. (
          pre_open i,
          pre_close,
          pieces_html pieces,
          refl,
          shown-pieces_html pieces
              ∙ plain
              ∙ (let same : text ≡ text' = let x = sym h ∙ k in cc in same),
        ),
      )

  write_file_detail-Detailed : (i : ℕ) (file : Bytes) → RangesFit file → Detailed i file
  unfolding write_file_detail Detailed
  write_file_detail-Detailed i file f = section-Detailed i file _ f refl

  write_file_details_lem :
      (i : ℕ) (files : List Bytes)
      → All RangesFit files
      → (d : Bytes) × (write_file_details floats show places base_dir cov i files ≡ some d)
        × All (ShownIn d) files
  unfolding write_file_details Detailed
  write_file_details_lem i [] f = ([], refl, tt)
  write_file_details_lem i (file ∷ files) (f, fs) =
      let (d, e, h) = write_file_detail-Detailed i file f in
      let (rest, es, hs) = write_file_details_lem (suc i) files fs in
      (
        d ++ rest,
        rw (e, es) refl,
        (
          ShownIn-before d rest file h,
          All_map (ShownIn rest) (ShownIn (d ++ rest)) (ShownIn-behind d rest) files hs,
        ),
      )

  -- Where the ranges of every file end below the largest int, Format writes a page, and each file of
  -- the coverage whose source can be read has a part of the page that a browser, reading the part
  -- by itself, shows as the whole text of the source: no byte is lost, changed or taken for markup.
  pub format_page-ShownIn :
      All RangesFit (get_files cov)
      → (page : Bytes) × (format_page floats show places base_dir cov ≡ some page)
        × All (ShownIn page) (get_files cov)
  unfolding format_page
  format_page-ShownIn f =
      let files = get_files cov in
      let top = write_header floats show places base_dir cov files in
      let (d, e, h) = write_file_details_lem 0 files f in
      (
        top ++ (d ++ page_footer),
        rw e refl,
        All_map (ShownIn d) (ShownIn (top ++ (d ++ page_footer)))
            (λ file s.
              ShownIn-behind top (d ++ page_footer) file (ShownIn-before d page_footer file s))
            files h,
      )

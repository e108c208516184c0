-- ===== src/Commands/Report/Written.antt =====
-- What a report that succeeds has written.
use pgcov.Base.{
  true, false, Option, none, some, Bytes, codes, bytes_eq, Result, ok, err, All, ◌≡◌, refl, sym, ap,
  ◌∙◌, subst, Bool-cases, inl, inr,
}
use pgcov.Coverage.{Coverage}
use pgcov.Coverage.Files.{get_files}
use pgcov.Coverage.Percent.{Floats}
use pgcov.Coverage.Store.{Storage, StoreError, exists, load}
use pgcov.Report.Formats.{Formatter, valid_format, get_formatter}
use pgcov.Report.Sources.{Places}
use pgcov.Report.Html.Page.Shown.{RangesFit, ShownIn, format_page-ShownIn}
use pgcov.Commands.Report.{
  Output, ReportError, or_panicked, formatted, wrote, write_text, created, to_stdout, deliver,
  base_of, with_formatter, with_coverage, report,
}

module _ {F W : Type 0} (storage : Storage W) (out : Output W) (places : Places) (floats : Floats F)
    (show : F → Bytes) where
  -- The text is written to the standard output, or to the file, which was created for it.
  pub data Sent (output_path text : Bytes) (w w' : W) : Type 0 where
    printed :
        to_stdout storage out places floats show output_path ≡ true
        → out.write_stdout text w ≡ (none, w')
        → Sent output_path text w w'
    stored :
        (w1 : W)
        → to_stdout storage out places floats show output_path ≡ false
        → out.create output_path w ≡ (none, w1)
        → out.write_to output_path text w1 ≡ (none, w')
        → Sent output_path text w w'

  wrote-ok :
      (r : Option Bytes × W) (w' : W)
      → wrote storage out places floats show r ≡ (none, w')
      → r ≡ (none, w')
  wrote-ok (some e, w) w' h = cc
  wrote-ok (none, w) w' h = cc

  write_text-ok :
      (write : Bytes → W → Option Bytes × W) (text : Result ReportError Bytes) (w w' : W)
      → write_text storage out places floats show write text w ≡ (none, w')
      → (t : Bytes) × (text ≡ ok t) × (write t w ≡ (none, w'))
  write_text-ok write (err e) w w' h = cc
  write_text-ok write (ok t) w w' h = (t, refl, wrote-ok (write t w) w' h)

  created-ok :
      (path : Bytes) (text : Result ReportError Bytes) (r : Option Bytes × W) (w' : W)
      → created storage out places floats show path text r ≡ (none, w')
      → (t : Bytes) × (w1 : W) × (text ≡ ok t)
        × (r ≡ (none, w1))
        × (out.write_to path t w1 ≡ (none, w'))
  created-ok path text (some e, w) w' h = cc
  created-ok path text (none, w) w' h =
      let (t, e, k) = write_text-ok (out.write_to path) text w w' h in (t, w, e, refl, k)

  deliver-Sent :
      (output_path : Bytes) (text : Result ReportError Bytes) (w w' : W)
      → deliver storage out places floats show output_path text w ≡ (none, w')
      → (t : Bytes) × (text ≡ ok t) × Sent output_path t w w'
  deliver-Sent output_path text w w' h =
      elim (Bool-cases (to_stdout storage out places floats show output_path)) [
        | inl e ↦
            let (t, q, k) = write_text-ok out.write_stdout text w w' (rw e at h) in
            (t, q, Sent.printed e k)
        | inr e ↦
            let (t, w1, q, c, k) =
              created-ok output_path text (out.create output_path w) w' (rw e at h) in
            (t, q, Sent.stored w1 e c k)
      ]

  -- What a report has done that succeeds.
  pub record Reported (coverage_file format output_path base_dir : Bytes) (w w' : W) : Type 0 where
    pub cov : Coverage
    pub formatter : Formatter
    pub text : Bytes
    pub there : exists storage coverage_file w ≡ true
    pub loaded : load storage coverage_file w ≡ ok cov
    pub chosen : get_formatter format ≡ ok formatter
    pub made :
        formatted storage out places floats show formatter
          (base_of storage out places floats show base_dir cov)
          cov
        ≡ ok text
    pub sent : Sent output_path text w w'

  module _ (coverage_file format output_path base_dir : Bytes) (w w' : W) where
    with_formatter-Reported :
        (cov : Coverage) (r : Result Bytes Formatter)
        → exists storage coverage_file w ≡ true
        → load storage coverage_file w ≡ ok cov
        → get_formatter format ≡ r
        → with_formatter storage out places floats show output_path base_dir cov r w ≡ (none, w')
        → Reported coverage_file format output_path base_dir w w'
    with_formatter-Reported cov (err e) x l g h = cc
    with_formatter-Reported cov (ok f) x l g h =
        let (t, q, k) = deliver-Sent output_path _ w w' h in
        record {
          cov = cov;
          formatter = f;
          text = t;
          there = x;
          loaded = l;
          chosen = g;
          made = q;
          sent = k;
        }

    with_coverage-Reported :
        (r : Result StoreError Coverage)
        → exists storage coverage_file w ≡ true
        → load storage coverage_file w ≡ r
        → with_coverage storage out places floats show format output_path base_dir r w ≡ (none, w')
        → Reported coverage_file format output_path base_dir w w'
    unfolding with_coverage
    with_coverage-Reported (err e) x l h = cc
    with_coverage-Reported (ok cov) x l h = elim (Bool-cases (valid_format format)) [
      | inl e ↦ with_formatter-Reported cov (get_formatter format) x l refl (rw e at h)
      | inr e ↦ absurd (cc (rw e at h))
    ]

    -- A report that succeeds has loaded the coverage from a file that is there, has chosen the reporter
    -- of the format, and has written the whole text of that reporter, for the base directory that
    -- ResolveBaseDir gives, to the output.
    report-Reported :
        report storage out places floats show coverage_file format output_path base_dir w
          ≡ (none, w')
        → Reported coverage_file format output_path base_dir w w'
    unfolding report
    report-Reported h = elim (Bool-cases (exists storage coverage_file w)) [
      | inl e ↦ with_coverage-Reported _ e refl (rw e at h)
      | inr e ↦ absurd (cc (rw e at h))
    ]

    -- An HTML report that succeeds, of coverage whose ranges end below the largest int, has written a
    -- page of which each file whose source can be read has a part that a browser, reading the part by
    -- itself, shows as the whole text of the source: no byte is lost, changed or taken for markup.
    pub report_html-ShownIn :
        (cov : Coverage)
        → format ≡ codes "html"
        → load storage coverage_file w ≡ ok cov
        → All (RangesFit floats show places base_dir cov) (get_files cov)
        → report storage out places floats show coverage_file format output_path base_dir w
          ≡ (none, w')
        → (page : Bytes) × Sent output_path page w w'
          × All
              (ShownIn floats show places
                (base_of storage out places floats show base_dir cov)
                cov
                page)
              (get_files cov)
    unfolding get_formatter formatted
    report_html-ShownIn cov html l fit h =
        let r = report-Reported h in
        let choice : get_formatter format ≡ ok Formatter.html_reporter =
          subst (λ f. get_formatter f ≡ ok Formatter.html_reporter) (sym html)
            (unfold bytes_eq in refl) in
        let same_cov : r.cov ≡ cov = let x = sym r.loaded ∙ l in cc in
        let same_reporter : r.formatter ≡ Formatter.html_reporter =
          let x = sym r.chosen ∙ choice in cc in
        let base = base_of storage out places floats show base_dir cov in
        let (page, e, s) = format_page-ShownIn floats show places base cov fit in
        let made : formatted storage out places floats show Formatter.html_reporter base cov
            ≡ ok r.text =
          subst
            (λ c.
              formatted storage out places floats show Formatter.html_reporter
                (base_of storage out places floats show base_dir c) c
              ≡ ok r.text)
            same_cov
            (subst
              (λ g.
                formatted storage out places floats show g
                  (base_of storage out places floats show base_dir r.cov) r.cov
                ≡ ok r.text)
              same_reporter r.made) in
        let written : page ≡ r.text = let x = sym (ap or_panicked e) ∙ made in cc in
        (page, subst (λ t. Sent output_path t w w') (sym written) r.sent, s)

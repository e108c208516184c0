-- ===== src/Scaffold/Create/Target.antt =====
-- The scaffold that `Init` writes by default is found as a test.
use pgcov.Base.{
  ◌-◌, true, [], ◌∷◌, ◌++◌, Bytes, codes, bytes_eq, bytes_eq_refl, length, leb, ◌≡◌, ◌≢◌, refl, sym,
  ap, ◌∙◌, arith, length-append, drop-append, append_assoc,
}
use pgcov.Text.{lower, to_lower, has_suffix}
use pgcov.Text.Fields.{trim_suffix}
use pgcov.Discovery.{FileType, classify_file}
use pgcov.Scaffold.Create.{Disk, default_scaffold_path, scaffold_base, scaffold_ext}

to_lower-append : (s t : Bytes) → to_lower (s ++ t) ≡ to_lower s ++ to_lower t
unfolding to_lower
to_lower-append [] t = refl
to_lower-append (c ∷ s) t = ap (◌∷◌ (lower c)) (to_lower-append s t)

has_suffix-append : (s t : Bytes) → has_suffix (s ++ t) t ≡ true
unfolding has_suffix
has_suffix-append s t =
    let size = length-append s t in
    let rest : length (s ++ t) - length t ≡ length s = omega (arith, size) in
    let fits : leb (length t) (length (s ++ t)) ≡ true = ground (arith, size) in
    rw (fits, rest, drop-append s t, bytes_eq_refl t) refl

classify_file-test :
    (name : Bytes)
    → has_suffix (to_lower name) (codes ".sql") ≡ true
    → has_suffix (to_lower name) (codes "_test.sql") ≡ true
    → classify_file name ≡ FileType.file_type_test
unfolding classify_file
classify_file-test name sql test = rw (sql, test)

-- A name of that form is a test.
test_name :
    (name stem : Bytes)
    → to_lower name ≡ stem ++ codes "_test.sql"
    → classify_file name ≡ FileType.file_type_test
test_name name stem e =
    classify_file-test name
      (rw (e ∙ sym (append_assoc stem (codes "_test") (codes ".sql")))
        (has_suffix-append (stem ++ codes "_test") (codes ".sql")))
      (rw e (has_suffix-append stem (codes "_test.sql")))

default_path :
    {W : Type 0} (disk : Disk W) (source : Bytes)
    → source ≢ []
    → default_scaffold_path disk source
      ≡ disk.join (disk.dir source) (scaffold_base disk (disk.base source))
unfolding default_scaffold_path
default_path disk [] h = absurd (h refl)
default_path disk (c ∷ source) h = unfold bytes_eq in refl

-- For a source whose extension is `.sql` in any case, or that has none, the path that Init
-- writes to by default is classified as a test, so that `pgcov run` executes it. The hypothesis on
-- `join` is that the last element of a joined path is the last one joined.
default_scaffold_path-IsTest :
    {W : Type 0} (disk : Disk W) (source : Bytes)
    → source ≢ []
    → to_lower (scaffold_ext disk (disk.ext (disk.base source))) ≡ codes ".sql"
    → disk.base (disk.join (disk.dir source) (scaffold_base disk (disk.base source)))
      ≡ scaffold_base disk (disk.base source)
    → classify_file (disk.base (default_scaffold_path disk source)) ≡ FileType.file_type_test
default_scaffold_path-IsTest disk source some_source ext joined =
    let base = disk.base source in
    let stem = trim_suffix base (disk.ext base) in
    let name : to_lower (scaffold_base disk base) ≡ to_lower stem ++ codes "_test.sql" =
      to_lower-append stem (codes "_test" ++ scaffold_ext disk (disk.ext base))
      ∙ ap (λ t. to_lower stem ++ t)
          (to_lower-append (codes "_test") (scaffold_ext disk (disk.ext base))
            ∙ ap (λ t. to_lower (codes "_test") ++ t) ext)
      ∙ (unfold to_lower in refl) in
    rw (default_path disk source some_source, joined)
      (test_name (scaffold_base disk base) (to_lower stem) name)

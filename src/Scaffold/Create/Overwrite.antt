-- ===== src/Scaffold/Create/Overwrite.antt =====
-- What `Init` may do to the disk.
use pgcov.Base.{
  Bool, true, false, not, ◌&&◌, Option, none, some, Bytes, codes, bytes_eq, [], Result, ok, err,
  ◌≡◌, inl, inr, refl, Bool-cases,
}
use pgcov.Text.{equal_fold}
use pgcov.Lexer.{Lexer}
use pgcov.Discovery.{Stat}
use pgcov.Instrument.Files.{ParsedSql}
use pgcov.Parser.Source.{parse}
use pgcov.Scaffold.Create.{
  Disk, InitError, exists, written, made, source_file, to_output, output_path, scaffold_of,
  with_content, with_stat, with_source, init,
}

module _ {W : Type 0} (disk : Disk W) where
  -- The directory is made and the text written, as far as these calls succeed.
  pub data Stored (out text : Bytes) (w : W) : Result InitError Bytes × W → Type 0 where
    no_directory :
        (e : Bytes) (w1 : W)
        → disk.mkdir_all (disk.dir out) w ≡ (some e, w1)
        → Stored out text w (err (InitError.cannot_create_dir e), w1)
    no_file :
        (e : Bytes) (w1 w2 : W)
        → disk.mkdir_all (disk.dir out) w ≡ (none, w1)
        → disk.write_file out text w1 ≡ (some e, w2)
        → Stored out text w (err (InitError.cannot_write e), w2)
    stored :
        (w1 w2 : W)
        → disk.mkdir_all (disk.dir out) w ≡ (none, w1)
        → disk.write_file out text w1 ≡ (none, w2)
        → Stored out text w (ok out, w2)

  -- Either `Init` fails and nothing has changed, or the target was free or `force` was given, and the
  -- scaffold of the content of the source was stored at the target.
  pub data Safe (lx : Lexer) (source output : Bytes) (force : Bool) (w : W)
      : Result InitError Bytes × W → Type 0 where
    untouched : (e : InitError) → Safe lx source output force w (err e, w)
    touched :
        {r : Result InitError Bytes × W} (abs_source content out : Bytes)
        → disk.abs source ≡ ok abs_source
        → disk.stat abs_source w ≡ Stat.stat_file
        → equal_fold (disk.ext abs_source) (codes ".sql") ≡ true
        → disk.read_file abs_source w ≡ ok content
        → disk.abs (output_path disk abs_source output) ≡ ok out
        → (exists disk (disk.stat out w) && not force) ≡ false
        → Stored out (scaffold_of disk lx abs_source content) w r
        → Safe lx source output force w r

  written-Stored :
      (out text : Bytes) (w w1 : W)
      → disk.mkdir_all (disk.dir out) w ≡ (none, w1)
      → (r : Option Bytes × W) → disk.write_file out text w1 ≡ r
      → Stored out text w (written disk out r)
  written-Stored out text w w1 m (some e, w2) q = Stored.no_file e w1 w2 m q
  written-Stored out text w w1 m (none, w2) q = Stored.stored w1 w2 m q

  made-Stored :
      (out text : Bytes) (w : W) (r : Option Bytes × W)
      → disk.mkdir_all (disk.dir out) w ≡ r
      → Stored out text w (made disk out text r)
  made-Stored out text w (some e, w1) q = Stored.no_directory e w1 q
  made-Stored out text w (none, w1) q =
      written-Stored out text w w1 q (disk.write_file out text w1) refl

  module _ (lx : Lexer) (source output : Bytes) (force : Bool) (w : W) where
    to_output-Safe :
        (abs_source content : Bytes) (target : Result Bytes Bytes)
        → disk.abs source ≡ ok abs_source
        → disk.stat abs_source w ≡ Stat.stat_file
        → equal_fold (disk.ext abs_source) (codes ".sql") ≡ true
        → disk.read_file abs_source w ≡ ok content
        → disk.abs (output_path disk abs_source output) ≡ target
        → Safe lx source output force w
            (to_output disk force (scaffold_of disk lx abs_source content) target w)
    unfolding to_output
    to_output-Safe abs_source content (err e) a s x r t =
        Safe.untouched (InitError.no_output_path e)
    to_output-Safe abs_source content (ok out) a s x r t =
        elim (Bool-cases (exists disk (disk.stat out w) && not force)) [
          | inl taken ↦ rw (taken, to_output) (Safe.untouched (InitError.output_exists out))
          | inr free ↦
              rw (free, to_output)
                (Safe.touched abs_source content out a s x r t free
                  (made-Stored out (scaffold_of disk lx abs_source content) w _ refl))
        ]

    with_content-Safe :
        (abs_source : Bytes) (read : Result Bytes Bytes) (parsed : Result Bytes ParsedSql)
        → disk.abs source ≡ ok abs_source
        → disk.stat abs_source w ≡ Stat.stat_file
        → equal_fold (disk.ext abs_source) (codes ".sql") ≡ true
        → disk.read_file abs_source w ≡ read
        → Safe lx source output force w (with_content disk lx force output abs_source read parsed w)
    unfolding with_content
    with_content-Safe abs_source (err e) p a s x r = Safe.untouched (InitError.cannot_read e)
    with_content-Safe abs_source (ok content) (err e) a s x r =
        Safe.untouched (InitError.cannot_parse e)
    with_content-Safe abs_source (ok content) (ok _) a s x r =
        to_output-Safe abs_source content (disk.abs (output_path disk abs_source output)) a s x r
          refl

    with_stat-Safe :
        (abs_source : Bytes) (st : Stat)
        → disk.abs source ≡ ok abs_source
        → disk.stat abs_source w ≡ st
        → Safe lx source output force w (with_stat disk lx force output abs_source st w)
    unfolding with_stat
    with_stat-Safe abs_source Stat.stat_missing a s =
        Safe.untouched (InitError.cannot_stat abs_source)
    with_stat-Safe abs_source (Stat.stat_error e) a s = Safe.untouched (InitError.cannot_stat e)
    with_stat-Safe abs_source Stat.stat_dir a s = Safe.untouched (InitError.is_directory abs_source)
    with_stat-Safe abs_source Stat.stat_file a s =
        elim (Bool-cases (equal_fold (disk.ext abs_source) (codes ".sql"))) [
          | inl x ↦
              rw (x, with_stat)
                (with_content-Safe abs_source (disk.read_file abs_source w)
                  (parse lx (λ p. disk.read_file p w) (source_file disk lx abs_source)) a s x refl)
          | inr x ↦ rw (x, with_stat) (Safe.untouched (InitError.not_sql abs_source))
        ]

    with_source-Safe :
        (found : Result Bytes Bytes)
        → disk.abs source ≡ found
        → Safe lx source output force w (with_source disk lx force output found w)
    unfolding with_source
    with_source-Safe (err e) a = Safe.untouched (InitError.no_source_path e)
    with_source-Safe (ok abs_source) a = with_stat-Safe abs_source (disk.stat abs_source w) a refl

    -- In every case Init either fails without a change of the disk, or its source is a .sql file, the
    -- target was free or force was given, and it made the directory of the target and wrote there
    -- the scaffold of the source's content, as far as these two calls succeeded.
    pub init-Safe : Safe lx source output force w (init disk lx source output force w)
    unfolding init
    init-Safe = elim (Bool-cases (bytes_eq source [])) [
      | inl e ↦ rw (e, init) (Safe.untouched InitError.source_required)
      | inr e ↦ rw (e, init) (with_source-Safe (disk.abs source) refl)
    ]

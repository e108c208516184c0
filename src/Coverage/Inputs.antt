-- ===== src/Coverage/Inputs.antt =====
-- `Merge` over its list of inputs (internal/coverage/model.go): totals, header fields and errors.
use pgcov.Base.{
  ℕ, ◌+◌, ◌%◌, ◌<◌, Option, none, some, List, [], ◌∷◌, ◌++◌, if◌then◌else◌, Bytes, length, bytes_eq,
  ◌≡◌, refl, sym, ap, ◌∙◌, arith, append-nil, ok, err,
}
use pgcov.Decimal.{modulus}
use pgcov.Coverage.{
  FileHits, Coverage, VersionError, hits, merge_into, merge_step, merge_from, merge,
  validate_version, new_coverage, IsWf, schema_version,
}
use pgcov.Coverage.Merge.{hits-merge_into, hits_nil}

-- The inputs are Go maps.
abbrev pub AllWf : List (Option Coverage) → Type 0
AllWf [] = Unit
AllWf (none ∷ cs) = AllWf cs
AllWf (some c ∷ cs) = (IsWf c.positions × IsWf c.implicit_positions) × AllWf cs

-- Every input that is not nil carries the supported version.
abbrev pub AllValid : List (Option Coverage) → Type 0
AllValid [] = Unit
AllValid (none ∷ cs) = AllValid cs
AllValid (some c ∷ cs) = (validate_version (some c) ≡ ok tt) × AllValid cs

-- The sum of the counts that the inputs have at one position, in one of their two maps.
pub sum_hits : (Coverage → FileHits) → List (Option Coverage) → Bytes → Bytes → ℕ
sum_hits part [] f k = 0
sum_hits part (none ∷ cs) f k = sum_hits part cs f k
sum_hits part (some c ∷ cs) f k = hits (part c) f k + sum_hits part cs f k

-- The first root that is not empty.
pub first_root : Bytes → List (Option Coverage) → Bytes
first_root root [] = root
first_root root (none ∷ cs) = first_root root cs
first_root root (some c ∷ cs) = first_root (if bytes_eq root [] then c.root else root) cs

-- Result of a run of the loop from index `i` and state `result`, with all versions right.
loop : Coverage → List (Option Coverage) → Coverage
loop result [] = result
loop result (none ∷ cs) = loop result cs
loop result (some c ∷ cs) = loop (merge_step result c) cs

merge_from-nil :
    (i : ℕ) (result : Coverage) (cs : List (Option Coverage))
    → merge_from i result (none ∷ cs) ≡ merge_from (i + 1) result cs
unfolding merge_from
merge_from-nil i result cs = refl

merge_from-ok :
    (i : ℕ) (result c : Coverage) (cs : List (Option Coverage))
    → validate_version (some c) ≡ ok tt
    → merge_from i result (some c ∷ cs) ≡ merge_from (i + 1) (merge_step result c) cs
unfolding merge_from
merge_from-ok i result c cs v = rw (merge_from, v)

merge_from-err :
    (i : ℕ) (result c : Coverage) (cs : List (Option Coverage)) {e : VersionError}
    → validate_version (some c) ≡ err e
    → merge_from i result (some c ∷ cs) ≡ err (i + 1, e)
unfolding merge_from
merge_from-err i result c cs v = rw (merge_from, v)

merge_from-append :
    (pre post : List (Option Coverage)) (i : ℕ) (result : Coverage)
    → AllValid pre
    → merge_from i result (pre ++ post) ≡ merge_from (i + length pre) (loop result pre) post
unfolding loop
merge_from-append [] post i result v = ap (λ n. merge_from n result post) {x = i} (omega arith)
merge_from-append (none ∷ pre) post i result v =
    merge_from-nil i result (pre ++ post)
    ∙ merge_from-append pre post (i + 1) result v
    ∙ ap (λ n. merge_from n (loop result pre) post) {x = i + 1 + length pre} (omega arith)
merge_from-append (some c ∷ pre) post i result v =
    merge_from-ok i result c (pre ++ post) v.0
    ∙ merge_from-append pre post (i + 1) (merge_step result c) v.1
    ∙ ap (λ n. merge_from n (loop (merge_step result c) pre) post) {x = i + 1 + length pre}
        (omega arith)

-- If every input that is not nil has the supported version, `Merge` succeeds.
merge-loop :
    (now : ℕ) (cs : List (Option Coverage))
    → AllValid cs
    → merge now cs ≡ ok (loop (new_coverage now) cs)
unfolding merge
merge-loop now cs v =
    ap (merge_from 0 (new_coverage now)) (sym (append-nil cs))
    ∙ merge_from-append cs [] 0 (new_coverage now) v
    ∙ unfold merge_from in refl

-- The first input of another version ends the merge with that input's number, from 1 on, and its
-- error; what follows it is not looked at.
merge_rejects :
    (now : ℕ) (pre post : List (Option Coverage)) (c : Coverage) {e : VersionError}
    → AllValid pre
    → validate_version (some c) ≡ err e
    → merge now (pre ++ (some c ∷ post)) ≡ err (length pre + 1, e)
unfolding merge
merge_rejects now pre post c {e} v b =
    merge_from-append pre (some c ∷ post) 0 (new_coverage now) v
    ∙ merge_from-err (0 + length pre) (loop (new_coverage now) pre) c post b
    ∙ ap (λ n. err (n, e)) {x = 0 + length pre + 1} (omega arith)

module _ (g j : Bytes) where
  -- A part of the data that every round of the loop merges.
  abbrev Merges : (Coverage → FileHits) → Type 0
  Merges part = (r c : Coverage) → part (merge_step r c) ≡ merge_into (part r) (part c)

  hits-loop :
      (part : Coverage → FileHits)
      → Merges part
      → ((c : Coverage) → IsWf c.positions × IsWf c.implicit_positions → IsWf (part c))
      → (cs : List (Option Coverage)) (r : Coverage) → AllWf cs
      → hits (part r) g j < modulus
      → hits (part (loop r cs)) g j ≡ (hits (part r) g j + sum_hits part cs g j) % modulus
  unfolding loop sum_hits
  hits-loop part m w [] r a b = omega arith
  hits-loop part m w (none ∷ cs) r a b = hits-loop part m w cs r a b
  hits-loop part m w (some c ∷ cs) r a b =
      let wf = w c a.0 in
      let step : hits (part (merge_step r c)) g j
          ≡ (hits (part r) g j + hits (part c) g j) % modulus =
        rw (m r c) (hits-merge_into (part c) (part r) g j wf.files wf.inner b) in
      omega (arith, step, hits-loop part m w cs (merge_step r c) a.1 (omega (arith, step)))

from_zero :
    (g j : Bytes) (m : FileHits) (x s : ℕ)
    → m ≡ []
    → (hits m g j < modulus → x ≡ (hits m g j + s) % modulus)
    → x ≡ s % modulus
from_zero g j m x s e h =
    let z : hits m g j ≡ 0 = rw e (hits_nil g j) in omega (arith, h (omega arith))

positions-merge_step :
    (r c : Coverage) → (merge_step r c).positions ≡ merge_into r.positions c.positions
unfolding merge_step
positions-merge_step r c = refl

implicit-merge_step :
    (r c : Coverage)
    → (merge_step r c).implicit_positions ≡ merge_into r.implicit_positions c.implicit_positions
unfolding merge_step
implicit-merge_step r c = refl

loop_header :
    (cs : List (Option Coverage)) (r : Coverage)
    → ((loop r cs).version ≡ r.version)
      × ((loop r cs).timestamp ≡ r.timestamp)
      × ((loop r cs).root ≡ first_root r.root cs)
unfolding loop first_root merge_step
loop_header [] r = (refl, refl, refl)
loop_header (none ∷ cs) r = loop_header cs r
loop_header (some c ∷ cs) r = loop_header cs (merge_step r c)

-- What a successful merge is, for the inputs `cs`.
pub record IsMergeOf (now : ℕ) (cs : List (Option Coverage)) (r : Coverage) : Type 0 where
  pub supported : r.version ≡ schema_version
  pub stamped : r.timestamp ≡ now
  pub rooted : r.root ≡ first_root [] cs
  pub executable :
      (f k : Bytes) → hits r.positions f k ≡ sum_hits (λ c. c.positions) cs f k % modulus
  pub implicit :
      (f k : Bytes)
      → hits r.implicit_positions f k ≡ sum_hits (λ c. c.implicit_positions) cs f k % modulus

-- If every input that is not nil has the supported version, `Merge` returns data whose count at
-- every position of either map is the sum of the inputs' counts, as an `int`; its version is the
-- supported one, its time stamp is `now` and its root is the first one that is not empty.
pub merge_sums :
    (now : ℕ) (cs : List (Option Coverage))
    → AllValid cs
    → AllWf cs
    → (r : Coverage) × (merge now cs ≡ ok r) × IsMergeOf now cs r
merge_sums now cs v a =
    let (version, time, root) = loop_header cs (new_coverage now) in
    (
      loop (new_coverage now) cs,
      merge-loop now cs v,
      record {
        supported = unfold new_coverage in version;
        stamped = unfold new_coverage in time;
        rooted = unfold new_coverage in root;
        executable = λ f k.
            from_zero f k (new_coverage now).positions _ (sum_hits (λ c. c.positions) cs f k)
              (unfold new_coverage in refl)
              (hits-loop f k (λ c. c.positions) positions-merge_step (λ c w. w.0) cs
                (new_coverage now) a);
        implicit = λ f k.
            from_zero f k (new_coverage now).implicit_positions _
              (sum_hits (λ c. c.implicit_positions) cs f k) (unfold new_coverage in refl)
              (hits-loop f k (λ c. c.implicit_positions) implicit-merge_step (λ c w. w.1) cs
                (new_coverage now) a);
      },
    )

-- ===== src/Examples/Combining.antt =====
-- The merge of coverage files at concrete inputs.
use pgcov.Base.{
  ℕ, ◌≤◌, Option, none, some, List, [], ◌∷◌, if◌then◌else◌, Bytes, codes, bytes_eq, length, Result,
  ok, err, ◌≡◌, ap, refl, sym, subst, inl, inr, Bool-cases,
}
use native.Mathlib.Decide.{ℕ_discrete}
use pgcov.Dict.{lookup, insert}
use pgcov.Dict.Laws.{lookup-insert_self}
use pgcov.Coverage.{Coverage, IsWf, merge, merge_step, validate_version}
use pgcov.Coverage.Texts.{IsText}
use pgcov.Text.Utf8.{is_utf8}
use pgcov.Coverage.Store.{Storage, FileState, load, save}
use pgcov.Commands.Combine.{combine}
use pgcov.Commands.Combine.Sums.{SameData, StorageLaws, Loads, HoldsMerge, combine_sums}

abbrev covered_by : ℕ → Coverage
covered_by n = record {
  version = codes "2.0";
  timestamp = 7;
  positions = (codes "f", some ((codes "1:2", n) ∷ [])) ∷ [];
  implicit_positions = [];
  root = codes "/r";
}

unfoldable pub Coverage-discrete : Discrete Coverage
Coverage-discrete = hlevel ℕ_discrete

-- Files are looked up by their paths. There are three texts of JSON.
abbrev pub Drive : Type 0
Drive = List (Bytes × Bytes)

unfoldable pub state_of : Option Bytes → FileState
state_of none = FileState.is_missing
state_of (some content) = FileState.is_there

unfoldable pub content_of : Option Bytes → Result Bytes Bytes
content_of none = err (codes "no such file")
content_of (some content) = ok content

decode : Bytes → Result Bytes Coverage
decode content =
    if bytes_eq content (codes "three")
    then ok (covered_by 3)
    else if bytes_eq content (codes "four")
    then ok (covered_by 4)
    else if bytes_eq content (codes "seven")
    then ok (covered_by 7)
    else err (codes "bad JSON")

encode_by : (c : Coverage) → Dec (c ≡ covered_by 7) → Result Bytes Bytes
encode_by c (yes _) = ok (codes "seven")
encode_by c (no _) = err (codes "unknown")

encode : Coverage → Result Bytes Bytes
unfolding encode_by Coverage-discrete ℕ_discrete
encode c = encode_by c (Coverage-discrete c (covered_by 7))

abbrev drive_storage : Storage Drive
drive_storage = record {
  dir = λ p. codes "/r";
  stat = λ p w. state_of (lookup p w);
  read_file = λ p w. content_of (lookup p w);
  mkdir_all = λ p w. (none, w);
  write_file = λ p content w. (none, insert p content w);
  remove = λ p w. (none, w);
  marshal = encode;
  unmarshal = decode;
}

covered_by-IsWf : (n : ℕ) → IsWf (covered_by n).positions × IsWf (covered_by n).implicit_positions
covered_by-IsWf n =
    (record { files = (tt, tt); inner = ((tt, tt), tt) }, record { files = tt; inner = tt })

-- What is decoded is covered once or more.
decode-keeps :
    (Q : Coverage → Type 0)
    → ((n : ℕ) → Q (covered_by n))
    → (content : Bytes) (c : Coverage) → decode content ≡ ok c
    → Q c
unfolding decode
decode-keeps Q every content c e = elim (Bool-cases (bytes_eq content (codes "three"))) [
  | inl three ↦ made 3 (rw three at e)
  | inr not_three ↦ elim (Bool-cases (bytes_eq content (codes "four"))) [
    | inl four ↦ made 4 (rw (not_three, four) at e)
    | inr not_four ↦ elim (Bool-cases (bytes_eq content (codes "seven"))) [
      | inl seven ↦ made 7 (rw (not_three, not_four, seven) at e)
      | inr not_seven ↦ cc (rw (not_three, not_four, not_seven) at e)
    ]
  ]
]
  where
    made : (n : ℕ) → ◌≡◌ {A = Result Bytes Coverage} (ok (covered_by n)) (ok c) → Q c
    made n q = let same : covered_by n ≡ c = cc in subst Q same (every n)

covered_by-IsText : (n : ℕ) → IsText (covered_by n)
unfolding is_utf8
covered_by-IsText n = record {
  version = refl;
  root = refl;
  executable = (refl, (refl, tt), tt);
  implicit = tt;
}

decode_seven : decode (codes "seven") ≡ ok (covered_by 7)
unfolding decode bytes_eq
decode_seven = refl

decode-encode_by :
    (c : Coverage) (content : Bytes) (d : Dec (c ≡ covered_by 7))
    → encode_by c d ≡ ok content
    → (d : Coverage) × (decode content ≡ ok d) × SameData c d
unfolding encode_by
decode-encode_by c content (yes p) e =
    let at_seven : codes "seven" ≡ content = cc in
    (
      covered_by 7,
      subst (λ t. decode t ≡ ok (covered_by 7)) at_seven decode_seven,
      subst (λ x. SameData x (covered_by 7)) (sym p)
          (record {
            version = refl;
            root = refl;
            executable = λ f k. refl;
            implicit = λ f k. refl;
          }),
    )
decode-encode_by c content (no p) e = cc

drive_laws : StorageLaws drive_storage
drive_laws = record {
  there = λ path content w w' e.
      subst (λ v. state_of (lookup path v) ≡ FileState.is_there) (ap (λ r. r.1) e)
        (rw (lookup-insert_self path content w) (unfold state_of in refl));
  read_back = λ path content w w' e.
      subst (λ v. content_of (lookup path v) ≡ ok content) (ap (λ r. r.1) e)
        (rw (lookup-insert_self path content w) (unfold content_of in refl));
  decoded = λ c content t e.
      decode-encode_by c content (Coverage-discrete c (covered_by 7)) (unfold encode in e);
  maps = decode-keeps (λ c. IsWf c.positions × IsWf c.implicit_positions) covered_by-IsWf;
  texts = decode-keeps IsText covered_by-IsText;
}

abbrev no_stdout : Bytes → Drive → Option Bytes × Drive
no_stdout content w = (none, w)

abbrev two_files : Drive
two_files = (codes "a", codes "three") ∷ (codes "b", codes "four") ∷ []

abbrev three_files : Drive
three_files =
    (codes "a", codes "three") ∷ (codes "b", codes "four") ∷ (codes "m", codes "seven") ∷ []

two_files_merged :
    combine drive_storage no_stdout 7 (codes "a" ∷ codes "b" ∷ []) (codes "m") two_files
    ≡ (none, three_files)
unfolding combine load save merge lookup insert bytes_eq decode encode state_of content_of
    validate_version merge_step
two_files_merged = refl

combine_sums_example :
    (2 ≤ length (codes "a" ∷ codes "b" ∷ []))
    × ((cs : List (Option Coverage)) × Loads drive_storage no_stdout
          (codes "a" ∷ codes "b" ∷ [])
          two_files
          cs
        × HoldsMerge drive_storage no_stdout drive_laws (codes "m") cs three_files)
combine_sums_example =
    combine_sums drive_storage no_stdout drive_laws 7 (codes "a" ∷ codes "b" ∷ []) (codes "m")
      two_files three_files (unfold bytes_eq in refl) two_files_merged

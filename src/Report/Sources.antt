-- ===== src/Report/Sources.antt =====
-- How the reporters of internal/report (lcov.go and html.go, which repeat each other here) find the
-- text of a source. Package filepath, the working directory and the disk are a parameter.
use pgcov.Base.{
  List, [], ◌∷◌, ◌++◌, Bool, if◌then◌else◌, Bytes, bytes_eq, Result, ok, err, ◌≡◌, ◌∙◌, refl,
}

pub record Places : Type 0 where
  pub is_abs : Bytes → Bool
  pub join : Bytes → Bytes → Bytes
  pub from_slash : Bytes → Bytes
  pub getwd : Result Bytes Bytes
  pub read_file : Bytes → Result Bytes Bytes

module _ (places : Places) where
  abbrev pub in_base : Bytes → Bytes → List Bytes
  in_base base_dir file_path =
      if bytes_eq base_dir [] then [] else places.join base_dir (places.from_slash file_path) ∷ []

  abbrev pub in_working_dir : Bytes → Result Bytes Bytes → Bytes
  in_working_dir file_path (ok cwd) = places.join cwd (places.from_slash file_path)
  in_working_dir file_path (err e) = file_path

  unfoldable pub source_path_candidates : Bytes → Bytes → List Bytes
  source_path_candidates base_dir file_path =
      if places.is_abs file_path
      then file_path ∷ []
      else in_base base_dir file_path ++ (in_working_dir file_path places.getwd ∷ [])

  -- The first candidate that can be read, or else the last error.
  unfoldable pub read_first : Bytes → List Bytes → Result Bytes Bytes
  read_first last_err [] = err last_err
  read_first last_err (p ∷ candidates) = elim (places.read_file p) as (λ _. Result Bytes Bytes) [
    | ok text ↦ ok text
    | err e ↦ read_first e candidates
  ]

  unfoldable pub read_source_file : Bytes → Bytes → Result Bytes Bytes
  unfolding read_first source_path_candidates
  read_source_file base_dir file_path = read_first [] (source_path_candidates base_dir file_path)

  -- The text is that of a candidate in front of which no candidate can be read.
  data FirstRead (text : Bytes) : List Bytes → Type 0 where
    found_here :
        {p : Bytes} {ps : List Bytes} → places.read_file p ≡ ok text → FirstRead text (p ∷ ps)
    found_later :
        {p : Bytes} {ps : List Bytes} (e : Bytes)
        → places.read_file p ≡ err e
        → FirstRead text ps
        → FirstRead text (p ∷ ps)

  -- One step of `read_first`, from what the candidate gives.
  FirstRead-step :
      (text p : Bytes) (ps : List Bytes) (r : Result Bytes Bytes)
      → ((e : Bytes) → read_first e ps ≡ ok text → FirstRead text ps)
      → places.read_file p ≡ r
      → (elim r as (λ _. Result Bytes Bytes) [ ok found ↦ ok found | err e ↦ read_first e ps ])
        ≡ ok text
      → FirstRead text (p ∷ ps)
  FirstRead-step text p ps (ok found) next q k = FirstRead.found_here (q ∙ k)
  FirstRead-step text p ps (err e) next q k = FirstRead.found_later e q (next e k)

  read_first-FirstRead :
      (last_err text : Bytes) (ps : List Bytes)
      → read_first last_err ps ≡ ok text
      → FirstRead text ps
  unfolding read_first
  read_first-FirstRead last_err text [] h = cc
  read_first-FirstRead last_err text (p ∷ ps) h =
      FirstRead-step text p ps (places.read_file p) (λ e k. read_first-FirstRead e text ps k) refl h

  -- What is read of a source is the content of the first of its candidates that can be read.
  read_source_file-FirstRead :
      (base_dir file_path text : Bytes)
      → read_source_file base_dir file_path ≡ ok text
      → FirstRead text (source_path_candidates base_dir file_path)
  unfolding read_source_file
  read_source_file-FirstRead base_dir file_path text h =
      read_first-FirstRead [] text (source_path_candidates base_dir file_path) h

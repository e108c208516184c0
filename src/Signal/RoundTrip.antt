-- ===== src/Signal/RoundTrip.antt =====
-- Parsing a formatted signal ID, whatever colons the file name has.
use Prim.Native.Nat.add
use native.Mathlib.Nat.{add-zero, add-suc}
use pgcov.Base.{
  ℕ, zero, suc, ◌+◌, ◌-◌, ◌<◌, some, List, [], ◌∷◌, ◌++◌, Bytes, length, get_or, slice, ok, ◌>>=◌,
  ◌≡◌, ◌≢◌, refl, sym, ap, ◌∙◌, arith, Lacks, append_assoc, append-nil, length-append, take-append,
  drop-append,
}
use pgcov.Decimal.{half, print_int, atoi}
use pgcov.Decimal.RoundTrip.{atoi-print_int}
use pgcov.Key.RoundTrip.{print_int-Lacks}
use pgcov.Signal.{
  SignalError, format_signal_id, find_colons, parse_number, check_signal, parse_parts,
  parse_signal_id,
}

get_or-append : (p q : Bytes) (j d : ℕ) → get_or (p ++ q) (length p + j) d ≡ get_or q j d
get_or-append [] q j d = rw add.zero
get_or-append (x ∷ p) q j d = rw add.suc (get_or-append p q j d)

get_or-Lacks :
    (b : Bytes) (r : Bytes) (j : ℕ) → Lacks b':' b → j < length b → get_or (b ++ r) j 0 ≢ b':'
get_or-Lacks [] r j h k = absurd (omega arith)
get_or-Lacks (x ∷ b) r zero h k = h.0
get_or-Lacks (x ∷ b) r (suc j) h k = get_or-Lacks b r j h.1 (omega arith)

get_or_at : (p q : Bytes) (i j : ℕ) → i ≡ length p + j → get_or (p ++ q) i 0 ≡ get_or q j 0
get_or_at p q i j e = rw e (get_or-append p q j 0)

find_colons_miss :
    (s : Bytes) (i : ℕ) (found : List ℕ)
    → get_or s i 0 ≢ b':'
    → find_colons s (suc i) found ≡ find_colons s i found
unfolding find_colons
find_colons_miss s i found n = ground arith

find_colons_first :
    (s : Bytes) (i : ℕ) → get_or s i 0 ≡ b':' → find_colons s (suc i) [] ≡ find_colons s i (i ∷ [])
unfolding find_colons
find_colons_first s i e = ground arith

find_colons_second :
    (s : Bytes) (i x : ℕ) → get_or s i 0 ≡ b':' → find_colons s (suc i) (x ∷ []) ≡ x ∷ i ∷ []
unfolding find_colons
find_colons_second s i x e = ground arith

-- No colon among the `k` bytes from `i` on: the loop goes back to `i`.
find_colons_skip :
    (s : Bytes) (k i : ℕ) (found : List ℕ)
    → ((j : ℕ) → j < k → get_or s (i + j) 0 ≢ b':')
    → find_colons s (i + k) found ≡ find_colons s i found
find_colons_skip s zero i found h = rw add-zero
find_colons_skip s (suc k) i found h = rw add-suc (
    find_colons_miss s (i + k) found (h k (omega arith))
    ∙ find_colons_skip s k i found (λ j l. h j (omega arith)))

-- The same, where the bytes without a colon are the text `b` behind `p`.
find_colons_past :
    (s p b r : Bytes) (i : ℕ) (found : List ℕ)
    → s ≡ p ++ (b ++ r)
    → i ≡ length p
    → Lacks b':' b
    → find_colons s (i + length b) found ≡ find_colons s i found
find_colons_past s p b r i found e n h =
    find_colons_skip s (length b) i found
      λ j l. rw (e, get_or_at p (b ++ r) (i + j) j (omega arith)) (get_or-Lacks b r j h l)

slice_mid :
    (s p q r : Bytes) (i j : ℕ)
    → s ≡ p ++ (q ++ r)
    → i ≡ length p
    → j ≡ i + length q
    → slice s i j ≡ q
slice_mid s p q r i j e n m =
    let k : j - i ≡ length q = omega arith in rw (e, k, n, drop-append p (q ++ r)) (take-append q r)

module _ (f a b : Bytes) where
  abbrev whole : Bytes
  whole = f ++ (b':' ∷ (a ++ (b':' ∷ b)))

  abbrev second : ℕ
  second = suc (length f) + length a

  split_front : whole ≡ (f ++ b':' ∷ []) ++ (a ++ (b':' ∷ b))
  split_front = sym (append_assoc f (b':' ∷ []) (a ++ (b':' ∷ b)))

  split_back : whole ≡ (f ++ (b':' ∷ a) ++ b':' ∷ []) ++ (b ++ [])
  split_back = rw append-nil (simp append_assoc)

  length_front : length (f ++ b':' ∷ []) ≡ suc (length f)
  length_front = omega (arith, length-append f (b':' ∷ []))

  length_back : length (f ++ (b':' ∷ a) ++ b':' ∷ []) ≡ suc second
  length_back =
      omega (arith, length-append (f ++ (b':' ∷ a)) (b':' ∷ []), length-append f (b':' ∷ a))

  length-whole : length whole ≡ suc second + length b
  length-whole =
      omega (arith, length-append f (b':' ∷ (a ++ (b':' ∷ b))), length-append a (b':' ∷ b))

  colon_first : get_or whole (length f) 0 ≡ b':'
  colon_first = get_or_at f (b':' ∷ (a ++ (b':' ∷ b))) (length f) 0 (omega arith)

  colon_second : get_or whole second 0 ≡ b':'
  colon_second = rw split_front (
      get_or_at (f ++ b':' ∷ []) (a ++ (b':' ∷ b)) second (length a) (omega (arith, length_front))
      ∙ get_or_at a (b':' ∷ b) (length a) 0 (omega arith))

  -- The loop finds the two colons around the numbers, and none of the file's.
  find_colons-whole :
      Lacks b':' a → Lacks b':' b → find_colons whole (length whole) [] ≡ second ∷ length f ∷ []
  find_colons-whole ha hb =
      ap (λ n. find_colons whole n []) length-whole
      ∙ find_colons_past whole (f ++ (b':' ∷ a) ++ b':' ∷ []) b [] (suc second) [] split_back
          (sym length_back) hb
      ∙ find_colons_first whole second colon_second
      ∙ find_colons_past whole (f ++ b':' ∷ []) a (b':' ∷ b) (suc (length f)) (second ∷ [])
          split_front (sym length_front) ha
      ∙ find_colons_second whole (length f) second colon_first

  slice_file : slice whole 0 (length f) ≡ f
  slice_file = slice_mid whole [] f (b':' ∷ (a ++ (b':' ∷ b))) 0 (length f) refl refl (omega arith)

  slice_start : slice whole (length f + 1) second ≡ a
  slice_start =
      slice_mid whole (f ++ b':' ∷ []) a (b':' ∷ b) (length f + 1) second split_front
        (omega (arith, length_front)) (omega arith)

  slice-length : slice whole (second + 1) (length whole) ≡ b
  slice-length =
      slice_mid whole (f ++ (b':' ∷ a) ++ b':' ∷ []) b [] (second + 1) (length whole) split_back
        (omega (arith, length_back)) (omega (arith, length-whole))

parse_numbers :
    (file x y : Bytes) (s l : ℕ)
    → atoi x ≡ some s
    → atoi y ≡ some l
    → s < half
    → l < half
    → (parse_number SignalError.bad_start x >>= λ n.
        parse_number SignalError.bad_length y >>= λ m. check_signal file n m)
      ≡ ok (file, s, l)
unfolding check_signal
parse_numbers file x y s l hx hy hs hl = ground arith

parse_parts-whole :
    (f a b : Bytes) (s l : ℕ)
    → atoi a ≡ some s
    → atoi b ≡ some l
    → s < half
    → l < half
    → parse_parts (whole f a b) (length f) (second f a b) ≡ ok (f, s, l)
unfolding parse_parts
parse_parts-whole f a b s l hx hy hs hl =
    rw (slice_start f a b, slice-length f a b, slice_file f a b)
      (parse_numbers f a b s l hx hy hs hl)

-- A signal ID gives back its file, start and length, whatever bytes the file name has.
pub parse_signal_id-format :
    (file : Bytes) (s l : ℕ)
    → s < half
    → l < half
    → parse_signal_id (format_signal_id file s l) ≡ ok (file, s, l)
unfolding parse_signal_id format_signal_id
parse_signal_id-format file s l hs hl =
    rw (find_colons-whole file (print_int s) (print_int l) (print_int-Lacks s) (print_int-Lacks l))
      (parse_parts-whole file (print_int s) (print_int l) s l (atoi-print_int s (omega arith))
        (atoi-print_int l (omega arith)) hs hl)

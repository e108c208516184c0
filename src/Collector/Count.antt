-- ===== src/Collector/Count.antt =====
-- What signals do to the counts.
use pgcov.Base.{
  ℕ, ◌+◌, ◌%◌, ◌<◌, Bool, true, false, Option, none, some, List, [], ◌∷◌, if◌then◌else◌, ◌&&◌, ◌==◌,
  Bytes, bytes_eq, bytes_eq_iff, bytes_eq_refl, ◌≡◌, refl, sym, ap, ◌∙◌, inl, inr, arith,
  Bool-cases, All, Result, ok, err, map,
}
use pgcov.Decimal.{half, modulus}
use pgcov.Dict.Laws.{bytes_eq_ne}
use pgcov.Key.{format_position_key, KeyError, parse_position_key}
use pgcov.Key.RoundTrip as KeyTrip
use pgcov.Signal.{format_signal_id}
use pgcov.Signal.RoundTrip as SignalTrip
use pgcov.Coverage.{Coverage, FileHits, find_hits, hits, value_or_zero, add_int}
use pgcov.Coverage.Positions.{add_position_lem, add_implicit_position_lem}
use pgcov.Collector.{or_fail, bump, count_parsed, add_signal_unsafe, collect_from_run}

-- The count that a signal for the position moves: the implicit one where the position is implicit,
-- else the executable one.
abbrev pub count_at : Option ℕ → Option ℕ → ℕ
count_at (some n) exec = n
count_at none exec = value_or_zero exec

unfoldable pub position_count : Coverage → Bytes → Bytes → ℕ
position_count c f k = count_at (find_hits c.implicit_positions f k) (find_hits c.positions f k)

-- Signals are for positions whose numbers are non-negative `int`s.
pub record Place : Type 0 where
  pub file : Bytes
  pub start_pos : ℕ
  pub len : ℕ

abbrev pub InRange : Place → Type 0
InRange p = (p.start_pos < half) × (p.len < half)

abbrev pub signal_of : Place → Bytes
signal_of p = format_signal_id p.file p.start_pos p.len

abbrev pub key_of : Place → Bytes
key_of p = format_position_key p.start_pos p.len

abbrev pub same_place : Place → Place → Bool
same_place p q = bytes_eq p.file q.file && (p.start_pos == q.start_pos && p.len == q.len)

or_zero : Result KeyError (ℕ × ℕ) → ℕ × ℕ
or_zero (ok p) = p
or_zero (err _) = (0, 0)

-- How often a place occurs among those that signalled.
abbrev pub occurrences : Place → List Place → ℕ
occurrences q [] = 0
occurrences q (p ∷ ps) = (if same_place p q then 1 else 0) + occurrences q ps

-- Two places have one key only if their numbers agree.
key_of-injective :
    (p q : Place)
    → InRange p
    → InRange q
    → key_of p ≡ key_of q
    → (p.start_pos ≡ q.start_pos) × (p.len ≡ q.len)
key_of-injective p q hp hq e =
    let x = KeyTrip.parse_position_key-format p.start_pos p.len hp.0 hp.1 in
    let y = KeyTrip.parse_position_key-format q.start_pos q.len hq.0 hq.1 in
    let z : ◌≡◌ {A = Result KeyError (ℕ × ℕ)} (ok (p.start_pos, p.len)) (ok (q.start_pos, q.len)) =
      sym x ∙ ap parse_position_key e ∙ y in
    unfold or_zero in (ap (λ r. (or_zero r).0) z, ap (λ r. (or_zero r).1) z)

same_key :
    (p q : Place)
    → InRange p
    → InRange q
    → bytes_eq (key_of p) (key_of q) ≡ (p.start_pos == q.start_pos && p.len == q.len)
same_key p q hp hq = elim (Bool-cases (p.start_pos == q.start_pos && p.len == q.len)) [
  | inl e ↦
      let es : p.start_pos ≡ q.start_pos = ground arith in
      let el : p.len ≡ q.len = ground arith in rw (es, el, bytes_eq_refl (key_of q)) (ground arith)
  | inr e ↦
      rw (e, bytes_eq_ne (key_of p) (key_of q) (λ k. ground (arith, key_of-injective p q hp hq k)))
]

bump_some :
    (m : Bool) (i x i' x' : Option ℕ) (n : ℕ)
    → i' ≡ (if m then some (add_int n 1) else i)
    → x' ≡ x
    → (m ≡ true → i ≡ some n)
    → count_at i' x' ≡ (if m then add_int (count_at i x) 1 else count_at i x)
bump_some true i x i' x' n p q r = rw (p, r refl)
bump_some false i x i' x' n p q r = rw (p, q)

bump_none :
    (m : Bool) (i x i' x' : Option ℕ)
    → i' ≡ i
    → x' ≡ (if m then some (add_int (value_or_zero x) 1) else x)
    → (m ≡ true → i ≡ none)
    → count_at i' x' ≡ (if m then add_int (count_at i x) 1 else count_at i x)
bump_none true i x i' x' p q r = rw (p, q, r refl)
bump_none false i x i' x' p q r = rw (p, q)

module _ (c : Coverage) (p : Place) (g k : Bytes) where
  abbrev here : Bool
  here = bytes_eq p.file g && bytes_eq (key_of p) k

  here_file : here ≡ true → p.file ≡ g
  here_file h = (bytes_eq_iff p.file g).0 (ground arith)

  here_key : here ≡ true → key_of p ≡ k
  here_key h = (bytes_eq_iff (key_of p) k).0 (ground arith)

  here_hits : (m : FileHits) → here ≡ true → find_hits m g k ≡ find_hits m p.file (key_of p)
  here_hits m h = rw (here_file h, here_key h)

  same_if_here :
      (x y o : Option ℕ) (h : ℕ)
      → o ≡ (if here then some (add_int h 1) else x)
      → (here ≡ true → value_or_zero x ≡ h)
      → o ≡ (if here then some (add_int (value_or_zero x) 1) else x)
  same_if_here x y o h e f = elim (Bool-cases here) [ inl t ↦ rw (e, t, f t) | inr t ↦ rw (e, t) ]

  bump_count :
      (o : Option ℕ)
      → find_hits c.implicit_positions p.file (key_of p) ≡ o
      → position_count (bump c p.file p.start_pos p.len o) g k
        ≡ (if here then add_int (position_count c g k) 1 else position_count c g k)
  unfolding bump position_count
  bump_count (some n) e =
      let (changed, kept) =
        add_implicit_position_lem c p.file g k p.start_pos p.len (add_int n 1) in
      bump_some here (find_hits c.implicit_positions g k) (find_hits c.positions g k) _ _ n changed
        (ap (λ m. find_hits m g k) kept) (λ h. here_hits c.implicit_positions h ∙ e)
  bump_count none e =
      let h = hits c.positions p.file (key_of p) in
      let (changed, kept) = add_position_lem c p.file g k p.start_pos p.len (add_int h 1) in
      bump_none here (find_hits c.implicit_positions g k) (find_hits c.positions g k) _ _
        (ap (λ m. find_hits m g k) kept)
        (same_if_here (find_hits c.positions g k) none _ h changed
          (λ t. ap value_or_zero (here_hits c.positions t)))
        (λ t. here_hits c.implicit_positions t ∙ e)

-- A signal for a place in range is accepted.
add_signal_of :
    (c : Coverage) (p : Place)
    → InRange p
    → add_signal_unsafe c (signal_of p)
      ≡ (bump c p.file p.start_pos p.len (find_hits c.implicit_positions p.file (key_of p)), none)
unfolding add_signal_unsafe count_parsed
add_signal_of c p h = rw (SignalTrip.parse_signal_id-format p.file p.start_pos p.len h.0 h.1)

-- It adds one to the count of its place, and changes no other count.
add_signal_count :
    (c : Coverage) (p q : Place)
    → InRange p
    → InRange q
    → position_count (add_signal_unsafe c (signal_of p)).0 q.file (key_of q) ≡ (
        if same_place p q
        then add_int (position_count c q.file (key_of q)) 1
        else position_count c q.file (key_of q))
add_signal_count c p q hp hq =
    rw (add_signal_of c p hp, ← same_key p q hp hq)
      (bump_count c p q.file (key_of q) (find_hits c.implicit_positions p.file (key_of p)) refl)

collect_accepted :
    (c c' : Coverage) (signal : Bytes) (signals : List Bytes)
    → add_signal_unsafe c signal ≡ (c', none)
    → collect_from_run c (signal ∷ signals) ≡ collect_from_run c' signals
unfolding collect_from_run
collect_accepted c c' signal signals e =
    ap (λ x. or_fail signal x (λ d. collect_from_run d signals)) e

pub collect_step :
    (c : Coverage) (p : Place) (signals : List Bytes)
    → InRange p
    → collect_from_run c (signal_of p ∷ signals)
      ≡ collect_from_run (add_signal_unsafe c (signal_of p)).0 signals
collect_step c p signals h =
    collect_accepted c _ (signal_of p) signals (add_signal_of c p h)
    ∙ ap (λ x. collect_from_run x.0 signals) (sym (add_signal_of c p h))

counted-lt :
    (m : Bool) (v v' : ℕ) → v < modulus → v' ≡ (if m then add_int v 1 else v) → v' < modulus
counted-lt true v v' b e = omega arith
counted-lt false v v' b e = omega arith

counted_total :
    (m : Bool) (v v' y o : ℕ)
    → v' ≡ (if m then add_int v 1 else v)
    → y ≡ (v' + o) % modulus
    → y ≡ (v + ((if m then 1 else 0) + o)) % modulus
counted_total true v v' y o e t = omega arith
counted_total false v v' y o e t = omega arith

collect_nil : (c : Coverage) → collect_from_run c [] ≡ (c, none)
unfolding collect_from_run
collect_nil c = refl

-- Signals for places in range are all accepted, and each place's count grows by the number of its
-- signals, as an `int` does.
pub collect_counts :
    (ps : List Place) (c : Coverage) (q : Place)
    → All InRange ps
    → InRange q
    → position_count c q.file (key_of q) < modulus
    → ((collect_from_run c (map signal_of ps)).1 ≡ none)
      × (position_count (collect_from_run c (map signal_of ps)).0 q.file (key_of q)
          ≡ (position_count c q.file (key_of q) + occurrences q ps) % modulus)
collect_counts [] c q hs hq b = rw (collect_nil c) (refl, omega arith)
collect_counts (p ∷ ps) c q hs hq b =
    let c' = (add_signal_unsafe c (signal_of p)).0 in
    let one = add_signal_count c p q hs.0 hq in
    let v = position_count c q.file (key_of q) in
    let v' = position_count c' q.file (key_of q) in
    let (accepted, total) =
      collect_counts ps c' q hs.1 hq (counted-lt (same_place p q) v v' b one) in
    rw (collect_step c p (map signal_of ps) hs.0)
      (accepted, counted_total (same_place p q) v v' _ (occurrences q ps) one total)

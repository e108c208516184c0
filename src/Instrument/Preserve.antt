-- ===== src/Instrument/Preserve.antt =====
-- The instrumented text is the original text with one signal call for each coverage point.
use pgcov.Base.{
  ℕ, ◌+◌, ◌≤◌, ◌<◌, Bool, true, false, ◌&&◌, Option, none, some, List, [], ◌∷◌, ◌++◌, ◌==◌, ltb,
  if◌then◌else◌, Bytes, codes, length, take, drop, slice, get_or, ◌≡◌, refl, sym, ap, ◌∙◌, inl, inr,
  arith, append-nil, slice_join, slice_empty, subst₂, slice_one, Bool-cases, take-append-drop,
}
use pgcov.Lexer.{Lexer}
use pgcov.Parser.{Statement}
use pgcov.Point.{CoveragePoint}
use pgcov.Instrument.Weave.{Woven, Woven-append, Woven-code, Woven-note}
use pgcov.Instrument.Segments.{indent_of-IsSpacing, indent_before-IsSpacing}
use pgcov.Instrument.{
  Scan, indent_of, indent_before, signal_call, is_executable_segment, find_terminal_pos, point,
  emit_terminal, emit_signal, emit_segment,
}

module _ (lx : Lexer) (stmt : Statement) (file : Bytes) (sql : Bool) (channel : Bytes) where
  abbrev pub made : CoveragePoint → Bytes
  made cp = signal_call sql channel cp.signal_id

  abbrev W : Bytes → Bytes → List CoveragePoint → Type 0
  W = Woven made

  -- What one segment from `a` to `b` writes: its code up to `last`, and its call.
  record Emits (a b : ℕ) (cp : CoveragePoint) (r : Bytes × ℕ) : Type 0 where
    woven : W r.0 (slice stmt.body a r.1) (cp ∷ [])
    past : b ≤ r.1
    near : r.1 ≤ b + 1
    within : r.1 ≤ length stmt.body

  regroup :
      {t u : Bytes} {o p : Bytes} {cs : List CoveragePoint} → t ≡ u → o ≡ p → W t o cs → W u p cs
  regroup {cs = cs} e f w = subst₂ (λ x y. W x y cs) e f w

  emit_terminal-some :
      (a b pos : ℕ) (cp : CoveragePoint)
      → b ≤ length stmt.body
      → Emits a b cp (emit_terminal lx stmt file sql channel (slice stmt.body a b) b cp (some pos))
  unfolding emit_terminal
  emit_terminal-some a b pos cp h =
      let seg = slice stmt.body a b in
      let pad = indent_of (drop pos seg) in
      record {
        woven = regroup refl (take-append-drop pos seg) (
            Woven-append made (Woven-code made (take pos seg)) (
              Woven-append made
                (Woven-note made pad (codes "\n") cp (indent_of-IsSpacing (drop pos seg))
                  (refl, tt))
                (Woven-code made (drop pos seg))));
        past = omega arith;
        near = omega arith;
        within = h;
      }

  note_below :
      (a b : ℕ) (cp : CoveragePoint)
      → W (codes "\n" ++ (indent_of (slice stmt.body a b) ++ made cp)) [] (cp ∷ [])
  note_below a b cp =
      let pad = indent_of (slice stmt.body a b) in
      regroup (ap (λ t. codes "\n" ++ (pad ++ t)) (append-nil (made cp))) refl (
        Woven-note made (codes "\n" ++ pad) [] cp (refl, indent_of-IsSpacing (slice stmt.body a b))
          tt)

  semicolon_at :
      (a b : ℕ)
      → a ≤ b
      → b < length stmt.body
      → get_or stmt.body b 0 ≡ b';'
      → slice stmt.body a b ++ codes ";" ≡ slice stmt.body a (b + 1)
  semicolon_at a b h k e =
      ap (λ c. slice stmt.body a b ++ (c ∷ [])) (sym e)
      ∙ ap (λ t. slice stmt.body a b ++ t) (sym (slice_one stmt.body b 0 k))
      ∙ slice_join stmt.body a b (b + 1) h (omega arith)

  emit_terminal-none :
      (a b : ℕ) (cp : CoveragePoint)
      → a ≤ b
      → b ≤ length stmt.body
      → Emits a b cp (emit_terminal lx stmt file sql channel (slice stmt.body a b) b cp none)
  unfolding emit_terminal
  emit_terminal-none a b cp h k =
      elim (Bool-cases (ltb b (length stmt.body) && get_or stmt.body b 0 == b';')) [
        | inl e ↦ rw e (record {
          woven = regroup refl (semicolon_at a b h (ground arith) (ground arith)) (
              Woven-append made (Woven-code made (slice stmt.body a b))
                (Woven-append made (Woven-code made (codes ";")) (note_below a b cp)));
          past = omega arith;
          near = omega arith;
          within = ground arith;
        })
        | inr e ↦ rw e (record {
          woven =
              regroup refl (append-nil (slice stmt.body a b))
                (Woven-append made (Woven-code made (slice stmt.body a b)) (note_below a b cp));
          past = omega arith;
          near = omega arith;
          within = k;
        })
      ]

  pick :
      {a b : ℕ} {cp : CoveragePoint} {r s : Bytes × ℕ} (x : Bool)
      → Emits a b cp r
      → Emits a b cp s
      → Emits a b cp (if x then r else s)
  pick true u v = u
  pick false u v = v

  emit_terminal-Emits :
      (a b : ℕ) (cp : CoveragePoint) (o : Option ℕ)
      → a ≤ b
      → b ≤ length stmt.body
      → Emits a b cp (emit_terminal lx stmt file sql channel (slice stmt.body a b) b cp o)
  emit_terminal-Emits a b cp none h k = emit_terminal-none a b cp h k
  emit_terminal-Emits a b cp (some pos) h k = emit_terminal-some a b pos cp k

  emit_signal-Emits :
      (a b : ℕ) (cp : CoveragePoint)
      → a ≤ b
      → b ≤ length stmt.body
      → Emits a b cp (emit_signal lx stmt file sql channel a (slice stmt.body a b) b cp)
  unfolding emit_signal
  emit_signal-Emits a b cp h k =
      pick sql
        (record {
          woven =
              Woven-append made
                (Woven-note made [] (codes "\n" ++ indent_before stmt.body a) cp tt
                  (refl, indent_before-IsSpacing stmt.body a))
                (Woven-code made (slice stmt.body a b));
          past = omega arith;
          near = omega arith;
          within = k;
        })
        (emit_terminal-Emits a b cp (find_terminal_pos lx (slice stmt.body a b)) h k)

  -- What is written so far is the body up to `last_written`, which is at most `lo`.
  pub record Sound (lo : ℕ) (written : Bytes) (last : ℕ) (cps : List CoveragePoint) : Type 0 where
    pub woven : Woven made written (slice stmt.body 0 last) cps
    pub reached : last ≤ lo
    pub within : last ≤ length stmt.body

  abbrev pub SoundAt : ℕ → Scan → Type 0
  SoundAt lo st = Sound lo st.written st.last_written st.locations

  gap_lem : (a b : ℕ) → a ≤ b → (if ltb a b then slice stmt.body a b else []) ≡ slice stmt.body a b
  gap_lem a b h = elim (Bool-cases (ltb a b)) [
    | inl e ↦ rw e
    | inr e ↦ let same : a ≡ b = ground arith in rw (e, same, slice_empty stmt.body b)
  ]

  module _ (a b : ℕ) (st : Scan) where
    abbrev seg : Bytes
    seg = slice stmt.body a b

    abbrev emits : Bytes × ℕ
    emits = emit_signal lx stmt file sql channel a seg b (point lx stmt file sql channel a seg)

    -- The state after a segment that is executable.
    abbrev wrote : Scan
    wrote = record st {
      written =
          st.written
          ++ ((if ltb st.last_written a then slice stmt.body st.last_written a else []) ++ emits.0);
      last_written = emits.1;
      locations = st.locations ++ point lx stmt file sql channel a seg ∷ [];
    }

    wrote-Sound :
        Emits a b (point lx stmt file sql channel a seg) emits
        → a ≤ b
        → SoundAt a st
        → SoundAt (b + 1) wrote
    wrote-Sound e h s = record {
      woven =
          regroup
            (ap (λ g. st.written ++ (g ++ emits.0)) (sym (gap_lem st.last_written a s.reached)))
            (ap (λ t. slice stmt.body 0 st.last_written ++ t)
                (slice_join stmt.body st.last_written a emits.1 s.reached
                  (omega (arith, h, e.past)))
              ∙ slice_join stmt.body 0 st.last_written emits.1 (omega arith)
                  (omega (arith, h, e.past, s.reached)))
            (Woven-append made s.woven
              (Woven-append made (Woven-code made (slice stmt.body st.last_written a)) e.woven));
      reached = e.near;
      within = e.within;
    }

    emit_segment-not :
        is_executable_segment lx seg ≡ false → emit_segment lx stmt file sql channel a b st ≡ st
    unfolding emit_segment
    emit_segment-not e = rw e

    emit_segment-yes :
        is_executable_segment lx seg ≡ true → emit_segment lx stmt file sql channel a b st ≡ wrote
    unfolding emit_segment
    emit_segment-yes e = rw e

    pub emit_segment-Sound :
        a ≤ b
        → b ≤ length stmt.body
        → SoundAt a st
        → SoundAt (b + 1) (emit_segment lx stmt file sql channel a b st)
    emit_segment-Sound h k s = elim (Bool-cases (is_executable_segment lx seg)) [
      | inl e ↦
          rw (emit_segment-yes e)
            (wrote-Sound (emit_signal-Emits a b (point lx stmt file sql channel a seg) h k) h s)
      | inr e ↦
          rw (emit_segment-not e)
            (record { woven = s.woven; reached = omega (arith, s.reached); within = s.within })
    ]

-- ===== src/Instrument/Loop.antt =====
-- The loop of `instrumentBody` over the tokens, and the rebuilt statement.
use pgcov.Base.{
  ℕ, ◌+◌, ◌-◌, ◌≤◌, ◌<◌, Bool, true, false, not, Option, none, some, List, [], ◌∷◌, ◌++◌, ◌==◌, ltb,
  if◌then◌else◌, Bytes, length, take, drop, slice, ◌≡◌, refl, sym, ap, ◌∙◌, inl, inr, arith,
  append-nil, slice_join, slice_all, slice_rest, subst₂, Bool-cases, take-append-drop, bytes_eq,
  drop-drop,
}
use pgcov.Lexer.{Token, Lexer, Ordered, ScansInOrder}
use pgcov.Parser.{Statement}
use pgcov.Point.{CoveragePoint}
use pgcov.Instrument.Weave.{Woven, Woven-append, Woven-code}
use pgcov.Instrument.Preserve.{made, Sound, SoundAt, emit_segment-Sound}
use pgcov.Instrument.{
  Scan, emit_if, on_token, on_tokens, emit_trailing, start_scan, scan_body, rebuild,
  instrument_body,
}

-- The body stands in the statement at its offset.
pub record BodyInPlace (stmt : Statement) : Type 0 where
  pub starts : stmt.body_start ≤ length stmt.raw_sql
  pub in_place : slice stmt.raw_sql stmt.body_start (stmt.body_start + length stmt.body) ≡ stmt.body

module _ (lx : Lexer) (stmt : Statement) (file : Bytes) (sql : Bool) (channel : Bytes) where
  abbrev At : ℕ → Scan → Type 0
  At = SoundAt lx stmt file sql channel

  weaken :
      {lo hi : ℕ} {w : Bytes} {l : ℕ} {cs : List CoveragePoint}
      → lo ≤ hi
      → Sound lx stmt file sql channel lo w l cs
      → Sound lx stmt file sql channel hi w l cs
  weaken h s = record { woven = s.woven; reached = omega (arith, s.reached); within = s.within }

  -- A segment that was begun starts behind what is written, and before `lo`.
  abbrev SegOk : ℕ → Option ℕ → Bytes → ℕ → List CoveragePoint → Type 0
  SegOk lo none w l cs = Unit
  SegOk lo (some s) w l cs = Sound lx stmt file sql channel s w l cs × (s + 1 ≤ lo)

  abbrev Inv : ℕ → Scan → Type 0
  Inv lo st = At lo st × SegOk lo st.seg_start st.written st.last_written st.locations

  choose :
      {lo : ℕ} (x : Bool) (s t : Scan)
      → (x ≡ true → Inv lo s)
      → (x ≡ false → Inv lo t)
      → Inv lo (if x then s else t)
  choose true s t f g = f refl
  choose false s t f g = g refl

  module _ (w : Bytes) (l : ℕ) (cs : List CoveragePoint) where
    SegOk-weaken : (lo hi : ℕ) (o : Option ℕ) → lo ≤ hi → SegOk lo o w l cs → SegOk hi o w l cs
    SegOk-weaken lo hi none h s = tt
    SegOk-weaken lo hi (some a) h s = (s.0, omega (arith, s.1))

    begun :
        (lo p : ℕ) (b : Bool) (o : Option ℕ)
        → lo ≤ p
        → Sound lx stmt file sql channel lo w l cs
        → SegOk lo o w l cs
        → SegOk (p + 1) (if not b then some p else o) w l cs
    begun lo p true o h s g = SegOk-weaken lo (p + 1) o (omega arith) g
    begun lo p false o h s g = (weaken h s, omega arith)

  emit_if-At :
      (lo e : ℕ) (b : Bool) (o : Option ℕ) (st : Scan)
      → lo ≤ e
      → e < length stmt.body
      → At lo st
      → SegOk lo o st.written st.last_written st.locations
      → At (e + 1) (emit_if lx stmt file sql channel b o e st)
  emit_if-At lo e true (some a) st h k s g =
      emit_segment-Sound lx stmt file sql channel a e st (omega (arith, g.1)) (omega arith) g.0
  emit_if-At lo e true none st h k s g = weaken (omega arith) s
  emit_if-At lo e false o st h k s g = weaken (omega arith) s

  on_token-Inv :
      (lo : ℕ) (st : Scan) (t : Token)
      → lo ≤ t.pos
      → t.pos < length stmt.body
      → Inv lo st
      → Inv (t.pos + 1) (on_token lx stmt file sql channel st t)
  unfolding on_token
  on_token-Inv lo st t h k (s, g) =
      let up : lo ≤ t.pos + 1 = omega arith in
      choose (not st.past_begin) _ _
        (λ _. (weaken up s, SegOk-weaken _ _ _ lo (t.pos + 1) st.seg_start up g))
        (λ _.
          choose (t.ty == lx.comment) _ _
            (λ _. (weaken up s, SegOk-weaken _ _ _ lo (t.pos + 1) st.seg_start up g))
            (λ _.
              choose (t.ty == b';') _ _
                (λ _. (emit_if-At lo t.pos st.has_content st.seg_start st h k s g, tt))
                (λ _. (weaken up s, begun _ _ _ lo t.pos st.has_content st.seg_start h s g))))

  on_tokens-Inv :
      (ts : List Token) (lo : ℕ) (st : Scan)
      → Ordered lo (length stmt.body) ts
      → Inv lo st
      → (hi : ℕ) × Inv hi (on_tokens lx stmt file sql channel st ts)
  unfolding on_tokens
  on_tokens-Inv [] lo st o i = (lo, i)
  on_tokens-Inv (t ∷ ts) lo st o i =
      on_tokens-Inv ts (t.pos + 1) (on_token lx stmt file sql channel st t) o.2
        (on_token-Inv lo st t o.0 o.1 i)

  start-Inv : (skip : Bool) → Inv 0 (start_scan lx stmt file sql channel skip)
  start-Inv skip = (
    record {
      woven = Woven-code (made lx stmt file sql channel) [];
      reached = omega arith;
      within = omega arith;
    },
    tt,
  )

  emit_trailing-At :
      (hi : ℕ) (b : Bool) (o : Option ℕ) (st : Scan)
      → At hi st
      → SegOk hi o st.written st.last_written st.locations
      → (lo : ℕ) × At lo (emit_trailing lx stmt file sql channel b o st)
  emit_trailing-At hi true (some a) st s g = elim (Bool-cases (ltb a (length stmt.body))) [
    | inl e ↦ (
      length stmt.body + 1,
      rw e (
          emit_segment-Sound lx stmt file sql channel a (length stmt.body) st (ground arith)
            (omega arith) g.0),
    )
    | inr e ↦ (hi, rw e s)
  ]
  emit_trailing-At hi true none st s g = (hi, s)
  emit_trailing-At hi false o st s g = (hi, s)

  scan_body-At :
      (skip : Bool) → ScansInOrder lx → (lo : ℕ) × At lo (scan_body lx stmt file sql channel skip)
  unfolding scan_body
  scan_body-At skip ordered =
      let (hi, (s, g)) =
        on_tokens-Inv (lx.tokens stmt.body) 0 (start_scan lx stmt file sql channel skip)
          (ordered stmt.body) (start-Inv skip) in
      emit_trailing-At hi _ _
        (on_tokens lx stmt file sql channel (start_scan lx stmt file sql channel skip)
          (lx.tokens stmt.body))
        s g

  abbrev WovenInto : Bytes × List CoveragePoint → Type 0
  WovenInto r = Woven (made lx stmt file sql channel) r.0 stmt.raw_sql r.1

  rest_lem :
      (l : ℕ)
      → l ≤ length stmt.body
      → slice stmt.body 0 l ++ (if ltb l (length stmt.body) then drop l stmt.body else [])
        ≡ stmt.body
  rest_lem l h = elim (Bool-cases (ltb l (length stmt.body))) [
    | inl e ↦
        rw (e, ← slice_rest stmt.body l h)
          (slice_join stmt.body 0 l (length stmt.body) (omega arith) h ∙ slice_all stmt.body)
    | inr e ↦
        let same : l ≡ length stmt.body = ground arith in
        rw (e, append-nil, same) (slice_all stmt.body)
  ]

  -- The statement around the body.
  around :
      BodyInPlace stmt
      → take stmt.body_start stmt.raw_sql
          ++ (stmt.body ++ drop (stmt.body_start + length stmt.body) stmt.raw_sql)
        ≡ stmt.raw_sql
  around b =
      let a = stmt.body_start in
      let n : a + length stmt.body - a ≡ length stmt.body = omega arith in
      let body : take (length stmt.body) (drop a stmt.raw_sql) ≡ stmt.body =
        ap (λ i. take i (drop a stmt.raw_sql)) (sym n) ∙ b.in_place in
      let tail : drop (length stmt.body) (drop a stmt.raw_sql)
          ≡ drop (a + length stmt.body) stmt.raw_sql =
        drop-drop (length stmt.body) a stmt.raw_sql in
      ap (λ t. take a stmt.raw_sql ++ t)
        (ap (λ t. t ++ drop (a + length stmt.body) stmt.raw_sql) (sym body)
          ∙ ap (λ t. take (length stmt.body) (drop a stmt.raw_sql) ++ t) (sym tail)
          ∙ take-append-drop (length stmt.body) (drop a stmt.raw_sql))
      ∙ take-append-drop a stmt.raw_sql

  rebuild-WovenInto :
      (lo : ℕ) (st : Scan)
      → BodyInPlace stmt
      → At lo st
      → (cps : List CoveragePoint) → st.locations ≡ cps
      → WovenInto (rebuild lx stmt file sql channel st cps)
  unfolding rebuild
  rebuild-WovenInto lo st b s [] e = Woven-code (made lx stmt file sql channel) stmt.raw_sql
  rebuild-WovenInto lo st b s (p ∷ ps) e =
      let call = made lx stmt file sql channel in
      let a = stmt.body_start in
      let rest =
        if ltb st.last_written (length stmt.body) then drop st.last_written stmt.body else [] in
      let tail = drop (a + length stmt.body) stmt.raw_sql in
      let woven = Woven-append call (Woven-code call (take a stmt.raw_sql)) (
        Woven-append call (Woven-append call s.woven (Woven-code call rest))
          (Woven-code call tail)) in
      let source_is : take a stmt.raw_sql ++ ((slice stmt.body 0 st.last_written ++ rest) ++ tail)
          ≡ stmt.raw_sql =
        ap (λ t. take a stmt.raw_sql ++ (t ++ tail)) (rest_lem st.last_written s.within)
        ∙ around b in
      let points_are : ((st.locations ++ []) ++ []) ≡ p ∷ ps =
        append-nil (st.locations ++ []) ∙ append-nil st.locations ∙ e in
      subst₂ (λ o cs. Woven call (rebuild lx stmt file sql channel st (p ∷ ps)).0 o cs) source_is
        points_are woven

  -- The instrumented text of a statement is its own text with one signal call for each location, in
  -- order, and nothing else but spacing beside the calls; so its code is never changed, lost or
  -- doubled. The lexer reads from left to right, and the body stands in the statement.
  pub instrument_body-Woven :
      (skip : Bool)
      → ScansInOrder lx
      → BodyInPlace stmt
      → WovenInto (instrument_body lx stmt file sql channel skip)
  unfolding instrument_body
  instrument_body-Woven skip ordered b =
      let (lo, s) = scan_body-At skip ordered in
      let st = scan_body lx stmt file sql channel skip in
      choose_text (bytes_eq stmt.body []) (
        choose_text (ltb (length stmt.raw_sql) stmt.body_start)
          (rebuild-WovenInto lo st b s st.locations refl))
    where
      choose_text :
          {r : Bytes × List CoveragePoint} (x : Bool)
          → WovenInto r
          → WovenInto (if x then (stmt.raw_sql, []) else r)
      choose_text true w = Woven-code (made lx stmt file sql channel) stmt.raw_sql
      choose_text false w = w

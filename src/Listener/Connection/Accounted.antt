-- ===== src/Listener/Connection/Accounted.antt =====
-- What becomes of the notifications that reach a listener.
use pgcov.Base.{
  ◌≤◌, ◌<◌, ◌+◌, Bool, true, false, ◌||◌, List, [], ◌∷◌, ◌++◌, if◌then◌else◌, Bytes, bytes_eq,
  length, ltb, ◌≡◌, refl, sym, ap, ◌∙◌, arith, append_assoc, append-nil, length-append, Bool-cases,
  inl, inr, subst,
}
use pgcov.Listener.{Listener, Notification, handle_notification}
use pgcov.Listener.Connection.{
  LoopAction, LoopState, at_start, hear, fail, take_first_signal, take_first_error, loop_step,
  loop_steps,
}

-- The payloads on the channel that arrive before the loop returns.
abbrev pub heard : Bytes → Bool → List LoopAction → List Bytes
heard name ended [] = []
heard name true (a ∷ actions) = []
heard name false (LoopAction.arrived n ∷ actions) =
    if bytes_eq n.channel name
    then n.payload ∷ heard name false actions
    else heard name false actions
heard name false (LoopAction.wait_failed e context_done conn_closed ∷ actions) =
    heard name (context_done || conn_closed) actions
heard name false (LoopAction.take_signal ∷ actions) = heard name false actions
heard name false (LoopAction.take_error ∷ actions) = heard name false actions

-- The state accounts for these payloads.
pub record Accounted (name : Bytes) (payloads : List Bytes) (s : LoopState) : Type 0 where
  pub named : s.live.listener.channel ≡ name
  pub room : s.live.listener.capacity ≡ 1000
  pub signals_fit : length s.live.listener.buffer ≤ 1000
  pub errors_fit : length s.live.errors ≤ 10
  pub counted :
      length s.taken + length s.live.listener.buffer + s.live.listener.dropped_signals
      ≡ length payloads
  pub in_order : s.live.listener.dropped_signals ≡ 0 → s.taken ++ s.live.listener.buffer ≡ payloads
  pub closed : s.live.listener.is_closed ≡ s.has_ended

-- After the step the state accounts for the payloads that are heard from then on.
abbrev Continues : Bytes → List Bytes → LoopState → List LoopAction → Type 0
Continues name payloads s actions =
    (seen : List Bytes) × Accounted name seen s
    × (payloads ≡ seen ++ heard name s.has_ended actions)

heard_ended : (name : Bytes) (actions : List LoopAction) → heard name true actions ≡ []
heard_ended name [] = refl
heard_ended name (a ∷ actions) = refl

-- The listener of the state, changed.
abbrev with_listener : Listener → LoopState → LoopState
with_listener l s = record s { live = record s.live { listener = l } }

module _ (name : Bytes) where
  kept-Accounted :
      (signal : Bytes) (seen : List Bytes) (s : LoopState)
      → Accounted name seen s
      → length s.live.listener.buffer < 1000
      → Accounted name (seen ++ (signal ∷ [])) (
          with_listener
            (record s.live.listener { buffer = s.live.listener.buffer ++ (signal ∷ []) })
            s)
  kept-Accounted signal seen s h lt =
      let more = length-append s.live.listener.buffer (signal ∷ []) in
      record {
        named = h.named;
        room = h.room;
        signals_fit = omega (arith, more);
        errors_fit = h.errors_fit;
        counted = omega (arith, more, h.counted, length-append seen (signal ∷ []));
        in_order = λ z.
            sym (append_assoc s.taken s.live.listener.buffer (signal ∷ []))
            ∙ ap (λ r. r ++ (signal ∷ [])) (h.in_order z);
        closed = h.closed;
      }

  dropped-Accounted :
      (signal : Bytes) (seen : List Bytes) (s : LoopState)
      → Accounted name seen s
      → Accounted name (seen ++ (signal ∷ [])) (
          with_listener
            (record s.live.listener { dropped_signals = s.live.listener.dropped_signals + 1 })
            s)
  dropped-Accounted signal seen s h = record {
    named = h.named;
    room = h.room;
    signals_fit = h.signals_fit;
    errors_fit = h.errors_fit;
    counted = omega (arith, h.counted, length-append seen (signal ∷ []));
    in_order = λ z. absurd (omega (arith, z));
    closed = h.closed;
  }

  -- A notification on the channel.
  hear-Accounted :
      (n : Notification) (seen : List Bytes) (s : LoopState)
      → Accounted name seen s
      → bytes_eq n.channel s.live.listener.channel ≡ true
      → Accounted name (seen ++ (n.payload ∷ [])) (hear n false s)
  unfolding handle_notification
  hear-Accounted n seen s h e =
      elim (Bool-cases (ltb (length s.live.listener.buffer) s.live.listener.capacity)) [
        | inl fits ↦ rw (e, fits) (kept-Accounted n.payload seen s h (ground (arith, fits, h.room)))
        | inr full ↦ rw (e, full) (dropped-Accounted n.payload seen s h)
      ]

  -- The loop that has returned hears nothing.
  ended-Continues :
      (seen : List Bytes) (s : LoopState) (a : LoopAction) (actions : List LoopAction)
      → s.has_ended ≡ true
      → Accounted name seen s
      → Continues name (seen ++ heard name true (a ∷ actions)) s actions
  ended-Continues seen s a actions q h = (seen, h, rw (q, heard_ended name actions) refl)

  hear-Continues :
      (n : Notification) (seen : List Bytes) (s : LoopState) (actions : List LoopAction) (b : Bool)
      → s.has_ended ≡ b
      → Accounted name seen s
      → Continues name (seen ++ heard name b (LoopAction.arrived n ∷ actions)) (hear n b s) actions
  unfolding handle_notification
  hear-Continues n seen s actions true q h =
      ended-Continues seen s (LoopAction.arrived n) actions q h
  hear-Continues n seen s actions false q h =
      let same : (b : Bool)
          → bytes_eq n.channel name ≡ b
          → bytes_eq n.channel s.live.listener.channel ≡ b =
        λ b e. rw h.named e in
      elim (Bool-cases (bytes_eq n.channel name)) [
        | inl e ↦ (
          seen ++ (n.payload ∷ []),
          hear-Accounted n seen s h (same true e),
          rw (e, q) (sym (append_assoc seen (n.payload ∷ []) (heard name false actions))),
        )
        | inr e ↦ (seen, rw (same false e) h, rw (e, q) refl)
      ]

  fail-Continues :
      (e : Bytes) (stops : Bool) (seen : List Bytes) (s : LoopState) (actions : List LoopAction)
      → s.has_ended ≡ false
      → Accounted name seen s
      → Continues name (seen ++ heard name stops actions) (fail e stops false s) actions
  fail-Continues e true seen s actions q h = (
    seen,
    record {
      named = h.named;
      room = h.room;
      signals_fit = h.signals_fit;
      errors_fit = h.errors_fit;
      counted = h.counted;
      in_order = h.in_order;
      closed = refl;
    },
    refl,
  )
  fail-Continues e false seen s actions q h = elim (Bool-cases (ltb (length s.live.errors) 10)) [
    | inl fits ↦ (
      seen,
      record {
        named = rw fits h.named;
        room = rw fits h.room;
        signals_fit = rw fits h.signals_fit;
        errors_fit = rw fits (ground (arith, fits, length-append s.live.errors (e ∷ [])));
        counted = rw fits h.counted;
        in_order = rw fits h.in_order;
        closed = rw fits h.closed;
      },
      rw q refl,
    )
    | inr full ↦ (seen, rw full h, rw q refl)
  ]

  failed-Continues :
      (e : Bytes) (x y : Bool) (seen : List Bytes) (s : LoopState) (actions : List LoopAction)
      (b : Bool)
      → s.has_ended ≡ b
      → Accounted name seen s
      → Continues name
          (seen ++ heard name b (LoopAction.wait_failed e x y ∷ actions))
          (fail e (x || y) b s)
          actions
  failed-Continues e x y seen s actions true q h =
      ended-Continues seen s (LoopAction.wait_failed e x y) actions q h
  failed-Continues e x y seen s actions false q h = fail-Continues e (x || y) seen s actions q h

  -- A reader changes nothing of what is heard.
  heard_take_signal :
      (b : Bool) (actions : List LoopAction)
      → heard name b (LoopAction.take_signal ∷ actions) ≡ heard name b actions
  heard_take_signal true actions = sym (heard_ended name actions)
  heard_take_signal false actions = refl

  heard_take_error :
      (b : Bool) (actions : List LoopAction)
      → heard name b (LoopAction.take_error ∷ actions) ≡ heard name b actions
  heard_take_error true actions = sym (heard_ended name actions)
  heard_take_error false actions = refl

  take_first_signal-Continues :
      (buffer seen : List Bytes) (s : LoopState) (actions : List LoopAction)
      → s.live.listener.buffer ≡ buffer
      → Accounted name seen s
      → Continues name (seen ++ heard name s.has_ended actions) (take_first_signal buffer s) actions
  take_first_signal-Continues [] seen s actions q h = (seen, h, refl)
  take_first_signal-Continues (signal ∷ buffer) seen s actions q h = (
    seen,
    record {
      named = h.named;
      room = h.room;
      signals_fit = omega (arith, ap length q, h.signals_fit);
      errors_fit = h.errors_fit;
      counted = omega (arith, ap length q, h.counted, length-append s.taken (signal ∷ []));
      in_order = λ z.
          append_assoc s.taken (signal ∷ []) buffer ∙ ap (λ r. s.taken ++ r) (sym q) ∙ h.in_order z;
      closed = h.closed;
    },
    refl,
  )

  take_first_error-Continues :
      (errors seen : List Bytes) (s : LoopState) (actions : List LoopAction)
      → s.live.errors ≡ errors
      → Accounted name seen s
      → Continues name (seen ++ heard name s.has_ended actions) (take_first_error errors s) actions
  take_first_error-Continues [] seen s actions q h = (seen, h, refl)
  take_first_error-Continues (e ∷ errors) seen s actions q h = (
    seen,
    record {
      named = h.named;
      room = h.room;
      signals_fit = h.signals_fit;
      errors_fit = omega (arith, ap length q, h.errors_fit);
      counted = h.counted;
      in_order = h.in_order;
      closed = h.closed;
    },
    refl,
  )

  loop_step-Continues :
      (a : LoopAction) (seen : List Bytes) (s : LoopState) (actions : List LoopAction)
      → Accounted name seen s
      → Continues name (seen ++ heard name s.has_ended (a ∷ actions)) (loop_step a s) actions
  unfolding loop_step
  loop_step-Continues (LoopAction.arrived n) seen s actions h =
      hear-Continues n seen s actions s.has_ended refl h
  loop_step-Continues (LoopAction.wait_failed e x y) seen s actions h =
      failed-Continues e x y seen s actions s.has_ended refl h
  loop_step-Continues LoopAction.take_signal seen s actions h =
      rw (heard_take_signal s.has_ended actions)
        (take_first_signal-Continues s.live.listener.buffer seen s actions refl h)
  loop_step-Continues LoopAction.take_error seen s actions h =
      rw (heard_take_error s.has_ended actions)
        (take_first_error-Continues s.live.errors seen s actions refl h)

  loop_steps-from :
      (actions : List LoopAction) (seen : List Bytes) (s : LoopState)
      → Accounted name seen s
      → Accounted name (seen ++ heard name s.has_ended actions) (loop_steps actions s)
  unfolding loop_steps
  loop_steps-from [] seen s h = subst (λ l. Accounted name l s) (sym (append-nil seen)) h
  loop_steps-from (a ∷ actions) seen s h =
      let (seen', h', e) = loop_step-Continues a seen s actions h in
      subst (λ l. Accounted name l (loop_steps actions (loop_step a s))) (sym e)
        (loop_steps-from actions seen' (loop_step a s) h')

  -- From a new listener on, in whatever order notifications arrive, waits fail and the channels are
  -- read: at most 1000 signals and 10 errors are buffered; the signals taken, buffered and dropped
  -- are together as many as the notifications on the channel that arrive before the loop returns, and
  -- if none was dropped, those taken and then those buffered are their payloads in order; and the
  -- channels are closed just when the loop has returned.
  pub loop_steps-Accounted :
      (actions : List LoopAction)
      → Accounted name (heard name false actions) (loop_steps actions (at_start name))
  loop_steps-Accounted actions = loop_steps-from actions [] (at_start name) (record {
    named = refl;
    room = refl;
    signals_fit = omega arith;
    errors_fit = omega arith;
    counted = refl;
    in_order = λ z. refl;
    closed = refl;
  })

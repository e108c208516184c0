-- ===== src/Listener/Arrivals.antt =====
-- No signal is lost silently: what arrives is collected, in its order, or counted as dropped.
use pgcov.Base.{
  ◌+◌, ◌≤◌, Bool, true, false, none, List, [], ◌∷◌, ◌++◌, ltb, if◌then◌else◌, Bytes, bytes_eq,
  length, ◌≡◌, refl, sym, ap, ◌∙◌, arith, append_assoc, append-nil, inl, inr, ◌⊎◌,
}
use pgcov.Listener.{
  Notification, Listener, handle_notification, Event, Ending, Collection, drain, receive,
  collect_signals,
}

-- The payloads of the notifications on the channel.
abbrev pub payloads : Bytes → List Event → List Bytes
payloads channel [] = []
payloads channel (Event.notified n ∷ events) =
    (if bytes_eq n.channel channel then n.payload ∷ [] else []) ++ payloads channel events
payloads channel (_ ∷ events) = payloads channel events

-- The collection has seen a first part of the events. It drops no signal less than before, and where
-- it drops none, what it has and the buffer hold, in order, what was there and what has arrived.
abbrev pub Complete : List Bytes → Listener → List Event → Collection → Type 0
Complete signals l events (signals', l', ending, left) =
    (seen : List Event) × events ≡ seen ++ left
    × l.dropped_signals ≤ l'.dropped_signals
    × (l'.dropped_signals ≡ l.dropped_signals
        → signals' ++ l'.buffer ≡ (signals ++ l.buffer) ++ payloads l.channel seen)

-- What one notification does to the listener; `own` says whether it is on its channel.
abbrev Arrived : Listener → Bytes → Bool → Listener → Type 0
Arrived l payload own l' =
    l'.channel ≡ l.channel
    × l.dropped_signals ≤ l'.dropped_signals
    × (l'.dropped_signals ≡ l.dropped_signals
        → l'.buffer ≡ l.buffer ++ (if own then payload ∷ [] else []))

Arrived-by :
    (own room : Bool) (l : Listener) (payload : Bytes)
    → Arrived l payload own (
        if own
        then (if room
            then record l { buffer = l.buffer ++ (payload ∷ []) }
            else record l { dropped_signals = l.dropped_signals + 1 })
        else l)
Arrived-by true true l payload = (refl, omega arith, λ _. refl)
Arrived-by true false l payload = (refl, omega arith, λ h. absurd (omega (arith, h)))
Arrived-by false room l payload = (refl, omega arith, λ _. sym (append-nil l.buffer))

handle-Arrived :
    (l : Listener) (n : Notification)
    → Arrived l n.payload (bytes_eq n.channel l.channel) (handle_notification l n)
unfolding handle_notification
handle-Arrived l n =
    Arrived-by (bytes_eq n.channel l.channel) (ltb (length l.buffer) l.capacity) l n.payload

payloads-cons :
    (channel : Bytes) (e : Event) (events : List Event)
    → payloads channel (e ∷ events) ≡ payloads channel (e ∷ []) ++ payloads channel events
payloads-cons channel (Event.notified n) events =
    ap (λ x. x ++ payloads channel events)
      (sym (append-nil (if bytes_eq n.channel channel then n.payload ∷ [] else [])))
payloads-cons channel Event.channel_closed events = refl
payloads-cons channel Event.signal_ready events = refl
payloads-cons channel Event.error_ready events = refl
payloads-cons channel Event.errors_closed events = refl
payloads-cons channel Event.timer_fired events = refl
payloads-cons channel Event.context_done events = refl

-- One event, after which the collection goes on.
moved :
    (signals : List Bytes) (l l' : Listener) (e : Event) (events : List Event) (c : Collection)
    → l'.channel ≡ l.channel
    → l.dropped_signals ≤ l'.dropped_signals
    → (signals' : List Bytes)
    → (l'.dropped_signals ≡ l.dropped_signals
        → signals' ++ l'.buffer ≡ (signals ++ l.buffer) ++ payloads l.channel (e ∷ []))
    → Complete signals' l' events c
    → Complete signals l (e ∷ events) c
moved signals l l' e events (signals2, l2, ending, left) h d signals' k (seen, p, d', f) = (
  e ∷ seen,
  ap (◌∷◌ e) p,
  omega (arith, d, d'),
  λ q.
      let a = signals ++ l.buffer in
      let b = payloads l.channel (e ∷ []) in
      f (omega (arith, q, d, d'))
      ∙ ap (λ x. x ++ payloads l'.channel seen) (k (omega (arith, q, d, d')))
      ∙ ap (λ ch. (a ++ b) ++ payloads ch seen) h
      ∙ append_assoc a b (payloads l.channel seen)
      ∙ ap (λ x. a ++ x) (sym (payloads-cons l.channel e seen)),
)

-- An event that ends the collection, or that leaves the signals and the buffer alone.
ended :
    (signals : List Bytes) (l : Listener) (e : Event) (events : List Event) (ending : Ending)
    → payloads l.channel (e ∷ []) ≡ []
    → Complete signals l (e ∷ events) (drain ending signals l events)
ended signals l e events ending h = (
  e ∷ [],
  refl,
  omega arith,
  λ _.
      append-nil (signals ++ l.buffer)
      ∙ sym (append-nil (signals ++ l.buffer))
      ∙ ap (λ x. (signals ++ l.buffer) ++ x) (sym h),
)

received :
    (buffer : List Bytes) (closed : Bool) (signals : List Bytes) (l : Listener)
    (events : List Event) (next : List Bytes → Listener → Collection)
    → l.buffer ≡ buffer
    → ((signals' : List Bytes) (l' : Listener) → Complete signals' l' events (next signals' l'))
    → Complete signals l (Event.signal_ready ∷ events) (receive buffer closed signals l events next)
received (signal ∷ buffer) closed signals l events next h k =
    let l' = record l { buffer = buffer } in
    moved signals l l' Event.signal_ready events (next (signals ++ (signal ∷ [])) l') refl
      (omega arith) (signals ++ (signal ∷ []))
      (λ _.
        append_assoc signals (signal ∷ []) buffer
        ∙ ap (λ x. signals ++ x) (sym h)
        ∙ sym (append-nil (signals ++ l.buffer)))
      (k (signals ++ (signal ∷ [])) l')
received [] true signals l events next h k =
    (Event.signal_ready ∷ [], refl, omega arith, λ _. sym (append-nil (signals ++ l.buffer)))
received [] false signals l events next h k =
    moved signals l l Event.signal_ready events (next signals l) refl (omega arith) signals
      (λ _. sym (append-nil (signals ++ l.buffer))) (k signals l)

idle :
    (signals : List Bytes) (l : Listener) (e : Event) (events : List Event) (c : Collection)
    → payloads l.channel (e ∷ []) ≡ []
    → Complete signals l events c
    → Complete signals l (e ∷ events) c
idle signals l e events c h =
    moved signals l l e events c refl (omega arith) signals
      (λ _. sym (append-nil (signals ++ l.buffer)) ∙ ap (λ x. (signals ++ l.buffer) ++ x) (sym h))

-- For any sequence of events: the collection has gone through a first part of them, the count of
-- dropped signals has not shrunk, and where it has not grown, the signals collected and those still
-- in the buffer are, in order, what was there before and the payloads that have arrived on the channel.
pub collect_signals-Complete :
    (signals : List Bytes) (l : Listener) (events : List Event)
    → Complete signals l events (collect_signals signals l events)
unfolding collect_signals
collect_signals-Complete signals l [] =
    ([], refl, omega arith, λ _. sym (append-nil (signals ++ l.buffer)))
collect_signals-Complete signals l (Event.notified n ∷ events) =
    let l' = handle_notification l n in
    let (a, b, c) = handle-Arrived l n in
    let own = if bytes_eq n.channel l.channel then n.payload ∷ [] else [] in
    moved signals l l' (Event.notified n) events (collect_signals signals l' events) a b signals
      (λ q.
        ap (λ x. signals ++ x) (c q)
        ∙ sym (append_assoc signals l.buffer own)
        ∙ ap (λ x. (signals ++ l.buffer) ++ x) (sym (append-nil own)))
      (collect_signals-Complete signals l' events)
collect_signals-Complete signals l (Event.channel_closed ∷ events) =
    let l' = record l { is_closed = true } in
    moved signals l l' Event.channel_closed events (collect_signals signals l' events) refl
      (omega arith) signals (λ _. sym (append-nil (signals ++ l.buffer)))
      (collect_signals-Complete signals l' events)
collect_signals-Complete signals l (Event.signal_ready ∷ events) =
    received l.buffer l.is_closed signals l events
      (λ signals' l'. collect_signals signals' l' events) refl
      (λ signals' l'. collect_signals-Complete signals' l' events)
collect_signals-Complete signals l (Event.error_ready ∷ events) =
    idle signals l Event.error_ready events (collect_signals signals l events) refl
      (collect_signals-Complete signals l events)
collect_signals-Complete signals l (Event.errors_closed ∷ events) =
    idle signals l Event.errors_closed events (collect_signals signals l events) refl
      (collect_signals-Complete signals l events)
collect_signals-Complete signals l (Event.timer_fired ∷ events) =
    ended signals l Event.timer_fired events Ending.ended_nil refl
collect_signals-Complete signals l (Event.context_done ∷ events) =
    ended signals l Event.context_done events Ending.ended_context refl

-- It is still waiting, or nothing is left in the buffer.
abbrev pub Drained : Collection → Type 0
Drained (signals, l, ending, left) = (ending ≡ none) ⊎ (l.buffer ≡ [])

received-Drained :
    (buffer : List Bytes) (closed : Bool) (signals : List Bytes) (l : Listener)
    (events : List Event) (next : List Bytes → Listener → Collection)
    → l.buffer ≡ buffer
    → ((signals' : List Bytes) (l' : Listener) → Drained (next signals' l'))
    → Drained (receive buffer closed signals l events next)
received-Drained (signal ∷ buffer) closed signals l events next h k =
    k (signals ++ (signal ∷ [])) (record l { buffer = buffer })
received-Drained [] true signals l events next h k = inr h
received-Drained [] false signals l events next h k = k signals l

-- When a collection ends, by the timer, the context or the end of the channel, nothing is left in the
-- buffer.
collect_signals-Drained :
    (signals : List Bytes) (l : Listener) (events : List Event)
    → Drained (collect_signals signals l events)
unfolding collect_signals
collect_signals-Drained signals l [] = inl refl
collect_signals-Drained signals l (Event.notified n ∷ events) =
    collect_signals-Drained signals (handle_notification l n) events
collect_signals-Drained signals l (Event.channel_closed ∷ events) =
    collect_signals-Drained signals (record l { is_closed = true }) events
collect_signals-Drained signals l (Event.signal_ready ∷ events) =
    received-Drained l.buffer l.is_closed signals l events
      (λ signals' l'. collect_signals signals' l' events) refl
      (λ signals' l'. collect_signals-Drained signals' l' events)
collect_signals-Drained signals l (Event.error_ready ∷ events) =
    collect_signals-Drained signals l events
collect_signals-Drained signals l (Event.errors_closed ∷ events) =
    collect_signals-Drained signals l events
collect_signals-Drained signals l (Event.timer_fired ∷ events) = inr refl
collect_signals-Drained signals l (Event.context_done ∷ events) = inr refl

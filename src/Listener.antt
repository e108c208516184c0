-- ===== src/Listener.antt =====
-- The listener of internal/database/listener.go: the buffered channel of signals, which the
-- notification callback fills, and `CollectSignals`, which empties it. What the two goroutines, the
-- timer and the context do is a sequence of events.
pub mod Arrivals
pub mod Connection
use pgcov.Base.{
  ℕ, zero, suc, ◌+◌, Bool, true, false, Option, none, some, List, [], ◌∷◌, ◌++◌, ltb, if◌then◌else◌,
  Bytes, bytes_eq, length,
}

pub record Notification : Type 0 where
  pub channel : Bytes
  pub payload : Bytes

-- `buffer` holds what is in the channel `signals`, whose room is `capacity`.
pub record Listener : Type 0 where
  pub channel : Bytes
  pub capacity : ℕ
  pub buffer : List Bytes
  pub is_closed : Bool
  pub dropped_signals : ℕ

-- A full buffer drops the signal and counts it. The callback runs inside the receive loop, so none
-- arrives once the loop has closed the channel.
unfoldable pub handle_notification : Listener → Notification → Listener
unfolding bytes_eq
handle_notification l n =
    if bytes_eq n.channel l.channel
    then (if ltb (length l.buffer) l.capacity
        then record l { buffer = l.buffer ++ (n.payload ∷ []) }
        else record l { dropped_signals = l.dropped_signals + 1 })
    else l

-- A notification arrives; the receive loop closes the channels; or the `select` of `CollectSignals`
-- takes one of its cases: a signal, an error, the end of the errors, the timer, the context.
pub data Event : Type 0 where
  notified : Notification → Event
  channel_closed : Event
  signal_ready error_ready errors_closed timer_fired context_done : Event

-- How the collection ends: with no error, or with that of the context.
pub data Ending : Type 0 where
  ended_nil ended_context : Ending

-- The signals so far, the listener, how it has ended if it has, and the events that are left.
abbrev pub Collection : Type 0
Collection = List Bytes × Listener × Option Ending × List Event

-- `drain`: everything in the buffer is taken.
abbrev drain : Ending → List Bytes → Listener → List Event → Collection
drain ending signals l events = (signals ++ l.buffer, record l { buffer = [] }, some ending, events)

-- A receive from `signals`: the first one in the buffer; the end, on an empty and closed channel; an
-- empty and open channel is not ready, and the `select` waits.
abbrev receive :
    List Bytes
    → Bool
    → List Bytes
    → Listener
    → List Event
    → (List Bytes → Listener → Collection)
    → Collection
receive (signal ∷ buffer) closed signals l events next =
    next (signals ++ (signal ∷ [])) (record l { buffer = buffer })
receive [] true signals l events next = (signals, l, some Ending.ended_nil, events)
receive [] false signals l events next = next signals l

unfoldable pub collect_signals : List Bytes → Listener → List Event → Collection
unfolding handle_notification
collect_signals signals l [] = (signals, l, none, [])
collect_signals signals l (Event.notified n ∷ events) =
    collect_signals signals (handle_notification l n) events
collect_signals signals l (Event.channel_closed ∷ events) =
    collect_signals signals (record l { is_closed = true }) events
collect_signals signals l (Event.signal_ready ∷ events) =
    receive l.buffer l.is_closed signals l events
      (λ signals' l'. collect_signals signals' l' events)
collect_signals signals l (Event.error_ready ∷ events) = collect_signals signals l events
collect_signals signals l (Event.errors_closed ∷ events) = collect_signals signals l events
collect_signals signals l (Event.timer_fired ∷ events) = drain Ending.ended_nil signals l events
collect_signals signals l (Event.context_done ∷ events) =
    drain Ending.ended_context signals l events

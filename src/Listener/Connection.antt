-- ===== src/Listener/Connection.antt =====
-- `NewListener`, `receiveLoop` and `Close` of internal/database/listener.go. The package pgx is a
-- parameter; what the loop and the readers of the channels do is a sequence of actions.
pub mod Accounted
use pgcov.Base.{
  Bool, true, false, ◌||◌, Option, none, some, List, [], ◌∷◌, ◌++◌, ltb, if◌then◌else◌, Bytes,
  codes, length, Result, ok, err,
}
use pgcov.Listener.{Listener, Notification, handle_notification}

-- `connect` is `ConnectConfig`, with the configuration of the pool and the callback.
pub record Pgx (N W : Type 0) : Type 0 where
  pub connect : W → Result Bytes N × W
  pub exec : N → Bytes → W → Option Bytes × W
  pub close : N → W → Option Bytes × W
  pub is_closed : N → W → Bool

-- The listener with its second channel, of which `errors` is the buffer.
pub record Live : Type 0 where
  pub listener : Listener
  pub errors : List Bytes

pub data ListenError : Type 0 where
  cannot_connect cannot_listen : Bytes → ListenError

abbrev pub fresh : Bytes → Live
fresh name = record {
  listener = record {
    channel = name;
    capacity = 1000;
    buffer = [];
    is_closed = false;
    dropped_signals = 0;
  };
  errors = [];
}

module _ {N W : Type 0} (pgx : Pgx N W) where
  abbrev pub listening : Bytes → N → Option Bytes × W → Result ListenError (N × Live) × W
  listening name conn (some e, w) = (err (ListenError.cannot_listen e), (pgx.close conn w).1)
  listening name conn (none, w) = (ok (conn, fresh name), w)

  abbrev pub with_conn : Bytes → Result Bytes N × W → Result ListenError (N × Live) × W
  with_conn name (err e, w) = (err (ListenError.cannot_connect e), w)
  with_conn name (ok conn, w) = listening name conn (pgx.exec conn (codes "LISTEN " ++ name) w)

  unfoldable pub new_listener : Bytes → W → Result ListenError (N × Live) × W
  new_listener name w = with_conn name (pgx.connect w)

  -- `Close`, behind the call that cancels the context of the loop. The error of UNLISTEN is dropped.
  unfoldable pub close_listener : N → Bytes → W → Option Bytes × W
  close_listener conn name w =
      if pgx.is_closed conn w
      then (none, w)
      else pgx.close conn (pgx.exec conn (codes "UNLISTEN " ++ name) w).1

-- The loop waits: a notification arrives, or the wait fails, with whether the context is done and
-- whether the connection is closed. Or a reader takes from a channel.
pub data LoopAction : Type 0 where
  arrived : Notification → LoopAction
  wait_failed : Bytes → Bool → Bool → LoopAction
  take_signal take_error : LoopAction

-- The signals that were taken, the channels, and whether the loop has returned.
pub record LoopState : Type 0 where
  pub taken : List Bytes
  pub live : Live
  pub has_ended : Bool

abbrev pub at_start : Bytes → LoopState
at_start name = record { taken = []; live = fresh name; has_ended = false }

-- An error that finds the buffer full is dropped.
abbrev pub add_error : Bytes → Live → Live
add_error e live =
    if ltb (length live.errors) 10 then record live { errors = live.errors ++ (e ∷ []) } else live

-- The deferred calls close both channels.
abbrev pub close_channels : Live → Live
close_channels live = record live { listener = record live.listener { is_closed = true } }

abbrev pub on_failure : Bytes → Bool → LoopState → LoopState
on_failure e true s = record s { live = close_channels s.live; has_ended = true }
on_failure e false s = record s { live = add_error e s.live }

-- What the loop does, unless it has returned.
abbrev pub hear : Notification → Bool → LoopState → LoopState
hear n true s = s
hear n false s = record s {
  live = record s.live { listener = handle_notification s.live.listener n };
}

abbrev pub fail : Bytes → Bool → Bool → LoopState → LoopState
fail e stops true s = s
fail e stops false s = on_failure e stops s

abbrev pub take_first_signal : List Bytes → LoopState → LoopState
take_first_signal [] s = s
take_first_signal (signal ∷ buffer) s = record s {
  taken = s.taken ++ (signal ∷ []);
  live = record s.live { listener = record s.live.listener { buffer = buffer } };
}

abbrev pub take_first_error : List Bytes → LoopState → LoopState
take_first_error [] s = s
take_first_error (e ∷ errors) s = record s { live = record s.live { errors = errors } }

unfoldable pub loop_step : LoopAction → LoopState → LoopState
unfolding handle_notification
loop_step (LoopAction.arrived n) s = hear n s.has_ended s
loop_step (LoopAction.wait_failed e context_done conn_closed) s =
    fail e (context_done || conn_closed) s.has_ended s
loop_step LoopAction.take_signal s = take_first_signal s.live.listener.buffer s
loop_step LoopAction.take_error s = take_first_error s.live.errors s

unfoldable pub loop_steps : List LoopAction → LoopState → LoopState
unfolding loop_step
loop_steps [] s = s
loop_steps (a ∷ actions) s = loop_steps actions (loop_step a s)

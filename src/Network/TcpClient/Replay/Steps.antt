-- ===== src/Network/TcpClient/Replay/Steps.antt =====
-- Each action keeps the invariant.
use ctp_system.Prelude.{◌≡◌, refl, false, List, [], ◌∷◌, ◌++◌, inl, inr, arith, subst, sym, ◌∙◌}
use mathlib.Core.List.{append-nil, append_assoc}
use ctp_system.Network.Mode.{ConnectionMode, active, reconnect, disconnect, closed, is_active}
use ctp_system.Network.Frame.{Bytes}
use ctp_system.Network.TcpClient.{
  Stream, WriterCommand, update, send, WriteTask, receiving, writing, ended, Controller, selecting,
  connecting, swapping, finished, Event, awaits_ack, signal_reconnect, receive,
}
use ctp_system.Network.TcpClient.Replay.{
  Frames, on, stream_of, replayed, since, in_flight, queued, IsInitial, IsKept, IsFlowing,
  IsRunning, IsLast, IsSwapping, IsSound,
}

module _ (later : List Bytes) where
  IsFlowing-IsInitial :
      (task : WriteTask) (queue : List WriterCommand) (log : List Event)
      → IsFlowing later task queue log
      → IsInitial later task log
  unfolding IsFlowing
  IsFlowing-IsInitial (receiving stream) queue log (p, e) = (_, e)
  IsFlowing-IsInitial (writing stream payload) queue log (p, e) = (_, e)
  IsFlowing-IsInitial ended queue log h = h

  pub IsRunning-IsInitial :
      (mode : ConnectionMode) (task : WriteTask) (queue : List WriterCommand) (log : List Event)
      → IsRunning later mode task queue log
      → IsInitial later task log
  unfolding IsRunning
  IsRunning-IsInitial active task queue log h = IsFlowing-IsInitial task queue log h
  IsRunning-IsInitial reconnect task queue log h = h
  IsRunning-IsInitial disconnect task queue log h = h
  IsRunning-IsInitial closed task queue log h = h

  pub IsSound-IsInitial :
      (controller : Controller) (mode : ConnectionMode) (task : WriteTask)
      (queue : List WriterCommand) (log : List Event)
      → IsSound later controller mode task queue log
      → IsInitial later task log
  unfolding IsSound
  IsSound-IsInitial selecting mode task queue log h = IsRunning-IsInitial mode task queue log h.1
  IsSound-IsInitial (connecting delay) mode task queue log h = h.2
  IsSound-IsInitial (swapping stream) mode task queue log h = h.2
  IsSound-IsInitial finished mode task queue log h = h.1

  -- Outside the active mode only the initial part counts.
  pub inactive :
      (mode : ConnectionMode) (task : WriteTask) (queue : List WriterCommand) (log : List Event)
      → is_active mode ≡ false
      → IsInitial later task log
      → IsRunning later mode task queue log
  unfolding IsRunning is_active
  inactive active task queue log p h = absurd (ground (arith, p))
  inactive reconnect task queue log p h = h
  inactive disconnect task queue log p h = h
  inactive closed task queue log p h = h

  -- A mode that is not active in place of any other.
  pub demote :
      (controller : Controller) (mode mode' : ConnectionMode) (task : WriteTask)
      (queue : List WriterCommand) (log : List Event)
      → is_active mode' ≡ false
      → IsSound later controller mode task queue log
      → IsSound later controller mode' task queue log
  unfolding IsSound
  demote selecting mode mode' task queue log p (h, k) =
      (h, inactive mode' task queue log p (IsRunning-IsInitial mode task queue log k))
  demote (connecting delay) mode mode' task queue log p (h, q, k) = (h, p, k)
  demote (swapping stream) mode mode' task queue log p (h, q, k) = (h, p, k)
  demote finished mode mode' task queue log p (q, k) = (p, k)

  pub signal_reconnect-IsSound :
      (controller : Controller) (mode : ConnectionMode) (task : WriteTask)
      (queue : List WriterCommand) (log : List Event)
      → IsSound later controller mode task queue log
      → IsSound later controller (signal_reconnect mode) task queue log
  unfolding signal_reconnect is_active
  signal_reconnect-IsSound controller active task queue log h =
      demote controller active reconnect task queue log refl h
  signal_reconnect-IsSound controller reconnect task queue log h = h
  signal_reconnect-IsSound controller disconnect task queue log h = h
  signal_reconnect-IsSound controller closed task queue log h = h

  -- The writer takes the front of the channel.
  move_in_flight :
      (sent : Frames) (stream : Stream) (payload : Bytes) (more : Frames)
      → (sent ++ (stream, payload) ∷ []) ++ more ≡ (sent ++ []) ++ (stream, payload) ∷ more
  move_in_flight sent stream payload more = rw (append_assoc, append-nil) refl

  IsKept-send :
      (stream : Stream) (payload : Bytes) (queue : List WriterCommand) (log : List Event)
      → stream ≡ stream_of log
      → IsKept later (receiving stream) (send payload ∷ queue) log
      → IsKept later (writing stream payload) queue log
  unfolding in_flight on queued
  IsKept-send stream payload queue log p e =
      subst
        (λ s.
          (since log ++ (s, payload) ∷ []) ++ on (stream_of log) (queued queue)
          ≡ on (stream_of log) (replayed log ++ later))
        (sym p)
        (move_in_flight (since log) (stream_of log) payload (on (stream_of log) (queued queue)) ∙ e)

  IsLast-update :
      (stream writer : Stream) (queue : List WriterCommand)
      → IsLast stream (update writer ∷ queue)
      → (queue ≡ []) × (writer ≡ stream)
  unfolding awaits_ack
  IsLast-update stream writer queue ([], p, e) = (ground (arith, e), ground (arith, e))
  IsLast-update stream writer queue (update old ∷ front, p, e) = absurd (ground (arith, p))
  IsLast-update stream writer queue (send payload ∷ front, p, e) = absurd (ground (arith, e))

  IsLast-send :
      (stream : Stream) (payload : Bytes) (queue : List WriterCommand)
      → IsLast stream (send payload ∷ queue)
      → IsLast stream queue
  unfolding awaits_ack
  IsLast-send stream payload queue ([], p, e) = absurd (ground (arith, e))
  IsLast-send stream payload queue (update old ∷ front, p, e) = absurd (ground (arith, p))
  IsLast-send stream payload queue (send other ∷ front, p, e) = (front, p, ground (arith, e))

  IsSwapping-update :
      (stream old writer : Stream) (queue : List WriterCommand)
      → IsSwapping stream (receiving old) (update writer ∷ queue)
      → IsSwapping stream (receiving writer) queue
  unfolding IsSwapping
  IsSwapping-update stream old writer queue (inl h) = inr (IsLast-update stream writer queue h)
  IsSwapping-update stream old writer queue (inr (e, p)) = absurd (ground (arith, e))

  IsSwapping-send :
      (stream old : Stream) (payload : Bytes) (queue : List WriterCommand)
      → IsSwapping stream (receiving old) (send payload ∷ queue)
      → IsSwapping stream (receiving old) queue
  unfolding IsSwapping
  IsSwapping-send stream old payload queue (inl h) = inl (IsLast-send stream payload queue h)
  IsSwapping-send stream old payload queue (inr (e, p)) = absurd (ground (arith, e))

  -- A command that is dropped, since the connection is not active.
  drop_send :
      (controller : Controller) (mode : ConnectionMode) (stream : Stream) (payload : Bytes)
      (queue : List WriterCommand) (log : List Event)
      → is_active mode ≡ false
      → IsSound later controller mode (receiving stream) (send payload ∷ queue) log
      → IsSound later controller mode (receiving stream) queue log
  unfolding IsSound awaits_ack
  drop_send selecting mode stream payload queue log p (h, k) =
      (h, inactive mode (receiving stream) queue log p (IsRunning-IsInitial mode _ _ log k))
  drop_send (connecting delay) mode stream payload queue log p h = h
  drop_send (swapping new) mode stream payload queue log p (h, q, k) =
      (IsSwapping-send new stream payload queue h, q, k)
  drop_send finished mode stream payload queue log p h = h

  pub receive-IsSound :
      (controller : Controller) (mode : ConnectionMode) (task : WriteTask)
      (queue : List WriterCommand) (log : List Event)
      → IsSound later controller mode task queue log
      → IsSound later controller mode (receive mode task queue).0 (receive mode task queue).1 log
  unfolding IsSound IsRunning IsFlowing receive awaits_ack is_active in_flight
  receive-IsSound controller mode (receiving stream) [] log h = h
  receive-IsSound controller mode (writing stream payload) queue log h = h
  receive-IsSound controller mode ended queue log h = h
  receive-IsSound selecting mode (receiving stream) (update writer ∷ queue) log (h, k) =
      absurd (ground (arith, h))
  receive-IsSound (connecting delay) mode (receiving stream) (update writer ∷ queue) log (h, q, k) =
      absurd (ground (arith, h))
  receive-IsSound (swapping new) mode (receiving stream) (update writer ∷ queue) log (h, q, k) =
      (IsSwapping-update new stream writer queue h, q, k)
  receive-IsSound finished mode (receiving stream) (update writer ∷ queue) log h = h
  receive-IsSound selecting active (receiving stream) (send payload ∷ queue) log (h, (p, k)) =
      (h, (p, IsKept-send stream payload queue log p k))
  receive-IsSound (connecting delay) active (receiving stream) (send payload ∷ queue) log
        (h, p, k) =
      absurd (ground (arith, p))
  receive-IsSound (swapping new) active (receiving stream) (send payload ∷ queue) log (h, p, k) =
      absurd (ground (arith, p))
  receive-IsSound finished active (receiving stream) (send payload ∷ queue) log (p, k) =
      absurd (ground (arith, p))
  receive-IsSound controller reconnect (receiving stream) (send payload ∷ queue) log h =
      drop_send controller reconnect stream payload queue log refl h
  receive-IsSound controller disconnect (receiving stream) (send payload ∷ queue) log h =
      drop_send controller disconnect stream payload queue log refl h
  receive-IsSound controller closed (receiving stream) (send payload ∷ queue) log h =
      drop_send controller closed stream payload queue log refl h

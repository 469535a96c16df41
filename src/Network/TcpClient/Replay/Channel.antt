-- ===== src/Network/TcpClient/Replay/Channel.antt =====
-- The invariant over what is written, what is put into the channel, and a new connection.
use ctp_system.Prelude.{◌≡◌, refl, Bool, true, false, List, [], ◌∷◌, ◌++◌, inl}
use mathlib.Core.List.{append-nil, append_assoc}
use ctp_system.Network.Mode.{ConnectionMode, active, reconnect, disconnect, closed}
use ctp_system.Network.Frame.{Bytes}
use ctp_system.Network.TcpClient.{
  Stream, WriterCommand, WriteTask, receiving, writing, ended, Controller, selecting, connecting,
  swapping, finished, Event, wrote, TcpClient, awaits_ack, frame_written,
}
use ctp_system.Network.TcpClient.Replay.{
  Frames, stream_of, replayed, since, in_flight, IsInitial, IsFlowing, IsRunning, IsSwapping,
  IsSound, Sound,
}
use ctp_system.Network.TcpClient.Replay.Steps.{IsRunning-IsInitial}

module _ (later : List Bytes) where
  -- A frame written: it is no longer in flight, but among those written.
  written :
      (sent more all : Frames) (stream : Stream) (payload : Bytes)
      → (sent ++ (stream, payload) ∷ []) ++ more ≡ all
      → ((sent ++ (stream, payload) ∷ []) ++ []) ++ more ≡ all
  written sent more all stream payload e = rw append-nil e

  IsInitial-wrote :
      (stream : Stream) (payload : Bytes) (log : List Event)
      → IsInitial later (writing stream payload) log
      → IsInitial later (receiving stream) (wrote stream payload ∷ log)
  unfolding since stream_of replayed in_flight
  IsInitial-wrote stream payload log (rest, e) = (rest, written (since log) rest _ stream payload e)

  IsRunning-wrote :
      (mode : ConnectionMode) (stream : Stream) (payload : Bytes) (queue : List WriterCommand)
      (log : List Event)
      → IsRunning later mode (writing stream payload) queue log
      → IsRunning later mode (receiving stream) queue (wrote stream payload ∷ log)
  unfolding IsRunning IsFlowing since stream_of replayed in_flight
  IsRunning-wrote active stream payload queue log (p, e) =
      (p, written (since log) _ _ stream payload e)
  IsRunning-wrote reconnect stream payload queue log h = IsInitial-wrote stream payload log h
  IsRunning-wrote disconnect stream payload queue log h = IsInitial-wrote stream payload log h
  IsRunning-wrote closed stream payload queue log h = IsInitial-wrote stream payload log h

  wrote-IsSound :
      (controller : Controller) (mode : ConnectionMode) (stream : Stream) (payload : Bytes)
      (queue : List WriterCommand) (log : List Event)
      → IsSound later controller mode (writing stream payload) queue log
      → IsSound later controller mode (receiving stream) queue (wrote stream payload ∷ log)
  unfolding IsSound IsSwapping
  wrote-IsSound selecting mode stream payload queue log (h, k) =
      (h, IsRunning-wrote mode stream payload queue log k)
  wrote-IsSound (connecting delay) mode stream payload queue log (h, p, k) =
      (h, p, IsInitial-wrote stream payload log k)
  wrote-IsSound (swapping new) mode stream payload queue log (h, p, k) =
      (inl h, p, IsInitial-wrote stream payload log k)
  wrote-IsSound finished mode stream payload queue log (p, k) =
      (p, IsInitial-wrote stream payload log k)

  -- The write task ends: what was in flight or in the channel is lost.
  pub IsInitial-ended :
      (task : WriteTask) (log : List Event) → IsInitial later task log → IsInitial later ended log
  unfolding in_flight
  IsInitial-ended task log (rest, e) = (in_flight task ++ rest, rw (append-nil, ← append_assoc) e)

  IsRunning-ended :
      (mode : ConnectionMode) (log : List Event)
      → IsInitial later ended log
      → IsRunning later mode ended [] log
  unfolding IsRunning IsFlowing
  IsRunning-ended active log h = h
  IsRunning-ended reconnect log h = h
  IsRunning-ended disconnect log h = h
  IsRunning-ended closed log h = h

  pub ended-IsSound :
      (controller : Controller) (mode : ConnectionMode) (task : WriteTask)
      (queue : List WriterCommand) (log : List Event)
      → IsSound later controller mode task queue log
      → IsSound later controller mode ended [] log
  unfolding IsSound IsSwapping awaits_ack
  ended-IsSound selecting mode task queue log (h, k) = (
    refl,
    IsRunning-ended mode log
        (IsInitial-ended task log (IsRunning-IsInitial later mode task queue log k)),
  )
  ended-IsSound (connecting delay) mode task queue log (h, p, k) =
      (refl, p, IsInitial-ended task log k)
  ended-IsSound (swapping new) mode task queue log (h, p, k) = (tt, p, IsInitial-ended task log k)
  ended-IsSound finished mode task queue log (p, k) = (p, IsInitial-ended task log k)

  pub frame_written-IsSound :
      (success : Bool) (task : WriteTask) (c : TcpClient)
      → IsSound later c.controller c.mode task c.queue c.log
      → Sound later c
      → Sound later (frame_written success task c)
  unfolding frame_written
  frame_written-IsSound true (writing stream payload) c h k =
      wrote-IsSound c.controller c.mode stream payload c.queue c.log h
  frame_written-IsSound false (writing stream payload) c h k =
      ended-IsSound c.controller c.mode (writing stream payload) c.queue c.log h
  frame_written-IsSound true (receiving stream) c h k = k
  frame_written-IsSound false (receiving stream) c h k = k
  frame_written-IsSound true ended c h k = k
  frame_written-IsSound false ended c h k = k

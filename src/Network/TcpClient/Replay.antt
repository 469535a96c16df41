-- ===== src/Network/TcpClient/Replay.antt =====
-- What a client writes on a connection begins with what is to be replayed on it.
pub mod Steps
pub mod Channel
pub mod Lifecycle
pub mod Renewal
pub mod History
use ctp_system.Prelude.{◌≡◌, false, List, [], ◌∷◌, ◌++◌, ◌⊎◌}
use ctp_system.Network.Mode.{ConnectionMode, active, reconnect, disconnect, closed, is_active}
use ctp_system.Network.Frame.{Bytes}
use ctp_system.Network.TcpClient.{
  Stream, WriterCommand, update, send, WriteTask, receiving, writing, ended, Controller, selecting,
  connecting, swapping, finished, Event, connected, wrote, disconnected, TcpClient, awaits_ack,
}

abbrev pub Frames : Type 0
Frames = List (Stream × Bytes)

-- Payloads as the frames of one connection.
unfoldable pub on : Stream → List Bytes → Frames
on stream [] = []
on stream (payload ∷ payloads) = (stream, payload) ∷ on stream payloads

-- The latest connection, what was to be replayed on it, and the frames written since, in order.
unfoldable pub stream_of : List Event → Stream
stream_of [] = 0
stream_of (connected stream payloads ∷ log) = stream
stream_of (wrote stream payload ∷ log) = stream_of log
stream_of (disconnected ∷ log) = stream_of log

unfoldable pub replayed : List Event → List Bytes
replayed [] = []
replayed (connected stream payloads ∷ log) = payloads
replayed (wrote stream payload ∷ log) = replayed log
replayed (disconnected ∷ log) = replayed log

unfoldable pub since : List Event → Frames
since [] = []
since (connected stream payloads ∷ log) = []
since (wrote stream payload ∷ log) = since log ++ (stream, payload) ∷ []
since (disconnected ∷ log) = since log

unfoldable pub in_flight : WriteTask → Frames
in_flight (writing stream payload) = (stream, payload) ∷ []
in_flight (receiving stream) = []
in_flight ended = []

unfoldable pub queued : List WriterCommand → List Bytes
queued [] = []
queued (send payload ∷ queue) = payload ∷ queued queue
queued (update stream ∷ queue) = queued queue

-- What is written is an initial part of what is replayed and of what came later.
abbrev pub IsInitial : List Bytes → WriteTask → List Event → Type 0
IsInitial later task log =
    (rest : Frames) × ((since log ++ in_flight task) ++ rest
      ≡ on (stream_of log) (replayed log ++ later))

-- Nothing of it is lost: what is not written is in the queue.
abbrev pub IsKept : List Bytes → WriteTask → List WriterCommand → List Event → Type 0
IsKept later task queue log =
    (since log ++ in_flight task) ++ on (stream_of log) (queued queue)
    ≡ on (stream_of log) (replayed log ++ later)

-- While the connection is active.
unfoldable pub IsFlowing : List Bytes → WriteTask → List WriterCommand → List Event → Type 0
unfolding on stream_of replayed since in_flight queued
IsFlowing later (receiving stream) queue log =
    (stream ≡ stream_of log) × IsKept later (receiving stream) queue log
IsFlowing later (writing stream payload) queue log =
    (stream ≡ stream_of log) × IsKept later (writing stream payload) queue log
IsFlowing later ended queue log = IsInitial later ended log

unfoldable pub IsRunning :
    List Bytes → ConnectionMode → WriteTask → List WriterCommand → List Event → Type 0
unfolding IsFlowing
IsRunning later active task queue log = IsFlowing later task queue log
IsRunning later reconnect task queue log = IsInitial later task log
IsRunning later disconnect task queue log = IsInitial later task log
IsRunning later closed task queue log = IsInitial later task log

-- The new writer is the last command of the channel, or the only thing that the writer has taken.
abbrev pub IsLast : Stream → List WriterCommand → Type 0
IsLast stream queue =
    (front : List WriterCommand) × (awaits_ack front ≡ false)
    × (queue ≡ front ++ update stream ∷ [])

unfoldable pub IsSwapping : Stream → WriteTask → List WriterCommand → Type 0
IsSwapping stream (receiving old) queue = IsLast stream queue ⊎ ((queue ≡ []) × (old ≡ stream))
IsSwapping stream (writing old payload) queue = IsLast stream queue
IsSwapping stream ended queue = Unit {0}

-- The invariant of a client, by what its controller does.
unfoldable pub IsSound :
    List Bytes → Controller → ConnectionMode → WriteTask → List WriterCommand → List Event → Type 0
unfolding IsRunning IsSwapping
IsSound later selecting mode task queue log =
    (awaits_ack queue ≡ false) × IsRunning later mode task queue log
IsSound later (connecting delay) mode task queue log =
    (awaits_ack queue ≡ false) × (is_active mode ≡ false) × IsInitial later task log
IsSound later (swapping stream) mode task queue log =
    IsSwapping stream task queue × (is_active mode ≡ false) × IsInitial later task log
IsSound later finished mode task queue log = (is_active mode ≡ false) × IsInitial later task log

abbrev pub Sound : List Bytes → TcpClient → Type 0
Sound later c = IsSound later c.controller c.mode c.write_task c.queue c.log

-- ===== src/Network/TcpClient/Replay/Renewal.antt =====
-- The invariant where `reconnect` makes a new connection.
use ctp_system.Prelude.{
  ◌≡◌, refl, true, false, List, [], ◌∷◌, ◌++◌, inl, inr, arith, subst, sym, ap, ◌∙◌, Bool-cases,
  if◌then◌else◌,
}
use mathlib.Core.List.{append-nil, append_assoc}
use ctp_system.Network.Mode.{active}
use ctp_system.Network.Frame.{Bytes}
use ctp_system.Network.TcpClient.{
  Stream, WriterCommand, update, send, WriteTask, receiving, writing, ended, Controller, selecting,
  connecting, swapping, finished, Event, connected, TcpClient, awaits_ack, enqueue, replay, swapped,
}
use ctp_system.Network.TcpClient.Replay.{
  stream_of, replayed, since, in_flight, queued, IsKept, IsFlowing, IsRunning, IsLast, IsSwapping,
  IsSound, Sound,
}

-- The commands of what is replayed.
abbrev sends : List Bytes → List WriterCommand
sends [] = []
sends (payload ∷ payloads) = send payload ∷ sends payloads

queued-sends : (payloads : List Bytes) → queued (sends payloads) ≡ payloads
unfolding queued
queued-sends [] = refl
queued-sends (payload ∷ payloads) = ap (λ ps. payload ∷ ps) (queued-sends payloads)

awaits_ack-sends : (payloads : List Bytes) → awaits_ack (sends payloads) ≡ false
unfolding awaits_ack
awaits_ack-sends [] = refl
awaits_ack-sends (payload ∷ payloads) = awaits_ack-sends payloads

replay-receiving :
    (stream : Stream) (payloads : List Bytes) (queue : List WriterCommand)
    → replay (receiving stream) payloads queue ≡ queue ++ sends payloads
unfolding replay enqueue
replay-receiving stream [] queue = rw append-nil refl
replay-receiving stream (payload ∷ payloads) queue =
    replay-receiving stream payloads (queue ++ send payload ∷ [])
    ∙ append_assoc queue (send payload ∷ []) (sends payloads)

replay-ended :
    (payloads : List Bytes) (queue : List WriterCommand) → replay ended payloads queue ≡ queue
unfolding replay enqueue
replay-ended [] queue = refl
replay-ended (payload ∷ payloads) queue = refl

awaits_ack-update :
    (front : List WriterCommand) (stream : Stream) → awaits_ack (front ++ update stream ∷ []) ≡ true
unfolding awaits_ack
awaits_ack-update [] stream = refl
awaits_ack-update (update old ∷ front) stream = refl
awaits_ack-update (send payload ∷ front) stream = awaits_ack-update front stream

IsLast_absurd :
    {A : Type 0} (stream : Stream) (queue : List WriterCommand)
    → awaits_ack queue ≡ false
    → IsLast stream queue
    → A
IsLast_absurd stream queue q (front, p, e) =
    absurd (ground (arith, q, e, awaits_ack-update front stream))

-- What is to be replayed stands in the channel of the new connection.
connected-IsKept :
    (stream : Stream) (payloads : List Bytes) (log : List Event)
    → IsKept [] (receiving stream) (sends payloads) (connected stream payloads ∷ log)
unfolding in_flight since stream_of replayed
connected-IsKept stream payloads log = rw (queued-sends payloads, append-nil) refl

connected-IsSound :
    (stream : Stream) (payloads : List Bytes) (task : WriteTask) (queue : List WriterCommand)
    (log : List Event)
    → awaits_ack queue ≡ false
    → IsSwapping stream task queue
    → IsSound [] selecting active task
        (replay task payloads queue)
        (connected stream payloads ∷ log)
unfolding IsSwapping IsSound IsRunning IsFlowing stream_of replayed since in_flight
connected-IsSound stream payloads (receiving old) queue log q (inl h) =
    IsLast_absurd stream queue q h
connected-IsSound stream payloads (receiving old) queue log q (inr (e, p)) =
    let filled : replay (receiving old) payloads queue ≡ sends payloads =
      replay-receiving old payloads queue
      ∙ ap (λ (c : List WriterCommand). c ++ sends payloads) e in
    subst
      (λ c.
        (awaits_ack c ≡ false)
        × ((old ≡ stream) × IsKept [] (receiving old) c (connected stream payloads ∷ log)))
      (sym filled) (awaits_ack-sends payloads, (p, connected-IsKept stream payloads log))
connected-IsSound stream payloads (writing old other) queue log q h = IsLast_absurd stream queue q h
connected-IsSound stream payloads ended queue log q h =
    (ap awaits_ack (replay-ended payloads queue) ∙ q, (_, refl))

-- What came later: nothing yet, where a new connection is made.
abbrev pub renewed : Controller → TcpClient → List Bytes → List Bytes
renewed (swapping stream) c later = if awaits_ack c.queue then later else []
renewed controller c later = later

pub swapped-IsSound :
    (later payloads : List Bytes) (controller : Controller) (c : TcpClient)
    → IsSound later controller c.mode c.write_task c.queue c.log
    → Sound later c
    → Sound (renewed controller c later) (swapped payloads controller c)
unfolding swapped IsSound
swapped-IsSound later payloads (swapping stream) c (h, p, k) s =
    elim (Bool-cases (awaits_ack c.queue)) [
      | inl t ↦ simp t s
      | inr t ↦ simp t (connected-IsSound stream payloads c.write_task c.queue c.log t h)
    ]
swapped-IsSound later payloads selecting c h s = s
swapped-IsSound later payloads (connecting delay) c h s = s
swapped-IsSound later payloads finished c h s = s

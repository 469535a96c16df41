-- ===== src/Network/TcpClient/Replay/Lifecycle.antt =====
-- The invariant over what is sent, over the controller and over a new connection.
use ctp_system.Prelude.{
  ℕ, ◌≡◌, refl, true, false, Option, none, some, Result, ok, err, List, [], ◌∷◌, ◌++◌, inl, inr,
  Bool-cases, if◌then◌else◌, arith, ltb, subst, ap, ◌∙◌, if_intro,
}
use mathlib.Core.List.{append_assoc}
use ctp_system.Protocol.{Failure}
use ctp_system.Model.Types.{F64}
use ctp_system.Network.Mode.{ConnectionMode, active, reconnect, disconnect, closed, is_active}
use ctp_system.Network.Frame.{Bytes}
use ctp_system.Network.TcpClient.{
  Stream, WriterCommand, update, send, WriteTask, receiving, writing, ended, Controller, selecting,
  connecting, swapping, finished, Event, TcpClient, awaits_ack, enqueue, beat, tick,
  reconnect_failed, count_attempt, delay_connect, reconnect_starts, shut_down, wake, swap_writer,
  connect_answered,
}
use ctp_system.Network.TcpClient.Replay.{
  Frames, on, stream_of, replayed, since, in_flight, queued, IsInitial, IsKept, IsFlowing,
  IsRunning, IsSwapping, IsSound, Sound,
}
use ctp_system.Network.TcpClient.Replay.Steps.{inactive}
use ctp_system.Network.TcpClient.Replay.Channel.{IsInitial-ended}

on-append :
    (stream : Stream) (xs ys : List Bytes) → on stream (xs ++ ys) ≡ on stream xs ++ on stream ys
unfolding on
on-append stream [] ys = refl
on-append stream (x ∷ xs) ys = rw (on-append stream xs ys) refl

queued-send :
    (queue : List WriterCommand) (payload : Bytes)
    → queued (queue ++ send payload ∷ []) ≡ queued queue ++ payload ∷ []
unfolding queued
queued-send [] payload = refl
queued-send (update stream ∷ queue) payload = queued-send queue payload
queued-send (send other ∷ queue) payload = rw (queued-send queue payload) refl

awaits_ack-send :
    (queue : List WriterCommand) (payload : Bytes)
    → awaits_ack (queue ++ send payload ∷ []) ≡ awaits_ack queue
unfolding awaits_ack
awaits_ack-send [] payload = refl
awaits_ack-send (update stream ∷ queue) payload = refl
awaits_ack-send (send other ∷ queue) payload = awaits_ack-send queue payload

-- What came later, with a payload that may be put into the channel.
abbrev pub taken : WriteTask → Bytes → List Bytes → List Bytes
taken ended payload later = later
taken (receiving stream) payload later = later ++ payload ∷ []
taken (writing stream other) payload later = later ++ payload ∷ []

abbrev pub put : Bytes → TcpClient → List Bytes → List Bytes
put payload c later = if is_active c.mode then taken c.write_task payload later else later

abbrev pub ticked : Option Bytes → TcpClient → List Bytes → List Bytes
ticked none c later = later
ticked (some payload) c later = put payload c later

module _ (later : List Bytes) where
  IsKept-push :
      (task : WriteTask) (queue : List WriterCommand) (log : List Event) (payload : Bytes)
      → IsKept later task queue log
      → IsKept (later ++ payload ∷ []) task (queue ++ send payload ∷ []) log
  IsKept-push task queue log payload e =
      let stream = stream_of log in
      let last = payload ∷ [] in
      rw
        (
          queued-send queue payload,
          on-append stream (queued queue) last,
          ← append_assoc (replayed log) later last,
          on-append stream (replayed log ++ later) last,
          ← append_assoc (since log ++ in_flight task) (on stream (queued queue)) (on stream last),
        )
        (ap (λ (frames : Frames). frames ++ on stream last) e)

  -- Where the writer has ended, what came later has grown all the same.
  IsInitial-push :
      (task : WriteTask) (log : List Event) (payload : Bytes)
      → IsInitial later task log
      → IsInitial (later ++ payload ∷ []) task log
  IsInitial-push task log payload (rest, e) =
      let stream = stream_of log in
      let last = payload ∷ [] in
      (
        rest ++ on stream last,
        rw
            (
              ← append_assoc (replayed log) later last,
              on-append stream (replayed log ++ later) last,
              ← append_assoc (since log ++ in_flight task) rest (on stream last),
            )
            (ap (λ (frames : Frames). frames ++ on stream last) e),
      )

  IsFlowing-push :
      (task : WriteTask) (queue : List WriterCommand) (log : List Event) (payload : Bytes)
      → IsFlowing later task queue log
      → IsFlowing (later ++ payload ∷ []) task (queue ++ send payload ∷ []) log
  unfolding IsFlowing
  IsFlowing-push (receiving stream) queue log payload (p, k) =
      (p, IsKept-push (receiving stream) queue log payload k)
  IsFlowing-push (writing stream other) queue log payload (p, k) =
      (p, IsKept-push (writing stream other) queue log payload k)
  IsFlowing-push ended queue log payload h = IsInitial-push ended log payload h

  -- A payload put into the channel of an active client.
  pub push-IsSound :
      (controller : Controller) (mode : ConnectionMode) (task : WriteTask)
      (queue : List WriterCommand) (log : List Event) (payload : Bytes)
      → is_active mode ≡ true
      → IsSound later controller mode task queue log
      → IsSound (later ++ payload ∷ []) controller mode task (queue ++ send payload ∷ []) log
  unfolding IsSound IsRunning is_active
  push-IsSound selecting active task queue log payload p (h, k) =
      (awaits_ack-send queue payload ∙ h, IsFlowing-push task queue log payload k)
  push-IsSound selecting reconnect task queue log payload p h = absurd (ground (arith, p))
  push-IsSound selecting disconnect task queue log payload p h = absurd (ground (arith, p))
  push-IsSound selecting closed task queue log payload p h = absurd (ground (arith, p))
  push-IsSound (connecting delay) mode task queue log payload p (h, q, k) =
      absurd (ground (arith, p, q))
  push-IsSound (swapping stream) mode task queue log payload p (h, q, k) =
      absurd (ground (arith, p, q))
  push-IsSound finished mode task queue log payload p (q, k) = absurd (ground (arith, p, q))

  beat-IsSound :
      (payload : Bytes) (task : WriteTask) (c : TcpClient)
      → is_active c.mode ≡ true
      → Sound later c
      → Sound (taken task payload later) (beat (enqueue task (send payload) c.queue) c)
  unfolding enqueue beat
  beat-IsSound payload (receiving stream) c p h =
      push-IsSound c.controller c.mode c.write_task c.queue c.log payload p h
  beat-IsSound payload (writing stream other) c p h =
      push-IsSound c.controller c.mode c.write_task c.queue c.log payload p h
  beat-IsSound payload ended c p h = h

  pub tick-IsSound :
      (heartbeat : Option Bytes) (c : TcpClient)
      → Sound later c
      → Sound (ticked heartbeat c later) (tick heartbeat c)
  unfolding tick
  tick-IsSound none c h = h
  tick-IsSound (some payload) c h = elim (Bool-cases (is_active c.mode)) [
    | inl p ↦ simp p (beat-IsSound payload c.write_task c p h)
    | inr p ↦ simp p h
  ]

  -- What `reconnect` starts from and falls back to.
  abbrev IsIdle : TcpClient → Type 0
  IsIdle c =
      (awaits_ack c.queue ≡ false) × (is_active c.mode ≡ false) × IsInitial later c.write_task c.log

  reconnect_failed-IsSound :
      (limit : Option ℕ) (c : TcpClient) → IsIdle c → Sound later (reconnect_failed limit c)
  unfolding reconnect_failed IsSound is_active
  reconnect_failed-IsSound none c (h, p, k) =
      (h, inactive later c.mode c.write_task c.queue c.log p k)
  reconnect_failed-IsSound (some max_attempts) c (h, p, k) =
      if_intro (Sound later) (ltb max_attempts c.reconnect_attempt_count) _ _ (λ t. (refl, k))
        λ t. (h, inactive later c.mode c.write_task c.queue c.log p k)

  reconnect_starts-IsSound :
      (grow : ℕ → F64 → ℕ) (nanos : ℕ) (limit : Option ℕ) (c : TcpClient)
      → IsIdle c
      → Sound later (reconnect_starts grow nanos limit c)
  unfolding reconnect_starts delay_connect IsSound
  reconnect_starts-IsSound grow nanos none c h = h
  reconnect_starts-IsSound grow nanos (some max_attempts) c h =
      if_intro (Sound later) (ltb max_attempts c.reconnect_attempt_count) _ _
        (λ t. reconnect_failed-IsSound (some max_attempts) c h) λ t. h

  pub wake-IsSound :
      (grow : ℕ → F64 → ℕ) (nanos : ℕ) (controller : Controller) (mode : ConnectionMode)
      (c : TcpClient)
      → IsSound later controller mode c.write_task c.queue c.log
      → (is_active c.mode ≡ is_active mode)
      → Sound later c
      → Sound later (wake grow nanos controller mode c)
  unfolding wake shut_down count_attempt IsSound IsRunning is_active
  wake-IsSound grow nanos selecting disconnect c (h, k) q s =
      (refl, IsInitial-ended later c.write_task c.log k)
  wake-IsSound grow nanos selecting reconnect c (h, k) q s =
      reconnect_starts-IsSound grow nanos c.reconnect_max_attempts (count_attempt c) (h, q, k)
  wake-IsSound grow nanos selecting active c h q s = s
  wake-IsSound grow nanos selecting closed c h q s = s
  wake-IsSound grow nanos (connecting delay) mode c h q s = s
  wake-IsSound grow nanos (swapping stream) mode c h q s = s
  wake-IsSound grow nanos finished mode c h q s = s

  swap_writer-IsSound :
      (task : WriteTask) (stream : Stream) (c : TcpClient)
      → task ≡ c.write_task
      → IsIdle c
      → Sound later (swap_writer stream (enqueue task (update stream) c.queue) c)
  unfolding swap_writer enqueue IsSound IsSwapping
  swap_writer-IsSound (receiving old) stream c e (h, p, k) = (
    subst (λ t. IsSwapping stream t (c.queue ++ update stream ∷ [])) e (inl (c.queue, h, refl)),
    p,
    k,
  )
  swap_writer-IsSound (writing old payload) stream c e (h, p, k) =
      (subst (λ t. IsSwapping stream t (c.queue ++ update stream ∷ [])) e (c.queue, h, refl), p, k)
  swap_writer-IsSound ended stream c e h = reconnect_failed-IsSound c.reconnect_max_attempts c h

  pub connect_answered-IsSound :
      (answer : Result Failure Stream) (controller : Controller) (c : TcpClient)
      → IsSound later controller c.mode c.write_task c.queue c.log
      → Sound later c
      → Sound later (connect_answered answer controller c)
  unfolding connect_answered IsSound
  connect_answered-IsSound (err e) (connecting delay) c h s =
      reconnect_failed-IsSound c.reconnect_max_attempts c h
  connect_answered-IsSound (ok stream) (connecting delay) c h s =
      swap_writer-IsSound c.write_task stream c refl h
  connect_answered-IsSound (err e) selecting c h s = s
  connect_answered-IsSound (ok stream) selecting c h s = s
  connect_answered-IsSound (err e) (swapping new) c h s = s
  connect_answered-IsSound (ok stream) (swapping new) c h s = s
  connect_answered-IsSound (err e) finished c h s = s
  connect_answered-IsSound (ok stream) finished c h s = s

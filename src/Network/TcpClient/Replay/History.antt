-- ===== src/Network/TcpClient/Replay/History.antt =====
-- What every history of a client has in common.
use ctp_system.Prelude.{
  ℕ, ◌≡◌, refl, true, false, Option, none, some, err, List, [], ◌∷◌, ◌++◌, inl, inr, arith, subst,
  sym, ap, ◌∙◌, Bool-cases,
}
use mathlib.Core.List.{append-nil, append_assoc}
use ctp_system.Network.Backoff.{ExponentialBackoff}
use ctp_system.Model.Types.{F64}
use ctp_system.Network.Mode.{
  ConnectionMode, active, reconnect, disconnect, closed, is_active, is_terminal,
}
use ctp_system.Network.SendError.{SendError}
use ctp_system.Network.Frame.{Bytes}
use ctp_system.Network.TcpClient.{
  Stream, WriteTask, receiving, writing, ended, Controller, selecting, connecting, swapping,
  finished, WriterCommand, TcpClient, Event, send, enqueue, reading_ends, write_loop, close_starts,
  close_ends, start, awaits_ack,
}
use ctp_system.Network.TcpClient.Send.{
  check_not_terminal, wait_for_active, pushed, push, send_bytes,
}
use ctp_system.Network.TcpClient.Run.{
  Action, reader_ends, writer_receives, writer_writes, heart_beats, controller_wakes,
  connect_answers, writer_swapped, sends, close_called, close_returns, act, run,
}
use ctp_system.Network.TcpClient.Replay.{
  Frames, on, stream_of, replayed, since, in_flight, queued, IsFlowing, IsRunning, IsSound, Sound,
}
use ctp_system.Network.TcpClient.Replay.Steps.{
  demote, signal_reconnect-IsSound, receive-IsSound, IsSound-IsInitial,
}
use ctp_system.Network.TcpClient.Replay.Channel.{frame_written-IsSound}
use ctp_system.Network.TcpClient.Replay.Lifecycle.{
  taken, put, ticked, push-IsSound, tick-IsSound, wake-IsSound, connect_answered-IsSound,
}
use ctp_system.Network.TcpClient.Replay.Renewal.{renewed, swapped-IsSound}

active_terminal : (mode : ConnectionMode) → is_active mode ≡ true → is_terminal mode ≡ false
unfolding is_active is_terminal
active_terminal active p = refl
active_terminal reconnect p = absurd (ground (arith, p))
active_terminal disconnect p = absurd (ground (arith, p))
active_terminal closed p = absurd (ground (arith, p))

-- A call of `send_bytes` that does not wait.
pub send_active :
    (payload : Bytes) (c : TcpClient)
    → is_active c.mode ≡ true
    → send_bytes [] payload c ≡ push payload c
unfolding send_bytes
send_active payload c p =
    simp (active_terminal c.mode p, p, send_bytes, check_not_terminal, wait_for_active)

pub send_terminal :
    (wakes : List (TcpClient → TcpClient)) (payload : Bytes) (c : TcpClient)
    → is_terminal c.mode ≡ true
    → send_bytes wakes payload c ≡ (err SendError.closed, c)
unfolding send_bytes
send_terminal wakes payload c t = simp (t, send_bytes, check_not_terminal)

pub send_inactive :
    (payload : Bytes) (c : TcpClient) → is_active c.mode ≡ false → (send_bytes [] payload c).1 ≡ c
unfolding send_bytes
send_inactive payload c p = elim (Bool-cases (is_terminal c.mode)) [
  | inl t ↦ ap (λ r. r.1) (send_terminal [] payload c t)
  | inr t ↦ simp (t, p, send_bytes, check_not_terminal, wait_for_active)
]

pushed-Sound :
    (later : List Bytes) (task : WriteTask) (payload : Bytes) (c : TcpClient)
    → is_active c.mode ≡ true
    → Sound later c
    → Sound (taken task payload later) (pushed (enqueue task (send payload) c.queue) c).1
unfolding pushed enqueue
pushed-Sound later (receiving stream) payload c p h =
    push-IsSound later c.controller c.mode c.write_task c.queue c.log payload p h
pushed-Sound later (writing stream other) payload c p h =
    push-IsSound later c.controller c.mode c.write_task c.queue c.log payload p h
pushed-Sound later ended payload c p h = h

pub send_bytes-Sound :
    (later : List Bytes) (payload : Bytes) (c : TcpClient)
    → Sound later c
    → Sound (put payload c later) (send_bytes [] payload c).1
unfolding push
send_bytes-Sound later payload c h = elim (Bool-cases (is_active c.mode)) [
  | inl p ↦
      subst (λ r. Sound (put payload c later) r.1) (sym (send_active payload c p))
        (simp p (pushed-Sound later c.write_task payload c p h))
  | inr p ↦ subst (λ r. Sound (put payload c later) r) (sym (send_inactive payload c p)) (simp p h)
]

reading_ends-Sound :
    (later : List Bytes) (task : Option Stream) (c : TcpClient)
    → Sound later c
    → Sound later (reading_ends task c)
unfolding reading_ends
reading_ends-Sound later none c h = h
reading_ends-Sound later (some stream) c h =
    signal_reconnect-IsSound later c.controller c.mode c.write_task c.queue c.log h

-- The payloads that came since the latest connect: those of callers and of the heartbeat that found
-- the client active and its writer there, oldest first.
abbrev pub came_by : Action → TcpClient → List Bytes → List Bytes
came_by heart_beats c later = ticked c.heartbeat c later
came_by (writer_swapped payloads) c later = renewed c.controller c later
came_by (sends payload) c later = put payload c later
came_by action c later = later

module _ (grow : ℕ → F64 → ℕ) where
  pub act-Sound :
      (later : List Bytes) (action : Action) (c : TcpClient)
      → Sound later c
      → Sound (came_by action c later) (act grow action c)
  unfolding act write_loop close_starts close_ends IsSound is_active
  act-Sound later reader_ends c h = reading_ends-Sound later c.read_task c h
  act-Sound later writer_receives c h =
      receive-IsSound later c.controller c.mode c.write_task c.queue c.log h
  act-Sound later (writer_writes success) c h =
      frame_written-IsSound later success c.write_task c h h
  act-Sound later heart_beats c h = tick-IsSound later c.heartbeat c h
  act-Sound later (controller_wakes nanos) c h =
      wake-IsSound later grow nanos c.controller c.mode c h refl h
  act-Sound later (connect_answers answer) c h =
      connect_answered-IsSound later answer c.controller c h h
  act-Sound later (writer_swapped payloads) c h = swapped-IsSound later payloads c.controller c h h
  act-Sound later (sends payload) c h = send_bytes-Sound later payload c h
  act-Sound later close_called c h =
      demote later c.controller c.mode disconnect c.write_task c.queue c.log refl h
  act-Sound later close_returns c h =
      (refl, IsSound-IsInitial later c.controller c.mode c.write_task c.queue c.log h)

  -- Over a sequence of actions.
  abbrev pub came : List Action → TcpClient → List Bytes → List Bytes
  came [] c later = later
  came (action ∷ actions) c later = came actions (act grow action c) (came_by action c later)

  run-Sound :
      (later : List Bytes) (actions : List Action) (c : TcpClient)
      → Sound later c
      → Sound (came actions c later) (run grow actions c)
  unfolding run
  run-Sound later [] c h = h
  run-Sound later (action ∷ actions) c h =
      run-Sound (came_by action c later) actions (act grow action c) (act-Sound later action c h)

  pub start-Sound :
      (heartbeat : Option Bytes) (limit : Option ℕ) (backoff : ExponentialBackoff) (stream : Stream)
      → Sound [] (start heartbeat limit backoff stream)
  unfolding start IsSound IsRunning IsFlowing awaits_ack stream_of replayed since in_flight queued
      on
  start-Sound heartbeat limit backoff stream = (refl, (refl, refl))

  -- Whatever the tasks, the callers and the network do after the first connect, each step between two
  -- awaits taken as one: the frames written since the latest connect all went to that connection, and
  -- they are, in order, an initial part of what was to be replayed on it, followed by the payloads
  -- that came since then from callers and the heartbeat while the client was active.
  pub run-start :
      (heartbeat : Option Bytes) (limit : Option ℕ) (backoff : ExponentialBackoff) (stream : Stream)
      (actions : List Action)
      → let first = start heartbeat limit backoff stream in
        let log = (run grow actions first).log in
        (rest : Frames) × (since log ++ rest
          ≡ on (stream_of log) (replayed log ++ came actions first []))
  run-start heartbeat limit backoff stream actions =
      let first = start heartbeat limit backoff stream in
      let c = run grow actions first in
      let later = came actions first [] in
      let (rest, e) =
        IsSound-IsInitial later c.controller c.mode c.write_task c.queue c.log
          (run-Sound [] actions first (start-Sound heartbeat limit backoff stream)) in
      (in_flight c.write_task ++ rest, sym (append_assoc (since c.log) _ rest) ∙ e)

  flushed :
      (later : List Bytes) (controller : Controller) (mode : ConnectionMode) (task : WriteTask)
      (queue : List WriterCommand) (log : List Event) (stream : Stream)
      → mode ≡ active
      → task ≡ receiving stream
      → queue ≡ []
      → IsSound later controller mode task queue log
      → since log ≡ on (stream_of log) (replayed log ++ later)
  unfolding IsSound IsRunning IsFlowing is_active in_flight queued on
  flushed later selecting mode task queue log stream p q r h =
      let at_rest : IsSound later selecting active (receiving stream) [] log =
        subst (λ m. IsSound later selecting m (receiving stream) [] log) p
          (subst (λ t. IsSound later selecting mode t [] log) q
            (subst (λ c. IsSound later selecting mode task c log) r h)) in
      rw (append-nil (since log ++ []), append-nil (since log)) at at_rest.1.1
  flushed later (connecting delay) mode task queue log stream p q r (h, k, l) =
      absurd (ground (arith, p, k))
  flushed later (swapping new) mode task queue log stream p q r (h, k, l) =
      absurd (ground (arith, p, k))
  flushed later finished mode task queue log stream p q r (k, l) = absurd (ground (arith, p, k))

  -- Each step between two awaits is taken as one, also the tail of a reconnect that stores the active
  -- mode and puts what is replayed into the channel. While the client is active: once the writer has
  -- emptied its channel, the frames written on the latest connection are all that was to be replayed
  -- on it and then all payloads that came since from callers and the heartbeat, in order.
  pub run_flushed :
      (heartbeat : Option Bytes) (limit : Option ℕ) (backoff : ExponentialBackoff)
      (first stream : Stream) (actions : List Action)
      → (run grow actions (start heartbeat limit backoff first)).mode ≡ active
      → (run grow actions (start heartbeat limit backoff first)).write_task ≡ receiving stream
      → (run grow actions (start heartbeat limit backoff first)).queue ≡ []
      → let c = start heartbeat limit backoff first in
        let log = (run grow actions c).log in
        since log ≡ on (stream_of log) (replayed log ++ came actions c [])
  run_flushed heartbeat limit backoff first stream actions p q r =
      let c = start heartbeat limit backoff first in
      let last = run grow actions c in
      flushed (came actions c []) last.controller last.mode last.write_task last.queue last.log
        stream p q r (run-Sound [] actions c (start-Sound heartbeat limit backoff first))

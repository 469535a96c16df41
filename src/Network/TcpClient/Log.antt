-- ===== src/Network/TcpClient/Log.antt =====
-- What the actions do to the write task and the log: a fact on these two that the steps of the writer
-- and the end of the client keep is kept by every action but a new connection, which needs it for
-- what is replayed.
use ctp_system.Prelude.{
  ℕ, String, Bool, true, false, Option, none, some, Result, ok, err, List, [], ◌∷◌, subst, sym, ltb,
  inl, inr, Bool-cases, if_intro,
}
use ctp_system.Protocol.{Failure}
use ctp_system.Model.Types.{F64}
use ctp_system.Network.Mode.{ConnectionMode, active, reconnect, disconnect, closed, is_active}
use ctp_system.Network.Frame.{Bytes}
use ctp_system.Network.TcpClient.{
  Stream, WriterCommand, TcpClient, Event, connected, wrote, disconnected, Controller, selecting,
  connecting, swapping, finished, WriteTask, receiving, writing, ended, reading_ends, receive,
  write_loop, frame_written, beat, tick, enqueue, reconnect_failed, delay_connect, count_attempt,
  reconnect_starts, shut_down, wake, swap_writer, connect_answered, awaits_ack, swapped,
  close_starts, close_ends, send,
}
use ctp_system.Network.TcpClient.Send.{pushed, push, send_bytes}
use ctp_system.Network.TcpClient.Run.{
  Action, reader_ends, writer_receives, writer_writes, heart_beats, controller_wakes,
  connect_answers, writer_swapped, sends, close_called, close_returns, act, run,
}
use ctp_system.Network.TcpClient.Replay.History.{send_active, send_inactive}

pub record Law (Holds : WriteTask → List Event → Type 0) : Type 0 where
  pub over_receive :
      (mode : ConnectionMode) (task : WriteTask) (queue : List WriterCommand) (log : List Event)
      → Holds task log
      → Holds (receive mode task queue).0 log
  pub over_wrote :
      (stream : Stream) (payload : Bytes) (log : List Event)
      → Holds (writing stream payload) log
      → Holds (receiving stream) (wrote stream payload ∷ log)
  pub over_ended : (task : WriteTask) (log : List Event) → Holds task log → Holds ended log
  pub over_disconnected : (log : List Event) → Holds ended log → Holds ended (disconnected ∷ log)

-- What a new connection with these payloads needs.
abbrev pub Renews : (WriteTask → List Event → Type 0) → List Bytes → Type 0
Renews Holds payloads =
    (task : WriteTask) (stream : Stream) (log : List Event)
    → Holds task log
    → Holds task (connected stream payloads ∷ log)

-- The payloads that an action replays.
abbrev pub replays : Action → List Bytes → List Bytes
replays (writer_swapped payloads) default = payloads
replays action default = default

module _ (Holds : WriteTask → List Event → Type 0) (law : Law Holds) where
  abbrev Keeps : TcpClient → Type 0
  Keeps c = Holds c.write_task c.log

  frame_written-Keeps :
      (success : Bool) (task : WriteTask) (c : TcpClient)
      → Holds task c.log
      → Keeps c
      → Keeps (frame_written success task c)
  unfolding frame_written
  frame_written-Keeps true (writing stream payload) c h k = law.over_wrote stream payload c.log h
  frame_written-Keeps false (writing stream payload) c h k =
      law.over_ended (writing stream payload) c.log h
  frame_written-Keeps true (receiving stream) c h k = k
  frame_written-Keeps false (receiving stream) c h k = k
  frame_written-Keeps true ended c h k = k
  frame_written-Keeps false ended c h k = k

  reading_ends-Keeps :
      (task : Option Stream) (c : TcpClient) → Keeps c → Keeps (reading_ends task c)
  unfolding reading_ends
  reading_ends-Keeps none c h = h
  reading_ends-Keeps (some stream) c h = h

  beat-Keeps :
      (result : Result String (List WriterCommand)) (c : TcpClient)
      → Keeps c
      → Keeps (beat result c)
  unfolding beat
  beat-Keeps (ok queue) c h = h
  beat-Keeps (err e) c h = h

  tick-Keeps : (heartbeat : Option Bytes) (c : TcpClient) → Keeps c → Keeps (tick heartbeat c)
  unfolding tick
  tick-Keeps none c h = h
  tick-Keeps (some payload) c h =
      if_intro Keeps (is_active c.mode) _ _
        (λ p. beat-Keeps (enqueue c.write_task (send payload) c.queue) c h) λ p. h

  reconnect_failed-Keeps :
      (limit : Option ℕ) (c : TcpClient) → Keeps c → Keeps (reconnect_failed limit c)
  unfolding reconnect_failed
  reconnect_failed-Keeps none c h = h
  reconnect_failed-Keeps (some max_attempts) c h =
      if_intro Keeps (ltb max_attempts c.reconnect_attempt_count) _ _ (λ t. h) λ t. h

  reconnect_starts-Keeps :
      (grow : ℕ → F64 → ℕ) (nanos : ℕ) (limit : Option ℕ) (c : TcpClient)
      → Keeps c
      → Keeps (reconnect_starts grow nanos limit c)
  unfolding reconnect_starts delay_connect
  reconnect_starts-Keeps grow nanos none c h = h
  reconnect_starts-Keeps grow nanos (some max_attempts) c h =
      if_intro Keeps (ltb max_attempts c.reconnect_attempt_count) _ _
        (λ t. reconnect_failed-Keeps (some max_attempts) c h) λ t. h

  wake-Keeps :
      (grow : ℕ → F64 → ℕ) (nanos : ℕ) (controller : Controller) (mode : ConnectionMode)
      (c : TcpClient)
      → Keeps c
      → Keeps (wake grow nanos controller mode c)
  unfolding wake shut_down count_attempt
  wake-Keeps grow nanos selecting disconnect c h =
      law.over_disconnected c.log (law.over_ended c.write_task c.log h)
  wake-Keeps grow nanos selecting reconnect c h =
      reconnect_starts-Keeps grow nanos c.reconnect_max_attempts (count_attempt c) h
  wake-Keeps grow nanos selecting active c h = h
  wake-Keeps grow nanos selecting closed c h = h
  wake-Keeps grow nanos (connecting delay) mode c h = h
  wake-Keeps grow nanos (swapping stream) mode c h = h
  wake-Keeps grow nanos finished mode c h = h

  swap_writer-Keeps :
      (stream : Stream) (result : Result String (List WriterCommand)) (c : TcpClient)
      → Keeps c
      → Keeps (swap_writer stream result c)
  unfolding swap_writer
  swap_writer-Keeps stream (ok queue) c h = h
  swap_writer-Keeps stream (err e) c h = reconnect_failed-Keeps c.reconnect_max_attempts c h

  connect_answered-Keeps :
      (answer : Result Failure Stream) (controller : Controller) (c : TcpClient)
      → Keeps c
      → Keeps (connect_answered answer controller c)
  unfolding connect_answered
  connect_answered-Keeps (err e) (connecting delay) c h =
      reconnect_failed-Keeps c.reconnect_max_attempts c h
  connect_answered-Keeps (ok stream) (connecting delay) c h = swap_writer-Keeps stream _ c h
  connect_answered-Keeps (err e) selecting c h = h
  connect_answered-Keeps (ok stream) selecting c h = h
  connect_answered-Keeps (err e) (swapping new) c h = h
  connect_answered-Keeps (ok stream) (swapping new) c h = h
  connect_answered-Keeps (err e) finished c h = h
  connect_answered-Keeps (ok stream) finished c h = h

  pub swapped-Keeps :
      (payloads : List Bytes) (controller : Controller) (c : TcpClient)
      → Renews Holds payloads
      → Keeps c
      → Keeps (swapped payloads controller c)
  unfolding swapped
  swapped-Keeps payloads (swapping stream) c renews h =
      if_intro Keeps (awaits_ack c.queue) _ _ (λ t. h) λ t. renews c.write_task stream c.log h
  swapped-Keeps payloads selecting c renews h = h
  swapped-Keeps payloads (connecting delay) c renews h = h
  swapped-Keeps payloads finished c renews h = h

  pushed-Keeps :
      (result : Result String (List WriterCommand)) (c : TcpClient)
      → Keeps c
      → Keeps (pushed result c).1
  unfolding pushed
  pushed-Keeps (ok queue) c h = h
  pushed-Keeps (err e) c h = h

  pub send_bytes-Keeps :
      (payload : Bytes) (c : TcpClient) → Keeps c → Keeps (send_bytes [] payload c).1
  unfolding push
  send_bytes-Keeps payload c h = elim (Bool-cases (is_active c.mode)) [
    | inl p ↦ subst (λ r. Keeps r.1) (sym (send_active payload c p)) (pushed-Keeps _ c h)
    | inr p ↦ subst Keeps (sym (send_inactive payload c p)) h
  ]

  pub act-Keeps :
      (grow : ℕ → F64 → ℕ) (action : Action) (c : TcpClient) (default : List Bytes)
      → Renews Holds (replays action default)
      → Keeps c
      → Keeps (act grow action c)
  unfolding act write_loop close_starts close_ends
  act-Keeps grow reader_ends c default renews h = reading_ends-Keeps c.read_task c h
  act-Keeps grow writer_receives c default renews h =
      law.over_receive c.mode c.write_task c.queue c.log h
  act-Keeps grow (writer_writes success) c default renews h =
      frame_written-Keeps success c.write_task c h h
  act-Keeps grow heart_beats c default renews h = tick-Keeps c.heartbeat c h
  act-Keeps grow (controller_wakes nanos) c default renews h =
      wake-Keeps grow nanos c.controller c.mode c h
  act-Keeps grow (connect_answers answer) c default renews h =
      connect_answered-Keeps answer c.controller c h
  act-Keeps grow (writer_swapped payloads) c default renews h =
      swapped-Keeps payloads c.controller c renews h
  act-Keeps grow (sends payload) c default renews h = send_bytes-Keeps payload c h
  act-Keeps grow close_called c default renews h = h
  act-Keeps grow close_returns c default renews h = h

  -- Every payload that is replayed may be, whatever the actions.
  pub run-Keeps :
      (grow : ℕ → F64 → ℕ) (actions : List Action) (c : TcpClient)
      → ((payloads : List Bytes) → Renews Holds payloads)
      → Keeps c
      → Keeps (run grow actions c)
  unfolding run
  run-Keeps grow [] c renews h = h
  run-Keeps grow (action ∷ actions) c renews h =
      run-Keeps grow actions (act grow action c) renews
        (act-Keeps grow action c [] (renews (replays action [])) h)

-- ===== src/Network/TcpClient/Closed.antt =====
-- After a close.
use ctp_system.Prelude.{
  ℕ, ◌≡◌, refl, Bool, true, false, Option, none, some, Result, ok, err, List, [], ◌∷◌, arith, subst,
  sym, ap, ◌∙◌, if_intro,
}
use ctp_system.Protocol.{Failure}
use ctp_system.Model.Types.{F64}
use ctp_system.Network.Mode.{
  ConnectionMode, active, reconnect, disconnect, closed, is_active, is_terminal,
}
use ctp_system.Network.SendError
use ctp_system.Network.Frame.{Bytes}
use ctp_system.Network.TcpClient.{
  Stream, TcpClient, Controller, selecting, connecting, swapping, finished, WriteTask, receiving,
  writing, ended, signal_reconnect, reading_ends, write_loop, frame_written, beat, tick, enqueue,
  wake, connect_answered, swapped, close_starts, close_ends, send,
}
use ctp_system.Network.TcpClient.Send.{send_bytes}
use ctp_system.Network.TcpClient.Run.{
  Action, reader_ends, writer_receives, writer_writes, heart_beats, controller_wakes,
  connect_answers, writer_swapped, sends, close_called, close_returns, act, run,
}
use ctp_system.Network.TcpClient.Replay.History.{send_terminal}

-- The controller is over, and the client is closed or was told to disconnect again.
abbrev IsOver : TcpClient → Type 0
IsOver c = (c.controller ≡ finished) × (is_terminal c.mode ≡ true)

signal_reconnect-terminal :
    (mode : ConnectionMode) → is_terminal mode ≡ true → signal_reconnect mode ≡ mode
unfolding signal_reconnect is_terminal
signal_reconnect-terminal active p = absurd (ground (arith, p))
signal_reconnect-terminal reconnect p = refl
signal_reconnect-terminal disconnect p = refl
signal_reconnect-terminal closed p = refl

reading_ends-IsOver :
    (task : Option Stream) (c : TcpClient) → IsOver c → IsOver (reading_ends task c)
unfolding reading_ends
reading_ends-IsOver none c h = h
reading_ends-IsOver (some stream) c (p, q) =
    (p, ap is_terminal (signal_reconnect-terminal c.mode q) ∙ q)

frame_written-IsOver :
    (success : Bool) (task : WriteTask) (c : TcpClient)
    → IsOver c
    → IsOver (frame_written success task c)
unfolding frame_written
frame_written-IsOver true (writing stream payload) c h = h
frame_written-IsOver false (writing stream payload) c h = h
frame_written-IsOver true (receiving stream) c h = h
frame_written-IsOver false (receiving stream) c h = h
frame_written-IsOver true ended c h = h
frame_written-IsOver false ended c h = h

tick-IsOver : (heartbeat : Option Bytes) (c : TcpClient) → IsOver c → IsOver (tick heartbeat c)
unfolding tick enqueue beat
tick-IsOver none c h = h
tick-IsOver (some payload) c h =
    if_intro IsOver (is_active c.mode) _ _ (λ p. go c.write_task) λ p. h
  where
    go : (task : WriteTask) → IsOver (beat (enqueue task (send payload) c.queue) c)
    go (receiving stream) = h
    go (writing stream other) = h
    go ended = h

-- The steps of the controller are those of one that is not over.
wake-finished :
    (grow : ℕ → F64 → ℕ) (nanos : ℕ) (controller : Controller) (mode : ConnectionMode)
    (c : TcpClient)
    → controller ≡ finished
    → wake grow nanos controller mode c ≡ c
unfolding wake
wake-finished grow nanos finished mode c p = refl
wake-finished grow nanos selecting mode c p = absurd (ground (arith, p))
wake-finished grow nanos (connecting delay) mode c p = absurd (ground (arith, p))
wake-finished grow nanos (swapping stream) mode c p = absurd (ground (arith, p))

connect_answered-finished :
    (answer : Result Failure Stream) (controller : Controller) (c : TcpClient)
    → controller ≡ finished
    → connect_answered answer controller c ≡ c
unfolding connect_answered
connect_answered-finished (ok stream) finished c p = refl
connect_answered-finished (err e) finished c p = refl
connect_answered-finished answer selecting c p = absurd (ground (arith, p))
connect_answered-finished answer (connecting delay) c p = absurd (ground (arith, p))
connect_answered-finished answer (swapping stream) c p = absurd (ground (arith, p))

swapped-finished :
    (payloads : List Bytes) (controller : Controller) (c : TcpClient)
    → controller ≡ finished
    → swapped payloads controller c ≡ c
unfolding swapped
swapped-finished payloads finished c p = refl
swapped-finished payloads selecting c p = absurd (ground (arith, p))
swapped-finished payloads (connecting delay) c p = absurd (ground (arith, p))
swapped-finished payloads (swapping stream) c p = absurd (ground (arith, p))

module _ (grow : ℕ → F64 → ℕ) where
  act-IsOver : (action : Action) (c : TcpClient) → IsOver c → IsOver (act grow action c)
  unfolding act write_loop close_starts close_ends is_terminal
  act-IsOver reader_ends c h = reading_ends-IsOver c.read_task c h
  act-IsOver writer_receives c h = h
  act-IsOver (writer_writes success) c h = frame_written-IsOver success c.write_task c h
  act-IsOver heart_beats c h = tick-IsOver c.heartbeat c h
  act-IsOver (controller_wakes nanos) c h =
      subst IsOver (sym (wake-finished grow nanos c.controller c.mode c h.0)) h
  act-IsOver (connect_answers answer) c h =
      subst IsOver (sym (connect_answered-finished answer c.controller c h.0)) h
  act-IsOver (writer_swapped payloads) c h =
      subst IsOver (sym (swapped-finished payloads c.controller c h.0)) h
  act-IsOver (sends payload) c h = subst (λ r. IsOver r.1) (sym (send_terminal [] payload c h.1)) h
  act-IsOver close_called c h = (h.0, refl)
  act-IsOver close_returns c h = (refl, refl)

  run-IsOver : (actions : List Action) (c : TcpClient) → IsOver c → IsOver (run grow actions c)
  unfolding run
  run-IsOver [] c h = h
  run-IsOver (action ∷ actions) c h = run-IsOver actions (act grow action c) (act-IsOver action c h)

  -- After a `close` has returned every send fails at once with `Closed` and puts nothing into the
  -- channel, whatever happened before and since.
  pub send_bytes-close_ends :
      (actions : List Action) (wakes : List (TcpClient → TcpClient)) (payload : Bytes)
      (c : TcpClient)
      → send_bytes wakes payload (run grow actions (close_ends c))
        ≡ (err SendError.closed, run grow actions (close_ends c))
  unfolding close_ends is_terminal
  send_bytes-close_ends actions wakes payload c =
      let later = run grow actions (close_ends c) in
      send_terminal wakes payload later (run-IsOver actions (close_ends c) (refl, refl)).1

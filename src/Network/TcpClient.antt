-- ===== src/Network/TcpClient.antt =====
-- crates/common/src/network/tcp_client/client.rs after the first connect: its tasks and what they
-- share. A function here is what one task does between two awaits, and is taken as one step, although
-- on several threads a caller can come between the parts of a step.
pub mod Send
pub mod Config
pub mod Connect
pub mod Run
pub mod Replay
pub mod Closed
pub mod Log
use ctp_system.Prelude.{
  ℕ, ◌+◌, ◌%◌, ◌^◌, String, Bool, true, false, Option, none, some, List, [], ◌∷◌, ◌++◌, Result, ok,
  err, ltb, if◌then◌else◌,
}
use ctp_system.Protocol.{Failure}
use ctp_system.Model.Types.{F64}
use ctp_system.Network.Mode.{ConnectionMode, active, reconnect, disconnect, closed, is_active}
use ctp_system.Network.Frame.{Bytes}
use ctp_system.Network.Backoff.{ExponentialBackoff, next_duration, reset}

-- A connected socket, split into its reader and its writer.
abbrev pub Stream : Type 0
Stream = ℕ

-- types.rs; the sender of the ack is that of the controller which awaits it.
pub data WriterCommand : Type 0 where
  update : Stream → WriterCommand
  send : Bytes → WriterCommand

-- Where run_write_loop is: at `rx.recv()`, writing a frame, or over.
pub data WriteTask : Type 0 where
  receiving : Stream → WriteTask
  writing : Stream → Bytes → WriteTask
  ended : WriteTask

-- Where the controller is: at its `select!`, at the delay and the connect of `reconnect`, at the ack
-- of the writer, or over.
pub data Controller : Type 0 where
  selecting : Controller
  connecting : ℕ → Controller
  swapping : Stream → Controller
  finished : Controller

-- A connection with the payloads that are sent again on it (then `post_reconnection`), a frame that
-- is written whole, and `post_disconnection`.
pub data Event : Type 0 where
  connected : Stream → List Bytes → Event
  wrote : Stream → Bytes → Event
  disconnected : Event

-- The log is newest first.
pub record TcpClient : Type 0 where
  pub mode : ConnectionMode
  pub queue : List WriterCommand
  pub write_task : WriteTask
  pub read_task : Option Stream
  pub heartbeat : Option Bytes
  pub controller : Controller
  pub reconnect_max_attempts : Option ℕ
  pub reconnect_attempt_count : ℕ
  pub backoff : ExponentialBackoff
  pub log : List Event

-- The tail of run_read_loop: if current.is_active() { mode.store(Reconnect) }
unfoldable pub signal_reconnect : ConnectionMode → ConnectionMode
signal_reconnect active = reconnect
signal_reconnect mode = mode

unfoldable pub reading_ends : Option Stream → TcpClient → TcpClient
unfolding signal_reconnect
reading_ends none c = c
reading_ends (some stream) c = record c { read_task = none; mode = signal_reconnect c.mode }

-- `writer_tx.send`: it fails where the receiver is gone.
unfoldable pub enqueue :
    WriteTask → WriterCommand → List WriterCommand → Result String (List WriterCommand)
enqueue ended command queue = err "channel closed"
enqueue (receiving stream) command queue = ok (queue ++ command ∷ [])
enqueue (writing stream payload) command queue = ok (queue ++ command ∷ [])

-- One round of run_write_loop up to the writing of the frame.
unfoldable pub receive :
    ConnectionMode → WriteTask → List WriterCommand → WriteTask × List WriterCommand
unfolding is_active
receive mode (receiving stream) (update writer ∷ queue) = (receiving writer, queue)
receive mode (receiving stream) (send payload ∷ queue) =
    if is_active mode then (writing stream payload, queue) else (receiving stream, queue)
receive mode task queue = (task, queue)

unfoldable pub write_loop : TcpClient → TcpClient
unfolding receive
write_loop c =
    let (task, queue) = receive c.mode c.write_task c.queue in
    record c { write_task = task; queue = queue }

-- The frame is written and flushed, or one of the writes fails.
unfoldable pub frame_written : Bool → WriteTask → TcpClient → TcpClient
frame_written true (writing stream payload) c = record c {
  write_task = receiving stream;
  log = wrote stream payload ∷ c.log;
}
frame_written false (writing stream payload) c = record c { write_task = ended; queue = [] }
frame_written success task c = c

-- One tick of the heartbeat task: a failed send ends it.
unfoldable pub beat : Result String (List WriterCommand) → TcpClient → TcpClient
beat (ok queue) c = record c { queue = queue }
beat (err e) c = record c { heartbeat = none }

unfoldable pub tick : Option Bytes → TcpClient → TcpClient
unfolding is_active enqueue beat
tick none c = c
tick (some payload) c =
    if is_active c.mode then beat (enqueue c.write_task (send payload) c.queue) c else c

-- The controller after a failed `reconnect`, with the limit of attempts.
unfoldable pub reconnect_failed : Option ℕ → TcpClient → TcpClient
reconnect_failed none c = record c { controller = selecting }
reconnect_failed (some max_attempts) c =
    if ltb max_attempts c.reconnect_attempt_count
    then record c { mode = closed; controller = finished }
    else record c { controller = selecting }

-- reconnect_attempt_count += 1, which wraps as a u32 does
unfoldable pub count_attempt : TcpClient → TcpClient
count_attempt c = record c { reconnect_attempt_count = (c.reconnect_attempt_count + 1) % 2 ^ 32 }

unfoldable pub delay_connect : (ℕ → F64 → ℕ) → ℕ → TcpClient → TcpClient
delay_connect grow subsec_nanos c =
    let (delay, backoff) = next_duration grow subsec_nanos c.backoff in
    record c { backoff = backoff; controller = connecting delay }

-- The start of `reconnect`, once the attempt is counted.
unfoldable pub reconnect_starts : (ℕ → F64 → ℕ) → ℕ → Option ℕ → TcpClient → TcpClient
unfolding reconnect_failed delay_connect
reconnect_starts grow subsec_nanos none c = delay_connect grow subsec_nanos c
reconnect_starts grow subsec_nanos (some max_attempts) c =
    if ltb max_attempts c.reconnect_attempt_count
    then reconnect_failed (some max_attempts) c
    else delay_connect grow subsec_nanos c

-- The branch for a disconnect of the controller.
unfoldable pub shut_down : TcpClient → TcpClient
shut_down c = record c {
  heartbeat = none;
  read_task = none;
  write_task = ended;
  queue = [];
  mode = closed;
  controller = finished;
  log = disconnected ∷ c.log;
}

-- The controller after `select!`.
unfoldable pub wake : (ℕ → F64 → ℕ) → ℕ → Controller → ConnectionMode → TcpClient → TcpClient
unfolding shut_down reconnect_starts count_attempt
wake grow subsec_nanos selecting disconnect c = shut_down c
wake grow subsec_nanos selecting reconnect c =
    reconnect_starts grow subsec_nanos c.reconnect_max_attempts (count_attempt c)
wake grow subsec_nanos controller mode c = c

-- The new writer is in the channel, or the channel is closed.
unfoldable pub swap_writer : Stream → Result String (List WriterCommand) → TcpClient → TcpClient
unfolding reconnect_failed
swap_writer stream (ok queue) c = record c { queue = queue; controller = swapping stream }
swap_writer stream (err e) c = reconnect_failed c.reconnect_max_attempts c

-- `reconnect` once the connect is answered (or timed out).
unfoldable pub connect_answered : Result Failure Stream → Controller → TcpClient → TcpClient
unfolding reconnect_failed enqueue swap_writer
connect_answered (err e) (connecting delay) c = reconnect_failed c.reconnect_max_attempts c
connect_answered (ok stream) (connecting delay) c =
    swap_writer stream (enqueue c.write_task (update stream) c.queue) c
connect_answered answer controller c = c

-- Whether the writer task has not yet taken the new writer.
unfoldable pub awaits_ack : List WriterCommand → Bool
awaits_ack [] = false
awaits_ack (update stream ∷ queue) = true
awaits_ack (send payload ∷ queue) = awaits_ack queue

unfoldable pub replay : WriteTask → List Bytes → List WriterCommand → List WriterCommand
unfolding enqueue
replay task [] queue = queue
replay task (payload ∷ payloads) queue = elim (enqueue task (send payload) queue) [
  | ok queue' ↦ replay task payloads queue'
  | err e ↦ queue
]

-- The rest of `reconnect`, with the payloads that are to be replayed at that moment.
unfoldable pub swapped : List Bytes → Controller → TcpClient → TcpClient
unfolding awaits_ack replay
swapped payloads (swapping stream) c = if awaits_ack c.queue then c else record c {
  read_task = some stream;
  backoff = reset c.backoff;
  reconnect_attempt_count = 0;
  mode = active;
  queue = replay c.write_task payloads c.queue;
  controller = selecting;
  log = connected stream payloads ∷ c.log;
}
swapped payloads controller c = c

-- `close` up to its wait, and what it does when the wait is over, with a closed client or by its time
-- limit.
unfoldable pub close_starts : TcpClient → TcpClient
close_starts c = record c { mode = disconnect }

unfoldable pub close_ends : TcpClient → TcpClient
close_ends c = record c { mode = closed; controller = finished }

-- What connect_url leaves, on the stream that it got.
unfoldable pub start : Option Bytes → Option ℕ → ExponentialBackoff → Stream → TcpClient
start heartbeat limit backoff stream = record {
  mode = active;
  queue = [];
  write_task = receiving stream;
  read_task = some stream;
  heartbeat = heartbeat;
  controller = selecting;
  reconnect_max_attempts = limit;
  reconnect_attempt_count = 0;
  backoff = backoff;
  log = connected stream [] ∷ [];
}

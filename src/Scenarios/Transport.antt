-- ===== src/Scenarios/Transport.antt =====
-- The theorems on frames, on the reconnecting client and on the quote client at concrete inputs.
use ctp_system.Prelude.{
  ℕ, ◌≡◌, refl, String, true, none, some, List, [], ◌∷◌, ◌++◌, length, ltb, Result, ok, err, arith,
  if◌then◌else◌,
}
use ctp_system.Network.SendError
use ctp_system.Network.Backoff.{ExponentialBackoff, max}
use ctp_system.Network.Frame.{
  Bytes, to_be_bytes, frames, ReadEnd, read_length_failed, read_payload_failed, run_read_loop,
}
use ctp_system.Network.Frame.RoundTrip.{run_read_loop-frames, run_read_loop_ends}
use ctp_system.Network.TcpClient.{Stream, start, close_ends}
use ctp_system.Network.TcpClient.Send.{send_bytes}
use ctp_system.Network.TcpClient.Run.{
  Action, reader_ends, writer_receives, writer_writes, controller_wakes, connect_answers,
  writer_swapped, sends, run,
}
use ctp_system.Network.TcpClient.Replay.{Frames, on, stream_of, replayed, since}
use ctp_system.Network.TcpClient.Replay.History.{came, run-start, run_flushed}
use ctp_system.Network.TcpClient.Closed.{send_bytes-close_ends}
use ctp_system.Network.TcpClient.Connect.{dial, first_stream, dial_ends}
use ctp_system.Network.QuoteClient
use ctp_system.Network.QuoteClient.{CtpClientConfig, connect}
use ctp_system.Network.QuoteClient.Delivery
use ctp_system.Network.QuoteClient.Delivery.{
  Step, connects, receives, disconnects, IsDelivered, events_of, run-connect-IsDelivered,
}

abbrev payloads : List Bytes
payloads = (1 ∷ 2 ∷ []) ∷ [] ∷ []

-- The frame of the payload 7, 8 without its last byte.
abbrev partial : Bytes
partial = 0 ∷ 0 ∷ 0 ∷ 2 ∷ 7 ∷ []

run_read_loop-frames_example :
    run_read_loop 40 (frames payloads ++ partial)
    ≡ some (payloads, if ltb (length partial) 4 then read_length_failed else read_payload_failed)
unfolding frames to_be_bytes
run_read_loop-frames_example =
    run_read_loop-frames payloads (7 ∷ 8 ∷ []) partial [] 8 40 (omega arith, (omega arith, tt))
      (omega arith) refl (omega arith)

run_read_loop_ends_example :
    (r : List Bytes × ReadEnd) × (run_read_loop 6 (0 ∷ 0 ∷ 0 ∷ 1 ∷ 9 ∷ []) ≡ some r)
run_read_loop_ends_example = run_read_loop_ends 6 (0 ∷ 0 ∷ 0 ∷ 1 ∷ 9 ∷ []) (omega arith)

abbrev pub backoff : ExponentialBackoff
backoff = record {
  delay_initial = 500000000;
  delay_max = 30000000000;
  delay_current = 500000000;
  factor = 0x4000000000000000;
  jitter_ms = 250;
  immediate_reconnect = true;
}

abbrev pub grow : ℕ → ℕ → ℕ
grow current factor = 1000

-- A payload goes out, the connection breaks, and two payloads are replayed on the next one.
abbrev history : List Action
history =
    sends (5 ∷ [])
    ∷ writer_receives
    ∷ writer_writes true
    ∷ reader_ends
    ∷ controller_wakes 7
    ∷ connect_answers (ok 2)
    ∷ writer_receives
    ∷ writer_swapped ((1 ∷ []) ∷ (2 ∷ []) ∷ [])
    ∷ writer_receives
    ∷ writer_writes true
    ∷ writer_receives
    ∷ writer_writes true
    ∷ []

run-start_example :
    let log = (run grow history (start none none backoff 1)).log in
    (rest : Frames) × (since log ++ rest
      ≡ on (stream_of log) (replayed log ++ came grow history (start none none backoff 1) []))
run-start_example = run-start grow none none backoff 1 history

run_flushed_example :
    let log = (run grow history (start none none backoff 1)).log in
    since log
    ≡ on (stream_of log) (replayed log ++ came grow history (start none none backoff 1) [])
unfolding run start
run_flushed_example = run_flushed grow none none backoff 1 2 history refl refl refl

send_bytes-close_ends_example :
    send_bytes [] (5 ∷ []) (run grow history (close_ends (start none none backoff 1)))
    ≡ (err SendError.closed, run grow history (close_ends (start none none backoff 1)))
send_bytes-close_ends_example =
    send_bytes-close_ends grow history [] (5 ∷ []) (start none none backoff 1)

abbrev refused : List (Result String Stream)
refused = err "refused" ∷ err "refused" ∷ ok 1 ∷ []

dial_ends_example :
    dial "127.0.0.1:9000" 2 0 refused ≡ some (first_stream "127.0.0.1:9000" 2 (max 1 2) refused "")
dial_ends_example = dial_ends "127.0.0.1:9000" 2 refused (omega arith)

abbrev quotes : CtpClientConfig
quotes = QuoteClient.new "thostmduserapi_se.so" "tcp://182.254.243.31:30011"

abbrev steps : List Step
steps = connects ∷ disconnects 4097 ∷ receives ∷ connects ∷ []

run-connect-IsDelivered_example :
    IsDelivered
      (events_of steps)
      (Delivery.run steps (record { shared = connect quotes; received = [] })).received
      (Delivery.run steps (record { shared = connect quotes; received = [] })).shared
run-connect-IsDelivered_example = run-connect-IsDelivered quotes steps

-- ===== src/Network/TcpClient/Run.antt =====
-- What the tasks of a client, its callers and the network do, one action after the other.
use ctp_system.Prelude.{ℕ, Bool, List, [], ◌∷◌, Result}
use ctp_system.Protocol.{Failure}
use ctp_system.Model.Types.{F64}
use ctp_system.Network.Frame.{Bytes}
use ctp_system.Network.TcpClient.{
  Stream, TcpClient, reading_ends, write_loop, frame_written, tick, wake, connect_answered, swapped,
  close_starts, close_ends,
}
use ctp_system.Network.TcpClient.Send.{send_bytes}

pub data Action : Type 0 where
  -- the reader reads to its end, the writer takes a command, a frame is written or fails
  reader_ends : Action
  writer_receives : Action
  writer_writes : Bool → Action
  heart_beats : Action
  -- the controller: with the nanoseconds of the clock, what the connect answers, what is replayed
  controller_wakes : ℕ → Action
  connect_answers : Result Failure Stream → Action
  writer_swapped : List Bytes → Action
  -- the callers
  sends : Bytes → Action
  close_called : Action
  close_returns : Action

module _ (grow : ℕ → F64 → ℕ) where
  unfoldable pub act : Action → TcpClient → TcpClient
  unfolding reading_ends write_loop frame_written tick wake connect_answered swapped close_starts
      close_ends send_bytes
  act reader_ends c = reading_ends c.read_task c
  act writer_receives c = write_loop c
  act (writer_writes success) c = frame_written success c.write_task c
  act heart_beats c = tick c.heartbeat c
  act (controller_wakes nanos) c = wake grow nanos c.controller c.mode c
  act (connect_answers answer) c = connect_answered answer c.controller c
  act (writer_swapped payloads) c = swapped payloads c.controller c
  act (sends payload) c = (send_bytes [] payload c).1
  act close_called c = close_starts c
  act close_returns c = close_ends c

  unfoldable pub run : List Action → TcpClient → TcpClient
  unfolding act
  run [] c = c
  run (action ∷ actions) c = run actions (act action c)

-- ===== src/Client/Trading/Greeting.antt =====
-- A trading client together with the tasks of its connection, and what they keep.
pub mod Carry
pub mod First
use ctp_system.Prelude.{ℕ, ◌≡◌, refl, Option, none, some, List, [], ◌∷◌, ok, ◌⊎◌}
use ctp_system.Model.Types.{F64, ClientId, RequestId, DateTime}
use ctp_system.Protocol.{Message}
use ctp_system.Network.Frame.{Bytes}
use ctp_system.Network.TcpClient.{TcpClient, Event, WriteTask}
use ctp_system.Network.TcpClient.Run.{
  Action, reader_ends, writer_receives, writer_writes, heart_beats, controller_wakes,
  connect_answers, writer_swapped, sends, close_called, close_returns, act,
}
use ctp_system.Network.TcpClient.Replay.{Sound, replayed}
use ctp_system.Network.TcpClient.Log.{replays}
use ctp_system.Client.{ClientConnection, Encoder}
use ctp_system.Client.Trading.{TradingClient, Stamps, envelope}
use ctp_system.Client.Trading.Calls.{Call, perform}

-- A call that is made with these stamps, or an action of the connection, where what is replayed are
-- the payloads of the connection at that moment.
pub data Happening : Type 0 where
  calls : Stamps → Call → Happening
  acts : Action → Happening

unfoldable pub with_payloads : List Bytes → Action → Action
with_payloads payloads (writer_swapped old) = writer_swapped payloads
with_payloads payloads action = action

pub replays-with_payloads :
    (payloads : List Bytes) (action : Action)
    → replays (with_payloads payloads action) payloads ≡ payloads
unfolding with_payloads
replays-with_payloads payloads (writer_swapped old) = refl
replays-with_payloads payloads reader_ends = refl
replays-with_payloads payloads writer_receives = refl
replays-with_payloads payloads (writer_writes success) = refl
replays-with_payloads payloads heart_beats = refl
replays-with_payloads payloads (controller_wakes nanos) = refl
replays-with_payloads payloads (connect_answers answer) = refl
replays-with_payloads payloads (sends payload) = refl
replays-with_payloads payloads close_called = refl
replays-with_payloads payloads close_returns = refl

module _ (grow : ℕ → F64 → ℕ) (to_vec : Encoder) where
  unfoldable pub act_on : Action → Option ClientConnection → Option ClientConnection
  act_on action none = none
  act_on action (some c) =
      some
        (record c { transport = act grow (with_payloads c.reconnect_payloads action) c.transport })

  unfoldable pub step : Happening → TradingClient → TradingClient
  unfolding act_on with_payloads perform act
  step (calls stamps call) c = (perform to_vec call stamps [] c).1
  step (acts action) c = record c { connection = act_on action c.connection }

  unfoldable pub run : List Happening → TradingClient → TradingClient
  unfolding step
  run [] c = c
  run (happening ∷ happenings) c = run happenings (step happening c)

module _ (to_vec : Encoder) where
  -- A payload that is a hello of the client.
  abbrev pub IsHello : ClientId → Bytes → Type 0
  IsHello client_id payload =
      (stamp : RequestId × DateTime) × (to_vec (envelope stamp (Message.hello client_id) client_id)
        ≡ ok payload)

  abbrev pub Greets : ClientId → List Bytes → Type 0
  Greets client_id payloads =
      (payload : Bytes) × (rest : List Bytes) × IsHello client_id payload
      × (payloads ≡ payload ∷ rest)

  -- No reconnect yet, or one that replayed a hello first.
  abbrev pub Greeted : ClientId → WriteTask → List Event → Type 0
  Greeted client_id task log = (replayed log ≡ []) ⊎ Greets client_id (replayed log)

  -- What holds of the transport, and of the whole connection once a hello is to be replayed.
  abbrev pub IsCarrying : ClientId → TcpClient → Type 0
  IsCarrying client_id t =
      ((later : List Bytes) × Sound later t) × Greeted client_id t.write_task t.log

  abbrev pub IsCarried : ClientId → Option ClientConnection → Type 0
  IsCarried client_id none = Unit {0}
  IsCarried client_id (some c) = IsCarrying client_id c.transport

  abbrev pub IsGreeting : ClientId → Option ClientConnection → Type 0
  IsGreeting client_id none = Unit {0}
  IsGreeting client_id (some c) =
      IsCarrying client_id c.transport × Greets client_id c.reconnect_payloads

  abbrev pub Greeting : TradingClient → Type 0
  Greeting c = IsGreeting c.client_id c.connection

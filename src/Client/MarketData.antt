-- ===== src/Client/MarketData.antt =====
-- crates/client/src/market_data.rs, with the arguments of a call as in Client.Trading.
pub mod Restore
pub mod Replay
use Prim.Native.Nat.{Ordering}
use Prim.Native.String.{compare}
use ctp_system.Prelude.{
  String, Bool, true, false, Option, none, some, List, [], ◌∷◌, Result, ok, err, Exec, ◌>>◌, modify,
  ◌==◌, string_eq, if◌then◌else◌, is_empty,
}
use ctp_system.Model.Types.{ClientId, InstrumentId, RequestId, DateTime}
use ctp_system.Protocol.{Envelope, Message}
use ctp_system.Network.SendError.{SendError}
use ctp_system.Network.TcpClient.Connect.{ConnectError}
use ctp_system.Network.TcpClient.{TcpClient}
use ctp_system.Client
use ctp_system.Client.{ClientConnection, Encoder, Wakes, received, close_on, send_on, update_on}
use ctp_system.Client.Trading.{Stamps, envelope, ClientError, connecting, sending}

-- The BTreeMap from the text of an instrument to the instrument: its values, in the order of keys.
abbrev pub InstrumentMap : Type 0
InstrumentMap = List InstrumentId

before : String → String → Bool
before a b = elim (compare a b) [ Ordering.lt ↦ true | _ ↦ false ]

unfoldable pub insert : InstrumentId → InstrumentMap → InstrumentMap
unfolding before
insert i [] = i ∷ []
insert i (j ∷ m) =
    let rest = insert i m in if j == i then i ∷ m else if before i j then i ∷ j ∷ m else j ∷ rest

unfoldable pub remove : InstrumentId → InstrumentMap → InstrumentMap
remove i [] = []
remove i (j ∷ m) = let rest = remove i m in if j == i then rest else j ∷ rest

unfoldable pub insert_all : List InstrumentId → InstrumentMap → InstrumentMap
unfolding insert
insert_all [] m = m
insert_all (i ∷ is) m = insert_all is (insert i m)

unfoldable pub remove_all : List InstrumentId → InstrumentMap → InstrumentMap
unfolding remove
remove_all [] m = m
remove_all (i ∷ is) m = remove_all is (remove i m)

pub record MarketDataClient : Type 0 where
  pub client_id : ClientId
  pub server_addr : String
  pub connection : Option ClientConnection
  pub subscriptions : InstrumentMap

unfoldable pub new : ClientId → String → MarketDataClient
new client_id server_addr = record {
  client_id = client_id;
  server_addr = server_addr;
  connection = none;
  subscriptions = [];
}

unfoldable pub hello_envelope : RequestId × DateTime → MarketDataClient → Envelope
unfolding envelope
hello_envelope stamp c = envelope stamp (Message.market_data_hello c.client_id) c.client_id

-- `reconnect_envelopes`
unfoldable pub subscribe_envelopes : RequestId × DateTime → InstrumentMap → ClientId → List Envelope
unfolding envelope
subscribe_envelopes stamp m client_id =
    if is_empty m then [] else envelope stamp (Message.subscribe_market_data m) client_id ∷ []

unfoldable pub reconnect_envelopes : Stamps → MarketDataClient → List Envelope
unfolding hello_envelope subscribe_envelopes
reconnect_envelopes stamps c =
    hello_envelope (stamps 1) c ∷ subscribe_envelopes (stamps 2) c.subscriptions c.client_id

abbrev pub Subscribing : Type 0
Subscribing = Exec SendError MarketDataClient (Unit {0})

unfoldable pub from_sending :
    Result SendError (Unit {0}) × MarketDataClient
    → Result ClientError (Unit {0}) × MarketDataClient
from_sending (ok _, c) = (ok tt, c)
from_sending (err e, c) = (err (sending e), c)

module _ (to_vec : Encoder) (stamps : Stamps) (wakes : Wakes) where
  unfoldable pub send_envelope : Envelope → Subscribing
  unfolding send_on
  send_envelope e c =
      let (result, connection) = send_on to_vec wakes e c.connection in
      (result, record c { connection = connection })

  unfoldable pub update_reconnect_envelopes : Subscribing
  unfolding update_on reconnect_envelopes
  update_reconnect_envelopes c =
      let (result, connection) = update_on to_vec (reconnect_envelopes stamps c) c.connection in
      (result, record c { connection = connection })

  unfoldable pub send_hello : Subscribing
  unfolding hello_envelope send_envelope
  send_hello c = send_envelope (hello_envelope (stamps 0) c) c

  unfoldable pub request : Message → Subscribing
  unfolding envelope send_envelope
  request message c = send_envelope (envelope (stamps 0) message c.client_id) c

  unfoldable pub subscribe : List InstrumentId → Subscribing
  unfolding request insert_all update_reconnect_envelopes
  subscribe instruments =
      request (Message.subscribe_market_data instruments)
      >> modify (λ c. record c { subscriptions = insert_all instruments c.subscriptions })
      >> update_reconnect_envelopes

  unfoldable pub unsubscribe : List InstrumentId → Subscribing
  unfolding request remove_all update_reconnect_envelopes
  unsubscribe instruments =
      request (Message.unsubscribe_market_data instruments)
      >> modify (λ c. record c { subscriptions = remove_all instruments c.subscriptions })
      >> update_reconnect_envelopes

  unfoldable pub connect :
      Result ConnectError TcpClient
      → MarketDataClient
      → Result ClientError (Unit {0}) × MarketDataClient
  unfolding send_hello update_reconnect_envelopes Client.new from_sending
  connect (err e) c = (err (connecting e), c)
  connect (ok transport) c = from_sending (
      (send_hello >> update_reconnect_envelopes)
        (record c { connection = some (Client.new transport) }))

-- `try_recv`, and `recv` where an envelope is there or there is no connection.
unfoldable pub recv : MarketDataClient → Option Envelope × MarketDataClient
unfolding received
recv c = let (e, connection) = received c.connection in (e, record c { connection = connection })

unfoldable pub close : (TcpClient → TcpClient) → MarketDataClient → MarketDataClient
unfolding close_on
close others c = record c { connection = close_on others c.connection }

-- ===== src/Client/Trading.antt =====
-- crates/client/src/trading.rs. The arguments of a call beside its own: `serde_json::to_vec`, the ids
-- and times of the envelopes that it makes, and how others wake it while it waits to send.
pub mod Calls
pub mod Replay
pub mod Greeting
use ctp_system.Prelude.{
  ℕ, String, Option, none, some, List, [], ◌∷◌, Result, ok, err, Exec, ◌>>◌, modify,
}
use ctp_system.Model.Types.{
  ClientId, AccountId, InstrumentId, RequestId, DateTime, AccountCredentials, OrderRequest,
  CancelRequest,
}
use ctp_system.Protocol
use ctp_system.Protocol.{Envelope, Message, with_client}
use ctp_system.Network.SendError.{SendError}
use ctp_system.Network.TcpClient.Connect.{ConnectError}
use ctp_system.Network.TcpClient.{TcpClient}
use ctp_system.Client
use ctp_system.Client.{ClientConnection, Encoder, Wakes, received, close_on, send_on, update_on}

pub record TradingClient : Type 0 where
  pub client_id : ClientId
  pub server_addr : String
  pub connection : Option ClientConnection
  pub login_credentials : Option AccountCredentials

unfoldable pub new : ClientId → String → TradingClient
new client_id server_addr = record {
  client_id = client_id;
  server_addr = server_addr;
  connection = none;
  login_credentials = none;
}

-- The id and the time of each envelope that a call makes, the one that it sends first.
abbrev pub Stamps : Type 0
Stamps = ℕ → RequestId × DateTime

-- Envelope::new(..).with_client(self.client_id.clone())
unfoldable pub envelope : RequestId × DateTime → Message → ClientId → Envelope
unfolding Protocol.new with_client
envelope (request_id, ts) message client_id =
    with_client (Protocol.new request_id ts message) client_id

unfoldable pub hello_envelope : RequestId × DateTime → TradingClient → Envelope
unfolding envelope
hello_envelope stamp c = envelope stamp (Message.hello c.client_id) c.client_id

-- `reconnect_envelopes`
unfoldable pub login_envelopes :
    RequestId × DateTime → Option AccountCredentials → ClientId → List Envelope
unfolding envelope
login_envelopes stamp none client_id = []
login_envelopes stamp (some credentials) client_id =
    envelope stamp (Message.account_login credentials) client_id ∷ []

unfoldable pub reconnect_envelopes : Stamps → TradingClient → List Envelope
unfolding hello_envelope login_envelopes
reconnect_envelopes stamps c =
    hello_envelope (stamps 1) c ∷ login_envelopes (stamps 2) c.login_credentials c.client_id

-- `connect` fails with an error of the connect or of a send.
pub data ClientError : Type 0 where
  connecting : ConnectError → ClientError
  sending : SendError → ClientError

abbrev pub Trading : Type 0
Trading = Exec SendError TradingClient (Unit {0})

unfoldable pub from_sending :
    Result SendError (Unit {0}) × TradingClient → Result ClientError (Unit {0}) × TradingClient
from_sending (ok _, c) = (ok tt, c)
from_sending (err e, c) = (err (sending e), c)

module _ (to_vec : Encoder) (stamps : Stamps) (wakes : Wakes) where
  unfoldable pub send_envelope : Envelope → Trading
  unfolding send_on
  send_envelope e c =
      let (result, connection) = send_on to_vec wakes e c.connection in
      (result, record c { connection = connection })

  unfoldable pub update_reconnect_envelopes : Trading
  unfolding update_on reconnect_envelopes
  update_reconnect_envelopes c =
      let (result, connection) = update_on to_vec (reconnect_envelopes stamps c) c.connection in
      (result, record c { connection = connection })

  unfoldable pub send_hello : Trading
  unfolding hello_envelope send_envelope
  send_hello c = send_envelope (hello_envelope (stamps 0) c) c

  -- Sending one message under the client's id.
  unfoldable pub request : Message → Trading
  unfolding envelope send_envelope
  request message c = send_envelope (envelope (stamps 0) message c.client_id) c

  unfoldable pub login_account : AccountCredentials → Trading
  unfolding request update_reconnect_envelopes
  login_account credentials =
      request (Message.account_login credentials)
      >> modify (λ c. record c { login_credentials = some credentials })
      >> update_reconnect_envelopes

  unfoldable pub logout_account : AccountId → Trading
  unfolding request update_reconnect_envelopes
  logout_account account_id =
      request (Message.account_logout account_id)
      >> modify (λ c. record c { login_credentials = none })
      >> update_reconnect_envelopes

  unfoldable pub place_order : OrderRequest → Trading
  unfolding request
  place_order order = request (Message.place_order order)

  unfoldable pub cancel_order : CancelRequest → Trading
  unfolding request
  cancel_order cancel = request (Message.cancel_order cancel)

  unfoldable pub query_account : AccountId → Trading
  unfolding request
  query_account account_id = request (Message.query_account account_id)

  unfoldable pub query_position : AccountId → Option InstrumentId → Trading
  unfolding request
  query_position account_id instrument_id =
      request (Message.query_position account_id instrument_id)

  unfoldable pub query_orders : AccountId → Trading
  unfolding request
  query_orders account_id = request (Message.query_orders account_id)

  unfoldable pub query_trades : AccountId → Trading
  unfolding request
  query_trades account_id = request (Message.query_trades account_id)

  -- With what `ClientConnection::connect` answers.
  unfoldable pub connect :
      Result ConnectError TcpClient → TradingClient → Result ClientError (Unit {0}) × TradingClient
  unfolding send_hello update_reconnect_envelopes Client.new from_sending
  connect (err e) c = (err (connecting e), c)
  connect (ok transport) c =
      let connected = record c { connection = some (Client.new transport) } in
      from_sending ((send_hello >> update_reconnect_envelopes) connected)

-- `try_recv`, and `recv` where an envelope is there or there is no connection.
unfoldable pub recv : TradingClient → Option Envelope × TradingClient
unfolding received
recv c = let (e, connection) = received c.connection in (e, record c { connection = connection })

unfoldable pub close : (TcpClient → TcpClient) → TradingClient → TradingClient
unfolding close_on
close others c = record c { connection = close_on others c.connection }

-- ===== src/Gateway.antt =====
-- crates/server/src/adapter/internal/tcp_server.rs: what the server does with one envelope.
pub mod Authorised
pub mod Connection
pub mod Writer
use ctp_system.Prelude.{
  ℕ, String, Bool, true, false, Option, none, some, List, Result, ok, err, Exec, pure, fail, modify,
  ◌>>=◌, ◌>>◌, if◌then◌else◌,
}
use ctp_system.Model.Types.{I32, ClientId, DateTime, AccountState}
use ctp_system.Protocol.{
  Failure, text, channel_closed, Envelope, Message, hello, account_login, account_logout,
  market_data_hello, subscribe_market_data, unsubscribe_market_data, place_order, cancel_order,
  query_account, query_position, query_orders, query_trades, hello_ack, account_state_update,
}
use ctp_system.Server
use ctp_system.Server.{Server, EnvelopeTx, SocketAddr, ServerActorState}
use ctp_system.Routing
use ctp_system.MarketData
use ctp_system.TradeActor.{neg}

pub data TcpEndpointKind : Type 0 where
  trading market_data : TcpEndpointKind

-- The `send` of this file, which fails where the client's receiver is gone.
unfoldable pub send : EnvelopeTx → Message → Exec Failure Server (Unit {0})
unfolding Server.send
send tx message w =
    if w.is_open tx
    then (ok tt, Server.send tx message w)
    else (err (channel_closed "client outbound channel closed"), w)

unfoldable pub send_error : EnvelopeTx → I32 → Failure → Exec Failure Server (Unit {0})
unfolding send
send_error tx code message = send tx (Message.error (record { code = code; message = message }))

on_state : (ServerActorState → ServerActorState) → Server → Server
on_state f w = record w { state = f w.state }

-- let Some(client_id) = envelope.client_id else { send_error(..)?; return Ok(()) };
with_client :
    EnvelopeTx
    → String
    → Option ClientId
    → (ClientId → Exec Failure Server (Unit {0}))
    → Exec Failure Server (Unit {0})
unfolding send_error
with_client tx missing none handle = send_error tx (neg 1) (text missing)
with_client tx missing (some client_id) handle = handle client_id

-- if let Err(e) = request { send_error(&outbound_tx, -10, &e.to_string())?; }
report : EnvelopeTx → Exec Failure Server (Unit {0}) → Exec Failure Server (Unit {0})
unfolding send_error
report tx request w =
    let (result, w') = request w in
    elim result [ ok _ ↦ (ok tt, w') | err e ↦ send_error tx (neg 10) e w' ]

-- The reply of an account login.
report_login : EnvelopeTx → Exec Failure Server AccountState → Exec Failure Server (Unit {0})
unfolding send_error send
report_login tx request w =
    let (result, w') = request w in
    elim result [
      | ok update ↦ send tx (account_state_update update) w'
      | err e ↦ send_error tx (neg 20) e w'
    ]

module _ (peer : SocketAddr) (now : DateTime) (tx : EnvelopeTx) where
  unfoldable pub handle_trading : Option ClientId → Message → Exec Failure Server (Unit {0})
  unfolding on_state with_client report report_login send send_error
  handle_trading client (hello client_id) = do
    modify (on_state (Server.register_trading_client client_id peer tx))
    send tx (hello_ack (record { accepted = true; message = "trading client registered" }))
  handle_trading client (account_login credentials) =
      with_client tx "missing client_id for account login" client
        (λ client_id. report_login tx (Routing.bind_account client_id credentials tx now))
  handle_trading client (place_order order) =
      with_client tx "missing client_id for place order" client
        (λ client_id. report tx (Routing.place_order client_id order tx))
  handle_trading client (cancel_order cancel) =
      with_client tx "missing client_id for cancel order" client
        (λ client_id. report tx (Routing.cancel_order client_id cancel tx))
  handle_trading client (query_account account_id) =
      with_client tx "missing client_id for query account" client
        (λ client_id. report tx (Routing.query_account client_id account_id tx))
  handle_trading client (query_position account_id instrument_id) =
      with_client tx "missing client_id for query position" client
        (λ client_id. report tx (Routing.query_position client_id account_id instrument_id tx))
  handle_trading client (query_orders account_id) =
      with_client tx "missing client_id for query orders" client
        (λ client_id. report tx (Routing.query_orders client_id account_id tx))
  handle_trading client (query_trades account_id) =
      with_client tx "missing client_id for query trades" client
        (λ client_id. report tx (Routing.query_trades client_id account_id tx))
  handle_trading client (account_logout account_id) =
      with_client tx "missing client_id for account logout" client
        (λ client_id. report tx (Routing.logout_account client_id account_id tx))
  handle_trading client _ = send_error tx (neg 2) (text "message unsupported on this endpoint")

  unfoldable pub handle_market_data : Option ClientId → Message → Exec Failure Server (Unit {0})
  unfolding on_state with_client send send_error
  handle_market_data client (market_data_hello client_id) = do
    modify (on_state (Server.register_market_data_client client_id peer tx))
    send tx (hello_ack (record { accepted = true; message = "market-data client registered" }))
  handle_market_data client (subscribe_market_data instruments) =
      with_client tx "missing client_id for market-data subscribe" client
        (λ client_id. MarketData.subscribe_exchange_market_data client_id instruments)
  handle_market_data client (unsubscribe_market_data instruments) =
      with_client tx "missing client_id for market-data unsubscribe" client
        (λ client_id. MarketData.unsubscribe_exchange_market_data client_id instruments)
  handle_market_data client _ = send_error tx (neg 2) (text "message unsupported on this endpoint")

  unfoldable pub handle_envelope : TcpEndpointKind → Envelope → Exec Failure Server (Unit {0})
  unfolding handle_trading handle_market_data
  handle_envelope trading envelope = handle_trading envelope.client_id envelope.payload
  handle_envelope market_data envelope = handle_market_data envelope.client_id envelope.payload

-- ===== src/Server.antt =====
-- crates/server/src/actor/common.rs: the state that the server's tasks share, and the pushes to
-- clients. The state stands beside what the tasks have put into channels, newest first. A channel
-- is a number; `is_open` says which still have a receiver, and is the environment's choice.
pub mod Config
use ctp_system.Prelude.{
  ℕ, suc, String, Bool, true, false, Option, none, some, List, [], ◌∷◌, Result, ok, err, Exec,
  if◌then◌else◌, string_eq,
}
use ctp_system.HashMap.{HashMap, get, insert}
use ctp_system.HashSet.{HashSet}
use ctp_system.Model.Enums.{ConnectionState}
use ctp_system.Model.Types.{
  I32, DateTime, ClientId, AccountId, InstrumentId, AccountCredentials, AccountState, OrderRequest,
  CancelRequest,
}
use ctp_system.Model.Ctp.{normalize_order_ref}
use ctp_system.Model.Reports.{
  OrderContext, OrderReport, TradeReport, TimeParser, into_order, into_trade,
}
use ctp_system.Protocol.{Failure, Message, order_update, trade_update}
use ctp_system.Session
use ctp_system.Session.{SessionManager}

-- An unbounded sender: the channel it sends to.
abbrev pub Sender : Type 0
Sender = ℕ

abbrev pub EnvelopeTx : Type 0
EnvelopeTx = Sender

abbrev pub SocketAddr : Type 0
SocketAddr = ℕ

pub record TradingClientActor : Type 0 where
  pub client_id : ClientId
  pub peer : SocketAddr
  pub outbound : EnvelopeTx

pub record MarketDataClientActor : Type 0 where
  pub client_id : ClientId
  pub peer : SocketAddr
  pub outbound : EnvelopeTx

pub data TradeSessionCommand : Type 0 where
  login : AccountCredentials → EnvelopeTx → TradeSessionCommand
  place_order : ClientId → OrderRequest → EnvelopeTx → TradeSessionCommand
  cancel_order : CancelRequest → EnvelopeTx → TradeSessionCommand
  query_account : AccountId → EnvelopeTx → TradeSessionCommand
  query_position : AccountId → Option InstrumentId → EnvelopeTx → TradeSessionCommand
  query_orders : AccountId → EnvelopeTx → TradeSessionCommand
  query_trades : AccountId → EnvelopeTx → TradeSessionCommand
  logout : EnvelopeTx → TradeSessionCommand

pub data MarketDataSessionCommand : Type 0 where
  subscribe : List InstrumentId → MarketDataSessionCommand
  unsubscribe : List InstrumentId → MarketDataSessionCommand

pub record TradeSessionActor : Type 0 where
  pub account_id : AccountId
  pub command_tx : Sender

pub record MarketDataSessionActor : Type 0 where
  pub command_tx : Sender

pub record ServerActorState : Type 0 where
  pub sessions : SessionManager
  pub trading_clients : HashMap String TradingClientActor
  pub market_data_clients : HashMap String MarketDataClientActor
  pub trade_sessions : HashMap String TradeSessionActor
  pub market_data_session : Option MarketDataSessionActor
  pub market_data_subscriptions : HashMap String (HashSet String)

pub record Server : Type 0 where
  pub state : ServerActorState
  pub envelopes : List (EnvelopeTx × Message)
  pub trade_commands : List (Sender × TradeSessionCommand)
  pub market_data_commands : List (Sender × MarketDataSessionCommand)
  -- the channel that the next `unbounded_channel` makes
  pub next_channel : Sender
  pub is_open : Sender → Bool

abbrev pub default : ServerActorState
default = record {
  sessions = Session.default;
  trading_clients = [];
  market_data_clients = [];
  trade_sessions = [];
  market_data_session = none;
  market_data_subscriptions = [];
}

unfoldable pub register_trading_client :
    ClientId → SocketAddr → EnvelopeTx → ServerActorState → ServerActorState
register_trading_client client_id peer outbound s = record s {
  sessions = Session.register_client client_id s.sessions;
  trading_clients =
      insert client_id (record { client_id = client_id; peer = peer; outbound = outbound })
        s.trading_clients;
}

unfoldable pub register_market_data_client :
    ClientId → SocketAddr → EnvelopeTx → ServerActorState → ServerActorState
register_market_data_client client_id peer outbound s = record s {
  market_data_clients =
      insert client_id (record { client_id = client_id; peer = peer; outbound = outbound })
        s.market_data_clients;
}

-- `tx.send(Envelope::new(message))`; a channel without receiver takes nothing. The envelope's
-- fresh id and time are left out.
unfoldable pub send : EnvelopeTx → Message → Server → Server
send tx message w = if w.is_open tx then record w { envelopes = (tx, message) ∷ w.envelopes } else w

push_to : Option TradingClientActor → Message → Server → Server
unfolding send
push_to none message w = w
push_to (some actor) message w = send actor.outbound message w

unfoldable pub push_envelope_to_client : ClientId → Message → Server → Server
unfolding push_to
push_envelope_to_client client_id message w =
    push_to (get client_id w.state.trading_clients) message w

unfoldable pub order_ref_lookup_key : String → String
order_ref_lookup_key client_order_id = normalize_order_ref client_order_id

abbrev pub OrderRegistry : Type 0
OrderRegistry = HashMap String OrderContext

push_order_to : Option OrderContext → OrderReport → DateTime → Server → Server
unfolding push_envelope_to_client
push_order_to none report now w = w
push_order_to (some ctx) report now w =
    push_envelope_to_client ctx.client_id (order_update (into_order report ctx now)) w

unfoldable pub push_order_report : OrderRegistry → OrderReport → DateTime → Server → Server
unfolding push_order_to order_ref_lookup_key
push_order_report registry report now w =
    push_order_to (get (order_ref_lookup_key report.client_order_id) registry) report now w

push_trade_to : TimeParser → Option OrderContext → TradeReport → DateTime → Server → Server
unfolding push_envelope_to_client
push_trade_to parse_time none report now w = w
push_trade_to parse_time (some ctx) report now w =
    push_envelope_to_client ctx.client_id
      (trade_update (into_trade parse_time report ctx.account_id now)) w

context_of : OrderRegistry → Option String → Option OrderContext
context_of registry none = none
context_of registry (some client_order_id) = get (order_ref_lookup_key client_order_id) registry

unfoldable pub push_trade_report :
    TimeParser → OrderRegistry → TradeReport → DateTime → Server → Server
unfolding push_trade_to context_of order_ref_lookup_key
push_trade_report parse_time registry report now w =
    push_trade_to parse_time (context_of registry report.client_order_id) report now w

unfoldable pub update_account_connection_state : AccountId → ConnectionState → Server → Server
update_account_connection_state account_id connection_state w = record w {
  state = record w.state {
    sessions = Session.set_account_state account_id connection_state w.state.sessions;
  };
}

unfoldable pub send_error : EnvelopeTx → I32 → Failure → Server → Server
unfolding send
send_error tx code message w = send tx (Message.error (record { code = code; message = message })) w

unfoldable pub send_account_state : EnvelopeTx → AccountState → Server → Server
unfolding send
send_account_state reply_to state w = send reply_to (Message.account_state_update state) w

abbrev pub account_state : AccountId → ConnectionState → DateTime → AccountState
account_state account_id state now = record {
  account_id = account_id;
  state = state;
  front_id = none;
  session_id = none;
  updated_at = now;
}

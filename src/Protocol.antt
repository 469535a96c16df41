-- ===== src/Protocol.antt =====
-- crates/common/src/protocol.rs: the messages between client and server, and the values of
-- `anyhow::Error` whose rendering an error message is.
use ctp_system.Prelude.{String, Bool, Option, none, some, List}
use ctp_system.Model.Enums.{ClientPermission}
use ctp_system.Model.Types.{
  I32, F64, DateTime, ClientId, AccountId, InstrumentId, RequestId, AccountCredentials,
  AccountState, OrderRequest, CancelRequest, Order, Trade, Position, AccountBalance,
}

-- An error, as the values that its text is formatted from.
pub data Failure : Type 0 where
  -- a text as it stands
  text : String → Failure
  -- client, account, operation, what is required
  permission_error : ClientId → AccountId → String → String → Failure
  -- client, account, operation, the permission held, the access required
  permission_error_with_mode : ClientId → AccountId → String → ClientPermission → String → Failure
  -- "account {account_id} is not logged in"
  not_logged_in : AccountId → Failure
  -- a sender whose receiver is gone
  channel_closed : String → Failure
  -- "{request} returned {rc}"
  api_returned : String → I32 → Failure
  -- "{what}: {error_id} {error_msg}"
  ctp_error : String → I32 → String → Failure
  -- "{what} request_id={request_id}: {error_id} {error_msg}"
  ctp_request_error : String → I32 → I32 → String → Failure
  -- "unknown CTP direction {}" and "unknown position direction {}"
  unknown_direction : String → I32 → Failure

pub record HelloAck : Type 0 where
  pub accepted : Bool
  pub message : String

pub record MarketDataTickMessage : Type 0 where
  pub instrument_id : InstrumentId
  pub exchange_id : String
  pub last_price : F64
  pub volume : I32
  pub turnover : F64
  pub open_interest : F64
  pub bid_price1 : F64
  pub bid_volume1 : I32
  pub ask_price1 : F64
  pub ask_volume1 : I32
  pub update_time : String
  pub update_millisec : I32
  pub trading_day : String

pub record ErrorResponse : Type 0 where
  pub code : I32
  pub message : Failure

-- The request and result structs with one field are that field.
pub data Message : Type 0 where
  hello : ClientId → Message
  account_login : AccountCredentials → Message
  account_logout : AccountId → Message
  market_data_hello : ClientId → Message
  subscribe_market_data : List InstrumentId → Message
  unsubscribe_market_data : List InstrumentId → Message
  place_order : OrderRequest → Message
  cancel_order : CancelRequest → Message
  query_account : AccountId → Message
  query_position : AccountId → Option InstrumentId → Message
  query_orders : AccountId → Message
  query_trades : AccountId → Message
  hello_ack : HelloAck → Message
  account_state_update : AccountState → Message
  market_data_tick : MarketDataTickMessage → Message
  order_update : Order → Message
  trade_update : Trade → Message
  query_account_result : AccountBalance → Message
  query_position_result : List Position → Message
  query_orders_result : List Order → Message
  query_trades_result : List Trade → Message
  error : ErrorResponse → Message

pub record Envelope : Type 0 where
  pub request_id : RequestId
  pub client_id : Option ClientId
  pub ts : DateTime
  pub payload : Message

-- `Envelope::new`; the fresh id and the time come from outside.
unfoldable pub new : RequestId → DateTime → Message → Envelope
new request_id ts payload = record {
  request_id = request_id;
  client_id = none;
  ts = ts;
  payload = payload;
}

unfoldable pub with_client : Envelope → ClientId → Envelope
with_client e client_id = record e { client_id = some client_id }

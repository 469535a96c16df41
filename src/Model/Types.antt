-- ===== src/Model/Types.antt =====
-- crates/model/src/types.rs and identifiers.rs. An `i32` is its 32-bit pattern and an `f64` its
-- 64-bit pattern (the code modelled over these records copies prices and never computes with
-- them); a time is a count of ticks of the clock that the code reads.
use ctp_system.Prelude.{ℕ, String, Option}
use ctp_system.Model.Enums.{Direction, OffsetFlag, OrderType, OrderStatus, ConnectionState}

abbrev pub I32 : Type 0
I32 = ℕ

abbrev pub F64 : Type 0
F64 = ℕ

abbrev pub DateTime : Type 0
DateTime = ℕ

abbrev pub ClientId : Type 0
ClientId = String

abbrev pub AccountId : Type 0
AccountId = String

abbrev pub InstrumentId : Type 0
InstrumentId = String

abbrev pub ClientOrderId : Type 0
ClientOrderId = String

abbrev pub ExchangeOrderId : Type 0
ExchangeOrderId = String

abbrev pub RequestId : Type 0
RequestId = String

pub record AccountCredentials : Type 0 where
  pub account_id : AccountId
  pub password : String
  pub broker_id : String
  pub app_id : String
  pub auth_code : String

pub record AccountState : Type 0 where
  pub account_id : AccountId
  pub state : ConnectionState
  pub front_id : Option I32
  pub session_id : Option I32
  pub updated_at : DateTime

pub record OrderRequest : Type 0 where
  pub client_order_id : ClientOrderId
  pub account_id : AccountId
  pub instrument_id : InstrumentId
  pub direction : Direction
  pub offset : OffsetFlag
  pub order_type : OrderType
  pub volume : I32
  pub price : F64

pub record CancelRequest : Type 0 where
  pub account_id : AccountId
  pub instrument_id : InstrumentId
  pub client_order_id : Option ClientOrderId
  pub exchange_order_id : Option ExchangeOrderId

pub record Order : Type 0 where
  pub client_order_id : ClientOrderId
  pub exchange_order_id : Option ExchangeOrderId
  pub account_id : AccountId
  pub client_id : ClientId
  pub instrument_id : InstrumentId
  pub direction : Direction
  pub offset : OffsetFlag
  pub order_type : OrderType
  pub volume : I32
  pub volume_traded : I32
  pub price : F64
  pub status : OrderStatus
  pub status_msg : Option String
  pub inserted_at : DateTime
  pub updated_at : DateTime

pub record Trade : Type 0 where
  pub trade_id : String
  pub exchange_order_id : ExchangeOrderId
  pub client_order_id : Option ClientOrderId
  pub account_id : AccountId
  pub instrument_id : InstrumentId
  pub direction : Direction
  pub offset : OffsetFlag
  pub price : F64
  pub volume : I32
  pub trade_time : DateTime

pub record Position : Type 0 where
  pub account_id : AccountId
  pub instrument_id : InstrumentId
  pub direction : Direction
  pub volume : I32
  pub yd_volume : I32
  pub open_cost : F64
  pub position_cost : F64
  pub use_margin : F64
  pub unrealized_pnl : F64

pub record AccountBalance : Type 0 where
  pub account_id : AccountId
  pub balance : F64
  pub available : F64
  pub curr_margin : F64
  pub frozen_margin : F64
  pub commission : F64
  pub close_profit : F64
  pub position_profit : F64

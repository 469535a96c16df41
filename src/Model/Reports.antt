-- ===== src/Model/Reports.antt =====
-- crates/model/src/reports.rs. The parser of chrono is a parameter: `parse_time date time` is the
-- time that "%Y%m%d %H:%M:%S" reads in the two texts joined by a blank, if it reads one.
use ctp_system.Prelude.{String, Option, unwrap_or}
use ctp_system.Model.Enums.{Direction, OffsetFlag, OrderType, OrderStatus}
use ctp_system.Model.Types.{
  I32, F64, DateTime, ClientId, AccountId, InstrumentId, ClientOrderId, ExchangeOrderId, Order,
  Trade,
}
use ctp_system.Model.Ctp.{normalize_order_ref}

pub record OrderContext : Type 0 where
  pub client_id : ClientId
  pub client_order_id : ClientOrderId
  pub account_id : AccountId
  pub instrument_id : InstrumentId
  pub direction : Direction
  pub offset : OffsetFlag
  pub order_type : OrderType
  pub price : F64
  pub volume : I32
  pub inserted_at : DateTime

unfoldable pub order_ref_key : OrderContext → String
order_ref_key ctx = normalize_order_ref ctx.client_order_id

pub record OrderReport : Type 0 where
  pub client_order_id : ClientOrderId
  pub exchange_order_id : Option ExchangeOrderId
  pub instrument_id : InstrumentId
  pub direction : Direction
  pub offset : OffsetFlag
  pub price : F64
  pub volume_total : I32
  pub volume_traded : I32
  pub status : OrderStatus
  pub status_msg : Option String
  pub exchange_time : Option String

unfoldable pub into_order : OrderReport → OrderContext → DateTime → Order
into_order report ctx now = record {
  client_order_id = report.client_order_id;
  exchange_order_id = report.exchange_order_id;
  account_id = ctx.account_id;
  client_id = ctx.client_id;
  instrument_id = report.instrument_id;
  direction = report.direction;
  offset = report.offset;
  order_type = ctx.order_type;
  volume = report.volume_total;
  volume_traded = report.volume_traded;
  price = report.price;
  status = report.status;
  status_msg = report.status_msg;
  inserted_at = ctx.inserted_at;
  updated_at = now;
}

pub record TradeReport : Type 0 where
  pub trade_id : String
  pub client_order_id : Option ClientOrderId
  pub exchange_order_id : ExchangeOrderId
  pub instrument_id : InstrumentId
  pub direction : Direction
  pub offset : OffsetFlag
  pub price : F64
  pub volume : I32
  pub trade_date : String
  pub trade_time : String

abbrev pub TimeParser : Type 0
TimeParser = String → String → Option DateTime

unfoldable pub parse_exchange_trade_time : TimeParser → String → String → DateTime → DateTime
parse_exchange_trade_time parse_time trade_date trade_time now =
    unwrap_or (parse_time trade_date trade_time) now

unfoldable pub into_trade : TimeParser → TradeReport → AccountId → DateTime → Trade
unfolding parse_exchange_trade_time
into_trade parse_time report account_id now = record {
  trade_id = report.trade_id;
  exchange_order_id = report.exchange_order_id;
  client_order_id = report.client_order_id;
  account_id = account_id;
  instrument_id = report.instrument_id;
  direction = report.direction;
  offset = report.offset;
  price = report.price;
  volume = report.volume;
  trade_time = parse_exchange_trade_time parse_time report.trade_date report.trade_time now;
}

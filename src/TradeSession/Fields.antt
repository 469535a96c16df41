-- ===== src/TradeSession/Fields.antt =====
-- The CTP structs that the callbacks receive, as far as they are read, and their normal forms:
-- crates/server/src/adapter/exchange/trade.rs (885-962) and mapping.rs. A text field is the result
-- of `try_to_string`, `none` where it fails; a character field is its 8-bit pattern.
use Prim.Native.String
use ctp_system.Prelude.{
  ℕ, String, ◌&&◌, Option, none, some, List, [], ◌∷◌, Result, ok, err, ◌==◌, string_eq,
  if◌then◌else◌, unwrap_or,
}
use ctp_system.Model.Enums.{Direction, limit}
use ctp_system.Model.Types.{
  I32, F64, DateTime, AccountId, ClientId, AccountBalance, Position, Order, Trade,
}
use ctp_system.Model.Ctp.{
  direction_from_ctp, offset_from_ctp, order_status_from_ctp, posi_direction_from_ctp,
}
use ctp_system.Model.Reports.{OrderReport, TradeReport, TimeParser, into_trade}
use ctp_system.Protocol.{Failure, unknown_direction}

abbrev pub Text : Type 0
Text = Option String

pub record RspInfoField : Type 0 where
  pub error_id : I32
  pub error_msg : Text

pub record OrderField : Type 0 where
  pub order_ref : Text
  pub order_sys_id : Text
  pub instrument_id : Text
  pub direction : ℕ
  pub comb_offset_flag : List ℕ
  pub order_status : ℕ
  pub status_msg : Text
  pub insert_date : Text
  pub update_time : Text
  pub limit_price : F64
  pub volume_total_original : I32
  pub volume_traded : I32

pub record TradeField : Type 0 where
  pub order_ref : Text
  pub order_sys_id : Text
  pub instrument_id : Text
  pub direction : ℕ
  pub offset_flag : ℕ
  pub trade_id : Text
  pub price : F64
  pub volume : I32
  pub trade_date : Text
  pub trade_time : Text

pub record TradingAccountField : Type 0 where
  pub account_id : Text
  pub balance : F64
  pub available : F64
  pub curr_margin : F64
  pub frozen_margin : F64
  pub commission : F64
  pub close_profit : F64
  pub position_profit : F64

pub record InvestorPositionField : Type 0 where
  pub instrument_id : Text
  pub investor_id : Text
  pub posi_direction : ℕ
  pub position : I32
  pub yd_position : I32
  pub open_cost : F64
  pub position_cost : F64
  pub use_margin : F64
  pub position_profit : F64

pub record RspUserLoginField : Type 0 where
  -- the result of `to_string`, which does not fail
  pub trading_day : String
  pub front_id : I32
  pub session_id : I32

abbrev pub unwrap_or_default : Text → String
unwrap_or_default t = unwrap_or t ""

-- An empty text is no value.
abbrev pub non_empty : String → Option String
non_empty s = if s == "" then none else some s

unfoldable pub first_char : List ℕ → ℕ
first_char [] = b'0'
first_char (b ∷ bytes) = b

exchange_time : String → String → Option String
exchange_time insert_date update_time =
    if insert_date == "" && update_time == ""
    then none
    else some (String.◌++◌ insert_date (String.◌++◌ " " update_time))

-- The report, once the direction is known.
unfoldable pub report_in : OrderField → Direction → OrderReport
unfolding first_char exchange_time
report_in order direction = record {
  client_order_id = unwrap_or_default order.order_ref;
  exchange_order_id = non_empty (unwrap_or_default order.order_sys_id);
  instrument_id = unwrap_or_default order.instrument_id;
  direction = direction;
  offset = offset_from_ctp (first_char order.comb_offset_flag);
  price = order.limit_price;
  volume_total = order.volume_total_original;
  volume_traded = order.volume_traded;
  status = order_status_from_ctp order.order_status;
  status_msg = non_empty (unwrap_or_default order.status_msg);
  exchange_time =
      exchange_time (unwrap_or_default order.insert_date) (unwrap_or_default order.update_time);
}

unfoldable pub order_field_to_report : OrderField → Result Failure OrderReport
unfolding report_in
order_field_to_report order = elim (direction_from_ctp order.direction) [
  | none ↦ err (unknown_direction "unknown CTP direction" order.direction)
  | some direction ↦ ok (report_in order direction)
]

unfoldable pub trade_field_to_report : TradeField → Result Failure TradeReport
trade_field_to_report trade = elim (direction_from_ctp trade.direction) [
  | none ↦ err (unknown_direction "unknown CTP direction" trade.direction)
  | some direction ↦ ok (record {
    trade_id = unwrap_or_default trade.trade_id;
    client_order_id = non_empty (unwrap_or_default trade.order_ref);
    exchange_order_id = unwrap_or_default trade.order_sys_id;
    instrument_id = unwrap_or_default trade.instrument_id;
    direction = direction;
    offset = offset_from_ctp trade.offset_flag;
    price = trade.price;
    volume = trade.volume;
    trade_date = unwrap_or_default trade.trade_date;
    trade_time = unwrap_or_default trade.trade_time;
  })
]

unfoldable pub trading_account_to_balance : TradingAccountField → AccountBalance
trading_account_to_balance account = record {
  account_id = unwrap_or_default account.account_id;
  balance = account.balance;
  available = account.available;
  curr_margin = account.curr_margin;
  frozen_margin = account.frozen_margin;
  commission = account.commission;
  close_profit = account.close_profit;
  position_profit = account.position_profit;
}

unfoldable pub investor_position_to_position : InvestorPositionField → Result Failure Position
investor_position_to_position pos = elim (posi_direction_from_ctp pos.posi_direction) [
  | none ↦ err (unknown_direction "unknown position direction" pos.posi_direction)
  | some direction ↦ ok (record {
    account_id = unwrap_or_default pos.investor_id;
    instrument_id = unwrap_or_default pos.instrument_id;
    direction = direction;
    volume = pos.position;
    yd_volume = pos.yd_position;
    open_cost = pos.open_cost;
    position_cost = pos.position_cost;
    use_margin = pos.use_margin;
    unrealized_pnl = pos.position_profit;
  })
]

unfoldable pub order_report_to_wire_order : OrderReport → AccountId → ClientId → DateTime → Order
order_report_to_wire_order report account_id client_id now = record {
  client_order_id = report.client_order_id;
  exchange_order_id = report.exchange_order_id;
  account_id = account_id;
  client_id = client_id;
  instrument_id = report.instrument_id;
  direction = report.direction;
  offset = report.offset;
  order_type = limit;
  volume = report.volume_total;
  volume_traded = report.volume_traded;
  price = report.price;
  status = report.status;
  status_msg = report.status_msg;
  inserted_at = now;
  updated_at = now;
}

-- `order_field_to_wire_order` and `trade_field_to_wire_trade`.
unfoldable pub order_field_to_wire_order :
    OrderField → AccountId → ClientId → DateTime → Result Failure Order
unfolding order_field_to_report order_report_to_wire_order
order_field_to_wire_order order account_id client_id now = elim (order_field_to_report order) [
  | ok report ↦ ok (order_report_to_wire_order report account_id client_id now)
  | err e ↦ err e
]

unfoldable pub trade_field_to_wire_trade :
    TimeParser → TradeField → AccountId → DateTime → Result Failure Trade
unfolding trade_field_to_report
trade_field_to_wire_trade parse_time trade account_id now = elim (trade_field_to_report trade) [
  | ok report ↦ ok (into_trade parse_time report account_id now)
  | err e ↦ err e
]

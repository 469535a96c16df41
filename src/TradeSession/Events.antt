-- ===== src/TradeSession/Events.antt =====
-- The events and pending queries of crates/server/src/adapter/exchange/trade.rs.
use ctp_system.Prelude.{String, List}
use ctp_system.Model.Types.{I32, AccountBalance, Position}
use ctp_system.Model.Reports.{OrderReport, TradeReport}

-- The arguments of a constructor are the source's fields, in their order.
pub data TradeSessionEvent : Type 0 where
  front_connected : TradeSessionEvent
  front_disconnected : I32 → TradeSessionEvent
  heart_beat_warning : I32 → TradeSessionEvent
  authenticate_ok : TradeSessionEvent
  authenticate_failed : I32 → String → TradeSessionEvent
  login_ok : String → I32 → I32 → TradeSessionEvent
  login_failed : I32 → String → TradeSessionEvent
  settlement_confirmed : TradeSessionEvent
  settlement_confirm_failed : I32 → String → TradeSessionEvent
  error : I32 → String → I32 → TradeSessionEvent
  order_insert_rejected : I32 → String → TradeSessionEvent
  order_return : OrderReport → TradeSessionEvent
  trade_return : TradeReport → TradeSessionEvent
  query_account_ready : I32 → AccountBalance → TradeSessionEvent
  query_positions_ready : I32 → List Position → TradeSessionEvent
  query_orders_ready : I32 → List OrderReport → TradeSessionEvent
  query_trades_ready : I32 → List TradeReport → TradeSessionEvent
  query_failed : I32 → I32 → String → TradeSessionEvent
  cancel_action_ok : I32 → TradeSessionEvent
  cancel_action_failed : I32 → I32 → String → TradeSessionEvent

pub data PendingQuery : Type 0 where
  account : PendingQuery
  positions : List Position → PendingQuery
  orders : List OrderReport → PendingQuery
  trades : List TradeReport → PendingQuery
  cancel : PendingQuery

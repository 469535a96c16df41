-- ===== src/TradeSession/Callbacks.antt =====
-- The callbacks of crates/server/src/adapter/exchange/trade.rs as a sequence: the CTP thread may
-- interleave the responses to several requests with each other and with pushed reports.
pub mod Pending
pub mod Orders
pub mod Positions
pub mod Trades
pub mod Collect
use ctp_system.Prelude.{ℕ, Bool, true, false, Option, none, some, List, [], ◌∷◌}
use ctp_system.Model.Types.{I32}
use ctp_system.TradeSession.Fields.{
  RspInfoField, OrderField, TradeField, TradingAccountField, InvestorPositionField,
  RspUserLoginField,
}
use ctp_system.TradeSession.Spi
use ctp_system.TradeSession.Spi.{SharedState}

pub data Callback : Type 0 where
  front_connected : Callback
  front_disconnected heart_beat_warning : I32 → Callback
  rsp_authenticate rsp_order_insert err_rtn_order_insert rsp_settlement_info_confirm :
      Option RspInfoField → Callback
  rsp_user_login : Option RspUserLoginField → Option RspInfoField → Callback
  rsp_error rsp_order_action : Option RspInfoField → I32 → Callback
  rtn_order : Option OrderField → Callback
  rtn_trade : Option TradeField → Callback
  rsp_qry_trading_account : Option TradingAccountField → Option RspInfoField → I32 → Bool → Callback
  rsp_qry_investor_position :
      Option InvestorPositionField → Option RspInfoField → I32 → Bool → Callback
  rsp_qry_order : Option OrderField → Option RspInfoField → I32 → Bool → Callback
  rsp_qry_trade : Option TradeField → Option RspInfoField → I32 → Bool → Callback

unfoldable pub call : Callback → SharedState → SharedState
unfolding Spi.on_front_connected Spi.on_front_disconnected Spi.on_heart_beat_warning
    Spi.on_rsp_authenticate Spi.on_rsp_order_insert Spi.on_err_rtn_order_insert
    Spi.on_rsp_settlement_info_confirm Spi.on_rsp_user_login Spi.on_rsp_error
    Spi.on_rsp_order_action Spi.on_rtn_order Spi.on_rtn_trade Spi.on_rsp_qry_trading_account
    Spi.on_rsp_qry_investor_position Spi.on_rsp_qry_order Spi.on_rsp_qry_trade
call front_connected s = Spi.on_front_connected s
call (front_disconnected reason) s = Spi.on_front_disconnected reason s
call (heart_beat_warning time_lapse) s = Spi.on_heart_beat_warning time_lapse s
call (rsp_authenticate info) s = Spi.on_rsp_authenticate info s
call (rsp_order_insert info) s = Spi.on_rsp_order_insert info s
call (err_rtn_order_insert info) s = Spi.on_err_rtn_order_insert info s
call (rsp_settlement_info_confirm info) s = Spi.on_rsp_settlement_info_confirm info s
call (rsp_user_login rsp info) s = Spi.on_rsp_user_login rsp info s
call (rsp_error info request_id) s = Spi.on_rsp_error info request_id s
call (rsp_order_action info request_id) s = Spi.on_rsp_order_action info request_id s
call (rtn_order order) s = Spi.on_rtn_order order s
call (rtn_trade trade) s = Spi.on_rtn_trade trade s
call (rsp_qry_trading_account field info request_id is_last) s =
    Spi.on_rsp_qry_trading_account field info request_id is_last s
call (rsp_qry_investor_position field info request_id is_last) s =
    Spi.on_rsp_qry_investor_position field info request_id is_last s
call (rsp_qry_order field info request_id is_last) s =
    Spi.on_rsp_qry_order field info request_id is_last s
call (rsp_qry_trade field info request_id is_last) s =
    Spi.on_rsp_qry_trade field info request_id is_last s

unfoldable pub run : List Callback → SharedState → SharedState
run [] s = s
run (c ∷ cs) s = run cs (call c s)

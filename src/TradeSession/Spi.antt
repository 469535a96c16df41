-- ===== src/TradeSession/Spi.antt =====
-- The callbacks of crates/server/src/adapter/exchange/trade.rs: what the CTP thread does to the
-- shared state, and the events that it emits, newest first. (The receiver is held by the session
-- itself, so that no send fails.)
use ctp_system.Prelude.{
  String, Bool, Option, none, some, List, [], ◌∷◌, ◌++◌, ok, err, ◌==◌, nat_eq, if◌then◌else◌,
}
use ctp_system.HashMap
use ctp_system.HashMap.{HashMap, get, insert}
use ctp_system.Model.Types.{I32, AccountBalance, Position}
use ctp_system.Model.Reports.{OrderReport, TradeReport}
use ctp_system.TradeSession.Events.{
  TradeSessionEvent, front_connected, front_disconnected, heart_beat_warning, authenticate_ok,
  authenticate_failed, login_ok, login_failed, settlement_confirmed, settlement_confirm_failed,
  order_insert_rejected, order_return, trade_return, query_account_ready, query_positions_ready,
  query_orders_ready, query_trades_ready, query_failed, cancel_action_ok, cancel_action_failed,
  PendingQuery, positions, orders, trades,
}
use ctp_system.TradeSession.Fields.{
  RspInfoField, OrderField, TradeField, TradingAccountField, InvestorPositionField,
  RspUserLoginField, unwrap_or_default, order_field_to_report, trade_field_to_report,
  trading_account_to_balance, investor_position_to_position,
}

pub record SharedState : Type 0 where
  pub pending_queries : HashMap I32 PendingQuery
  pub events : List TradeSessionEvent

unfoldable pub emit : TradeSessionEvent → SharedState → SharedState
emit event s = record s { events = event ∷ s.events }

unfoldable pub register_query : I32 → PendingQuery → SharedState → SharedState
register_query request_id kind s = record s {
  pending_queries = insert request_id kind s.pending_queries;
}

unfoldable pub forget : I32 → SharedState → SharedState
forget request_id s = record s { pending_queries = HashMap.remove request_id s.pending_queries }

unfoldable pub finish_query : I32 → TradeSessionEvent → SharedState → SharedState
unfolding emit forget
finish_query request_id event s = emit event (forget request_id s)

unfoldable pub append_position : I32 → Position → SharedState → SharedState
unfolding register_query
append_position request_id position s = elim (get request_id s.pending_queries) [
  | some (positions items) ↦ register_query request_id (positions (items ++ position ∷ [])) s
  | _ ↦ s
]

unfoldable pub append_order : I32 → OrderReport → SharedState → SharedState
unfolding register_query
append_order request_id order s = elim (get request_id s.pending_queries) [
  | some (orders items) ↦ register_query request_id (orders (items ++ order ∷ [])) s
  | _ ↦ s
]

unfoldable pub append_trade : I32 → TradeReport → SharedState → SharedState
unfolding register_query
append_trade request_id trade s = elim (get request_id s.pending_queries) [
  | some (trades items) ↦ register_query request_id (trades (items ++ trade ∷ [])) s
  | _ ↦ s
]

abbrev pub items_of_positions : Option PendingQuery → List Position
items_of_positions (some (positions items)) = items
items_of_positions _ = []

abbrev pub items_of_orders : Option PendingQuery → List OrderReport
items_of_orders (some (orders items)) = items
items_of_orders _ = []

abbrev pub items_of_trades : Option PendingQuery → List TradeReport
items_of_trades (some (trades items)) = items
items_of_trades _ = []

unfoldable pub take_positions : I32 → SharedState → List Position × SharedState
unfolding forget
take_positions request_id s =
    (items_of_positions (get request_id s.pending_queries), forget request_id s)

unfoldable pub take_orders : I32 → SharedState → List OrderReport × SharedState
unfolding forget
take_orders request_id s = (items_of_orders (get request_id s.pending_queries), forget request_id s)

unfoldable pub take_trades : I32 → SharedState → List TradeReport × SharedState
unfolding forget
take_trades request_id s = (items_of_trades (get request_id s.pending_queries), forget request_id s)

-- The error of a response, if it reports one: a code other than 0, and its text.
abbrev pub rsp_error : Option RspInfoField → Option (I32 × String)
rsp_error none = none
rsp_error (some info) =
    if info.error_id == 0 then none else some (info.error_id, unwrap_or_default info.error_msg)

unfoldable pub query_error : I32 → I32 × String → SharedState → SharedState
unfolding finish_query
query_error request_id (error_id, error_msg) s =
    finish_query request_id (query_failed request_id error_id error_msg) s

unfoldable pub on_front_connected : SharedState → SharedState
unfolding emit
on_front_connected s = emit front_connected s

unfoldable pub on_front_disconnected : I32 → SharedState → SharedState
unfolding emit
on_front_disconnected reason s = emit (front_disconnected reason) s

unfoldable pub on_heart_beat_warning : I32 → SharedState → SharedState
unfolding emit
on_heart_beat_warning time_lapse s = emit (heart_beat_warning time_lapse) s

unfoldable pub on_rsp_authenticate : Option RspInfoField → SharedState → SharedState
unfolding emit
on_rsp_authenticate info s = elim (rsp_error info) [
  | some (error_id, msg) ↦ emit (authenticate_failed error_id msg) s
  | none ↦ emit authenticate_ok s
]

abbrev login_event : Option RspUserLoginField → TradeSessionEvent
login_event none = login_ok "" 0 0
login_event (some r) = login_ok r.trading_day r.front_id r.session_id

unfoldable pub on_rsp_user_login :
    Option RspUserLoginField → Option RspInfoField → SharedState → SharedState
unfolding emit
on_rsp_user_login rsp info s = elim (rsp_error info) [
  | some (error_id, msg) ↦ emit (login_failed error_id msg) s
  | none ↦ emit (login_event rsp) s
]

unfoldable pub on_rsp_error : Option RspInfoField → I32 → SharedState → SharedState
unfolding emit
on_rsp_error none request_id s = s
on_rsp_error (some info) request_id s =
    emit (TradeSessionEvent.error info.error_id (unwrap_or_default info.error_msg) request_id) s

unfoldable pub on_rsp_order_insert : Option RspInfoField → SharedState → SharedState
unfolding emit
on_rsp_order_insert info s = elim (rsp_error info) [
  | some (error_id, msg) ↦ emit (order_insert_rejected error_id msg) s
  | none ↦ s
]

unfoldable pub on_err_rtn_order_insert : Option RspInfoField → SharedState → SharedState
unfolding emit
on_err_rtn_order_insert none s = s
on_err_rtn_order_insert (some info) s =
    emit (order_insert_rejected info.error_id (unwrap_or_default info.error_msg)) s

unfoldable pub on_rsp_settlement_info_confirm : Option RspInfoField → SharedState → SharedState
unfolding emit
on_rsp_settlement_info_confirm info s = elim (rsp_error info) [
  | some (error_id, msg) ↦ emit (settlement_confirm_failed error_id msg) s
  | none ↦ emit settlement_confirmed s
]

-- The report of an optional field: none where there is no field or it cannot be read.
abbrev pub report_of_order : Option OrderField → Option OrderReport
report_of_order none = none
report_of_order (some order) = elim (order_field_to_report order) [
  | ok report ↦ some report
  | err _ ↦ none
]

abbrev pub report_of_trade : Option TradeField → Option TradeReport
report_of_trade none = none
report_of_trade (some trade) = elim (trade_field_to_report trade) [
  | ok report ↦ some report
  | err _ ↦ none
]

unfoldable pub on_rtn_order : Option OrderField → SharedState → SharedState
unfolding emit
on_rtn_order order s = elim (report_of_order order) [
  | some report ↦ emit (order_return report) s
  | none ↦ s
]

unfoldable pub on_rtn_trade : Option TradeField → SharedState → SharedState
unfolding emit
on_rtn_trade trade s = elim (report_of_trade trade) [
  | some report ↦ emit (trade_return report) s
  | none ↦ s
]

unfoldable pub on_rsp_order_action : Option RspInfoField → I32 → SharedState → SharedState
unfolding finish_query
on_rsp_order_action info request_id s = elim (rsp_error info) [
  | some (error_id, msg) ↦ finish_query request_id (cancel_action_failed request_id error_id msg) s
  | none ↦ finish_query request_id (cancel_action_ok request_id) s
]

abbrev pub empty_balance : AccountBalance
empty_balance = record {
  account_id = "";
  balance = 0;
  available = 0;
  curr_margin = 0;
  frozen_margin = 0;
  commission = 0;
  close_profit = 0;
  position_profit = 0;
}

abbrev pub balance_of : Option TradingAccountField → AccountBalance
balance_of none = empty_balance
balance_of (some field) = trading_account_to_balance field

unfoldable pub on_rsp_qry_trading_account :
    Option TradingAccountField → Option RspInfoField → I32 → Bool → SharedState → SharedState
unfolding query_error emit forget
on_rsp_qry_trading_account trading_account info request_id is_last s = elim (rsp_error info) [
  | some e ↦ query_error request_id e s
  | none ↦
      if is_last
      then emit (query_account_ready request_id (balance_of trading_account)) (forget request_id s)
      else s
]

-- A position that can be read and whose volume is not 0.
abbrev pub held_position : Option InvestorPositionField → Option Position
held_position none = none
held_position (some pos) = elim (investor_position_to_position pos) [
  | ok position ↦ if position.volume == 0 then none else some position
  | err _ ↦ none
]

collect_position : I32 → Option Position → SharedState → SharedState
unfolding append_position
collect_position request_id none s = s
collect_position request_id (some position) s = append_position request_id position s

unfoldable pub on_rsp_qry_investor_position :
    Option InvestorPositionField → Option RspInfoField → I32 → Bool → SharedState → SharedState
unfolding query_error emit take_positions collect_position
on_rsp_qry_investor_position pos info request_id is_last s = elim (rsp_error info) [
  | some e ↦ query_error request_id e s
  | none ↦
      let s' = collect_position request_id (held_position pos) s in
      let (items, taken) = take_positions request_id s' in
      if is_last then emit (query_positions_ready request_id items) taken else s'
]

collect_order : I32 → Option OrderReport → SharedState → SharedState
unfolding append_order
collect_order request_id none s = s
collect_order request_id (some report) s = append_order request_id report s

unfoldable pub on_rsp_qry_order :
    Option OrderField → Option RspInfoField → I32 → Bool → SharedState → SharedState
unfolding query_error emit take_orders collect_order
on_rsp_qry_order order info request_id is_last s = elim (rsp_error info) [
  | some e ↦ query_error request_id e s
  | none ↦
      let s' = collect_order request_id (report_of_order order) s in
      let (items, taken) = take_orders request_id s' in
      if is_last then emit (query_orders_ready request_id items) taken else s'
]

collect_trade : I32 → Option TradeReport → SharedState → SharedState
unfolding append_trade
collect_trade request_id none s = s
collect_trade request_id (some report) s = append_trade request_id report s

unfoldable pub on_rsp_qry_trade :
    Option TradeField → Option RspInfoField → I32 → Bool → SharedState → SharedState
unfolding query_error emit take_trades collect_trade
on_rsp_qry_trade trade info request_id is_last s = elim (rsp_error info) [
  | some e ↦ query_error request_id e s
  | none ↦
      let s' = collect_trade request_id (report_of_trade trade) s in
      let (items, taken) = take_trades request_id s' in
      if is_last then emit (query_trades_ready request_id items) taken else s'
]

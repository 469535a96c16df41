-- ===== src/Scenarios/Session.antt =====
-- The theorems on a trading connection at concrete inputs.
use ctp_system.Prelude.{string_eq, nat_eq, ◌≡◌, refl, true, false, none, some, List, [], ◌∷◌, ok}
use ctp_system.HashMap.{get}
use ctp_system.Model.Reports.{OrderReport}
use ctp_system.Model.Ctp.Normalize.{normalize_order_ref}
use ctp_system.TradeSession.{input_order, offset_flag, direction}
use ctp_system.TradeSession.Echo.{IsReportOn, order_field_to_report-input_order}
use ctp_system.TradeSession.Fields.{order_field_to_report}
use ctp_system.TradeSession.Events.{
  positions, orders, trades, query_positions_ready, query_orders_ready, query_trades_ready,
}
use ctp_system.TradeSession.Spi.{
  items_of_positions, items_of_orders, items_of_trades, report_of_order, report_of_trade,
  held_position,
}
use ctp_system.TradeSession.Callbacks.{
  Callback, rsp_qry_order, rsp_qry_trade, rsp_qry_investor_position, rsp_qry_trading_account,
  front_disconnected, rtn_order, call, run,
}
use ctp_system.TradeSession.Callbacks.Pending.{add_order, add_trade, add_position}
use ctp_system.TradeSession.Callbacks.Collect.{
  absorb_all, orders_complete, trades_complete, positions_complete,
}
use ctp_system.Scenarios.Data.{
  ctp, config, order, order_field, trade_field, position_field, pending,
}

-- A first response, then other callbacks, the answer to query 6 among them.
abbrev between : List Callback
between =
    rtn_order (some order_field)
    ∷ rsp_qry_trading_account none none 6 true
    ∷ front_disconnected 4097
    ∷ []

abbrev order_callbacks : List Callback
order_callbacks = rsp_qry_order (some order_field) none 5 false ∷ between

orders_complete_example :
    ((call
        (rsp_qry_order (some order_field) none 5 true)
        (run order_callbacks (pending (orders [])))).events
      ≡ query_orders_ready 5 (
          items_of_orders (
            some (
              add_order
                (report_of_order (some order_field))
                (absorb_all 5 order_callbacks (orders [])))))
        ∷ (run order_callbacks (pending (orders []))).events)
    × (get 5
          (call
            (rsp_qry_order (some order_field) none 5 true)
            (run order_callbacks (pending (orders [])))).pending_queries
        ≡ none)
unfolding get
orders_complete_example =
    orders_complete 5 order_callbacks (pending (orders [])) (some order_field) none
      (refl, (refl, (refl, (refl, tt)))) refl refl

abbrev trade_callbacks : List Callback
trade_callbacks = rsp_qry_trade (some trade_field) none 5 false ∷ between

trades_complete_example :
    ((call
        (rsp_qry_trade (some trade_field) none 5 true)
        (run trade_callbacks (pending (trades [])))).events
      ≡ query_trades_ready 5 (
          items_of_trades (
            some (
              add_trade
                (report_of_trade (some trade_field))
                (absorb_all 5 trade_callbacks (trades [])))))
        ∷ (run trade_callbacks (pending (trades []))).events)
    × (get 5
          (call
            (rsp_qry_trade (some trade_field) none 5 true)
            (run trade_callbacks (pending (trades [])))).pending_queries
        ≡ none)
unfolding get
trades_complete_example =
    trades_complete 5 trade_callbacks (pending (trades [])) (some trade_field) none
      (refl, (refl, (refl, (refl, tt)))) refl refl

abbrev position_callbacks : List Callback
position_callbacks = rsp_qry_investor_position (some (position_field 3)) none 5 false ∷ between

positions_complete_example :
    ((call
        (rsp_qry_investor_position (some (position_field 0)) none 5 true)
        (run position_callbacks (pending (positions [])))).events
      ≡ query_positions_ready 5 (
          items_of_positions (
            some (
              add_position
                (held_position (some (position_field 0)))
                (absorb_all 5 position_callbacks (positions [])))))
        ∷ (run position_callbacks (pending (positions []))).events)
    × (get 5
          (call
            (rsp_qry_investor_position (some (position_field 0)) none 5 true)
            (run position_callbacks (pending (positions [])))).pending_queries
        ≡ none)
unfolding get
positions_complete_example =
    positions_complete 5 position_callbacks (pending (positions [])) (some (position_field 0)) none
      (refl, (refl, (refl, (refl, tt)))) refl refl

order_field_to_report-input_order_example :
    (report : OrderReport) × (order_field_to_report order_field ≡ ok report)
    × IsReportOn report order
unfolding input_order offset_flag direction normalize_order_ref
order_field_to_report-input_order_example =
    order_field_to_report-input_order ctp config order 4 order_field refl refl (record {
      order_ref = refl;
      instrument_id = refl;
      direction = refl;
      comb_offset_flag = refl;
      limit_price = refl;
      volume = refl;
    })

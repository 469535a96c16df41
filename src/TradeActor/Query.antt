-- ===== src/TradeActor/Query.antt =====
-- `drive_query_account`, `drive_query_positions`, `drive_query_orders` and `drive_query_trades` of
-- crates/server/src/actor/trade.rs. Their loop awaits `wait_actionable_event`, itself a loop; here
-- the two are one loop, whose body is the inner one's and then the outer one's.
pub mod Outcome
use ctp_system.Prelude.{
  String, Bool, true, false, Option, none, some, List, [], ◌∷◌, map, Result, ok, err, ◌==◌, nat_eq,
  string_eq, if◌then◌else◌, unwrap_or, Exec,
}
use ctp_system.HashMap.{get}
use ctp_system.Model.Types.{I32, AccountId, ClientId, DateTime, Order}
use ctp_system.Model.Reports.{OrderContext, OrderReport, TimeParser, into_trade}
use ctp_system.Protocol.{
  Failure, text, Message, query_account_result, query_position_result, query_orders_result,
  query_trades_result,
}
use ctp_system.Server
use ctp_system.Server.{EnvelopeTx, OrderRegistry, order_ref_lookup_key}
use ctp_system.TradeSession
use ctp_system.TradeSession.{Ctp, TradeSession}
use ctp_system.TradeSession.Events.{
  TradeSessionEvent, front_disconnected, order_return, trade_return, query_account_ready,
  query_positions_ready, query_orders_ready, query_trades_ready, query_failed,
}
use ctp_system.TradeSession.Fields.{order_report_to_wire_order}
use ctp_system.TradeActor.{
  Actor, Delivery, Status, returned, arrive, drive, on_session, on_server, send_error,
}

unfoldable pub lookup_client_id : OrderRegistry → String → Option ClientId
unfolding order_ref_lookup_key
lookup_client_id registry client_order_id =
    elim (get (order_ref_lookup_key client_order_id) registry) [
      | none ↦ none
      | some ctx ↦ some ctx.client_id
    ]

-- The client of the first order that an iteration of the registry yields.
unfoldable pub default_query_client_id : OrderRegistry → ClientId
default_query_client_id [] = "query"
default_query_client_id ((key, ctx) ∷ registry) = ctx.client_id

-- The closure of `drive_query_orders`.
unfoldable pub wire_order : OrderRegistry → AccountId → DateTime → OrderReport → Order
unfolding lookup_client_id default_query_client_id
wire_order registry account_id now report =
    order_report_to_wire_order report account_id
      (unwrap_or (lookup_client_id registry report.client_order_id)
        (default_query_client_id registry))
      now

-- What a query waits for.
pub data QueryKind : Type 0 where
  of_account of_positions of_orders of_trades : QueryKind

module _ (parse_time : TimeParser) where
  -- The body of `wait_actionable_event`: the event that it returns, or `none` to go round again.
  unfoldable pub wait_actionable : TradeSessionEvent → Actor → Option TradeSessionEvent × Actor
  wait_actionable (order_return report) a =
      (none, on_server (Server.push_order_report a.order_registry report a.now) a)
  wait_actionable (trade_return report) a =
      (none, on_server (Server.push_trade_report parse_time a.order_registry report a.now) a)
  wait_actionable (front_disconnected reason) a = (some (front_disconnected reason), a)
  wait_actionable other a = (some other, a)

  module _ (account_id : AccountId) (rid : I32) where
    -- The message that answers the query, where the event is its result.
    unfoldable pub answer : QueryKind → TradeSessionEvent → Actor → Option Message
    unfolding wire_order
    answer of_account (query_account_ready request_id balance) a =
        if request_id == rid then some (query_account_result balance) else none
    answer of_positions (query_positions_ready request_id positions) a =
        if request_id == rid then some (query_position_result positions) else none
    answer of_orders (query_orders_ready request_id orders) a =
        if request_id == rid
        then some (query_orders_result (map (wire_order a.order_registry account_id a.now) orders))
        else none
    answer of_trades (query_trades_ready request_id trades) a =
        if request_id == rid
        then some (
            query_trades_result
              (map (λ report. into_trade parse_time report account_id a.now) trades))
        else none
    answer _ _ a = none

    -- The error that ends the query, where the event is its failure.
    unfoldable pub failure : TradeSessionEvent → Option (I32 × String)
    failure (query_failed request_id error_id msg) =
        if request_id == rid then some (error_id, msg) else none
    failure _ = none

    module _ (kind : QueryKind) (reply_to : EnvelopeTx) where
      react : TradeSessionEvent → Actor → Option (Result Failure (Unit {0})) × Actor
      unfolding answer failure send_error
      react event a = elim (answer kind event a) [
        | some message ↦ (some (ok tt), on_server (Server.send reply_to message) a)
        | none ↦ elim (failure event) [
          | some (error_id, msg) ↦ (some (ok tt), send_error reply_to error_id (text msg) a)
          | none ↦ (none, a)
        ]
      ]

      unfoldable pub query_event :
          TradeSessionEvent → Actor → Option (Result Failure (Unit {0})) × Actor
      unfolding wait_actionable react
      query_event event a =
          let (actionable, b) = wait_actionable event a in
          elim actionable [ none ↦ (none, b) | some e ↦ react e b ]

      unfoldable pub query_loop : List Delivery → Actor → Status × Actor
      unfolding drive arrive query_event
      query_loop = drive arrive query_event

-- The request that starts each query.
unfoldable pub start :
    Ctp → QueryKind → Option String → TradeSession → Result Failure I32 × TradeSession
start ctp of_account instrument_id = TradeSession.query_trading_account ctp
start ctp of_positions instrument_id = TradeSession.query_investor_position ctp instrument_id
start ctp of_orders instrument_id = TradeSession.query_orders ctp none
start ctp of_trades instrument_id = TradeSession.query_trades ctp none

unfoldable pub drive_query :
    Ctp
    → TimeParser
    → QueryKind
    → AccountId
    → Option String
    → EnvelopeTx
    → List Delivery
    → Actor
    → Status × Actor
unfolding start query_loop on_session
drive_query ctp parse_time kind account_id instrument_id reply_to ds a =
    let (sent, b) =
      on_session (text "trade session is not connected") (start ctp kind instrument_id) a in
    elim sent [
      | err e ↦ (returned (err e) ds, b)
      | ok rid ↦ query_loop parse_time account_id rid kind reply_to ds b
    ]

-- ===== src/TradeActor/Commands.antt =====
-- The command and event handlers of the account task in crates/server/src/actor/trade.rs, and one
-- round of its main loop.
pub mod Gate
pub mod Orders
use ctp_system.Prelude.{
  String, string_eq, Option, none, some, List, [], ◌∷◌, Result, ok, err, Bool, true, false,
}
use ctp_system.HashMap.{insert}
use ctp_system.Model.Enums.{ConnectionState, disconnected}
use ctp_system.Model.Types.{ClientId, OrderRequest, DateTime}
use ctp_system.Model.Reports.{OrderContext, TimeParser, order_ref_key}
use ctp_system.Protocol.{Failure, text}
use ctp_system.Server
use ctp_system.Server.{
  Server, EnvelopeTx, TradeSessionCommand, login, place_order, cancel_order, query_account,
  query_position, query_orders, query_trades, logout,
}
use ctp_system.TradeSession
use ctp_system.TradeSession.{Ctp}
use ctp_system.TradeSession.Events.{
  TradeSessionEvent, front_disconnected, order_return, trade_return,
}
use ctp_system.TradeActor.{
  Actor, Delivery, Status, returned, waiting, arrive, on_session, on_server, neg, send_state,
  send_logged_in, send_error,
}
use ctp_system.TradeActor.Login.{Surroundings, drive_trade_login}
use ctp_system.TradeActor.Cancel.{drive_cancel_order}
use ctp_system.TradeActor.Query.{
  QueryKind, of_account, of_positions, of_orders, of_trades, drive_query,
}

unfoldable pub context_of : ClientId → OrderRequest → DateTime → OrderContext
context_of client_id order now = record {
  client_id = client_id;
  client_order_id = order.client_order_id;
  account_id = order.account_id;
  instrument_id = order.instrument_id;
  direction = order.direction;
  offset = order.offset;
  order_type = order.order_type;
  price = order.price;
  volume = order.volume;
  inserted_at = now;
}

unfoldable pub register_order : ClientId → OrderRequest → Actor → Actor
unfolding context_of order_ref_key
register_order client_id order a =
    let ctx = context_of client_id order a.now in
    record a { order_registry = insert (order_ref_key ctx) ctx a.order_registry }

module _ (ctp : Ctp) (parse_time : TimeParser) (env : Surroundings) where
  fail_login : EnvelopeTx → Status × Actor → Status × Actor
  unfolding send_state
  fail_login reply_to (returned (err e) ds, a) =
      (returned (err e) ds, send_state reply_to a.account_id ConnectionState.error a)
  fail_login reply_to (status, a) = (status, a)

  rejected_command : EnvelopeTx → String → List Delivery → Actor → Status × Actor
  unfolding send_error
  rejected_command reply_to message ds a =
      (returned (ok tt) ds, send_error reply_to (neg 11) (text message) a)

  unfoldable pub handle_logged_out_trade_command :
      TradeSessionCommand → List Delivery → Actor → Status × Actor
  unfolding fail_login rejected_command drive_trade_login send_state
  handle_logged_out_trade_command (login credentials reply_to) ds a =
      fail_login reply_to (drive_trade_login ctp credentials reply_to env ds a)
  handle_logged_out_trade_command (place_order client_id order reply_to) ds a =
      rejected_command reply_to "account is not logged in; place order rejected" ds a
  handle_logged_out_trade_command (cancel_order cancel reply_to) ds a =
      rejected_command reply_to "account is not logged in; command rejected" ds a
  handle_logged_out_trade_command (query_account account_id reply_to) ds a =
      rejected_command reply_to "account is not logged in; command rejected" ds a
  handle_logged_out_trade_command (query_position account_id instrument_id reply_to) ds a =
      rejected_command reply_to "account is not logged in; command rejected" ds a
  handle_logged_out_trade_command (query_orders account_id reply_to) ds a =
      rejected_command reply_to "account is not logged in; command rejected" ds a
  handle_logged_out_trade_command (query_trades account_id reply_to) ds a =
      rejected_command reply_to "account is not logged in; command rejected" ds a
  handle_logged_out_trade_command (logout reply_to) ds a =
      (returned (ok tt) ds, send_state reply_to a.account_id disconnected a)

  -- The caller has the connection: `session.as_mut().ok_or_else(..)?` comes first.
  unfoldable pub register_and_insert_order :
      ClientId → OrderRequest → Actor → Result Failure (Unit {0}) × Actor
  unfolding register_order on_session
  register_and_insert_order client_id order a =
      let (sent, b) =
        on_session (text "trade session is not connected") (TradeSession.insert_order ctp order)
          (register_order client_id order a) in
      elim sent [ ok _ ↦ (ok tt, b) | err e ↦ (err e, b) ]

  abbrev not_connected : List Delivery → Actor → Status × Actor
  not_connected ds a = (returned (err (text "trade session is not connected")) ds, a)

  unfoldable pub handle_logged_in_trade_command :
      TradeSessionCommand → List Delivery → Actor → Status × Actor
  unfolding register_and_insert_order drive_cancel_order drive_query send_state send_logged_in
      send_error
  handle_logged_in_trade_command (login credentials reply_to) ds a = elim a.logged_in_ids [
    | some ids ↦ (returned (ok tt) ds, send_logged_in reply_to credentials.account_id ids a)
    | none ↦ (returned (ok tt) ds, a)
  ]
  handle_logged_in_trade_command (place_order client_id order reply_to) ds a = elim a.session [
    | none ↦ not_connected ds a
    | some _ ↦
        let (inserted, b) = register_and_insert_order client_id order a in
        elim inserted [
          | ok _ ↦ (returned (ok tt) ds, b)
          | err e ↦ (returned (err e) ds, send_error reply_to (neg 10) e b)
        ]
  ]
  handle_logged_in_trade_command (cancel_order cancel reply_to) ds a = elim a.logged_in_ids [
    | none ↦ (returned (err (text "trade session is not logged in")) ds, a)
    | some (front_id, session_id) ↦ elim a.session [
      | none ↦ not_connected ds a
      | some _ ↦ drive_cancel_order ctp parse_time cancel front_id session_id reply_to ds a
    ]
  ]
  handle_logged_in_trade_command (query_account account_id reply_to) ds a = elim a.session [
    | none ↦ not_connected ds a
    | some _ ↦ drive_query ctp parse_time of_account account_id none reply_to ds a
  ]
  handle_logged_in_trade_command (query_position account_id instrument_id reply_to) ds a =
      elim a.session [
        | none ↦ not_connected ds a
        | some _ ↦ drive_query ctp parse_time of_positions account_id instrument_id reply_to ds a
      ]
  handle_logged_in_trade_command (query_orders account_id reply_to) ds a = elim a.session [
    | none ↦ not_connected ds a
    | some _ ↦ drive_query ctp parse_time of_orders account_id none reply_to ds a
  ]
  handle_logged_in_trade_command (query_trades account_id reply_to) ds a = elim a.session [
    | none ↦ not_connected ds a
    | some _ ↦ drive_query ctp parse_time of_trades account_id none reply_to ds a
  ]
  handle_logged_in_trade_command (logout reply_to) ds a = (
    returned (ok tt) ds,
    send_state reply_to a.account_id disconnected
        (record a { session = none; logged_in_ids = none; order_registry = [] }),
  )

  unfoldable pub handle_logged_in_trade_event : TradeSessionEvent → Actor → Actor
  handle_logged_in_trade_event (order_return report) a =
      on_server (Server.push_order_report a.order_registry report a.now) a
  handle_logged_in_trade_event (trade_return report) a =
      on_server (Server.push_trade_report parse_time a.order_registry report a.now) a
  handle_logged_in_trade_event (front_disconnected reason) a =
      on_server (Server.update_account_connection_state a.account_id disconnected)
        (record a { logged_in_ids = none })
  handle_logged_in_trade_event _ a = a

  -- A command handled in a round of the main loop; it may take deliveries of its own.
  unfoldable pub handle_command : TradeSessionCommand → List Delivery → Actor → Status × Actor
  unfolding handle_logged_in_trade_command handle_logged_out_trade_command
  handle_command command ds a = elim a.logged_in_ids [
    | some _ ↦ handle_logged_in_trade_command command ds a
    | none ↦ handle_logged_out_trade_command command ds a
  ]

  -- A delivery taken by the main loop itself, which it does only while logged in.
  unfoldable pub handle_delivery : Delivery → Actor → Actor
  unfolding handle_logged_in_trade_event arrive
  handle_delivery d a = elim d.event [
    | none ↦ arrive d a
    | some event ↦ handle_logged_in_trade_event event (arrive d a)
  ]

-- ===== src/TradeActor/Cancel.antt =====
-- `drive_cancel_order` of crates/server/src/actor/trade.rs.
pub mod Outcome
use ctp_system.Prelude.{
  String, Bool, true, false, ◌&&◌, ◌||◌, Option, none, some, List, Result, ok, err, ◌==◌, nat_eq,
  string_eq, if◌then◌else◌,
}
use ctp_system.Model.Enums.{OrderStatus, cancelled, filled, rejected}
use ctp_system.Model.Types.{I32, CancelRequest}
use ctp_system.Model.Reports.{OrderReport, TimeParser}
use ctp_system.Protocol.{Failure, text}
use ctp_system.Server
use ctp_system.Server.{EnvelopeTx}
use ctp_system.TradeSession
use ctp_system.TradeSession.{Ctp}
use ctp_system.TradeSession.Events.{
  TradeSessionEvent, front_disconnected, order_return, trade_return, cancel_action_ok,
  cancel_action_failed,
}
use ctp_system.TradeActor.{
  Actor, Delivery, Status, returned, arrive, drive, on_session, on_server, send_error,
}

-- Both ids are given and are the same.
abbrev pub same_id : Option String → Option String → Bool
same_id (some expected) (some actual) = expected == actual
same_id _ _ = false

unfoldable pub is_target : CancelRequest → OrderReport → Bool
is_target cancel report =
    same_id cancel.client_order_id (some report.client_order_id)
    || same_id cancel.exchange_order_id report.exchange_order_id

unfoldable pub is_terminal : OrderStatus → Bool
is_terminal cancelled = true
is_terminal filled = true
is_terminal rejected = true
is_terminal _ = false

module _ (parse_time : TimeParser) (cancel : CancelRequest) (reply_to : EnvelopeTx)
    (rid : I32) where
  -- The body of the loop.
  unfoldable pub cancel_event :
      TradeSessionEvent → Actor → Option (Result Failure (Unit {0})) × Actor
  unfolding is_target is_terminal send_error
  cancel_event (order_return report) a = (
    if is_target cancel report && is_terminal report.status then some (ok tt) else none,
    on_server (Server.push_order_report a.order_registry report a.now) a,
  )
  cancel_event (trade_return report) a =
      (none, on_server (Server.push_trade_report parse_time a.order_registry report a.now) a)
  cancel_event (cancel_action_ok request_id) a =
      (if request_id == rid then some (ok tt) else none, a)
  cancel_event (cancel_action_failed request_id error_id msg) a =
      if request_id == rid
      then (some (ok tt), send_error reply_to error_id (text msg) a)
      else (none, a)
  cancel_event (front_disconnected reason) a = (some (ok tt), a)
  cancel_event _ a = (none, a)

  unfoldable pub cancel_loop : List Delivery → Actor → Status × Actor
  unfolding drive arrive cancel_event
  cancel_loop = drive arrive cancel_event

unfoldable pub drive_cancel_order :
    Ctp
    → TimeParser
    → CancelRequest
    → I32
    → I32
    → EnvelopeTx
    → List Delivery
    → Actor
    → Status × Actor
unfolding cancel_loop on_session
drive_cancel_order ctp parse_time cancel front_id session_id reply_to ds a =
    let (sent, b) =
      on_session (text "trade session is not connected")
        (TradeSession.cancel_order ctp cancel front_id session_id) a in
    elim sent [
      | err e ↦ (returned (err e) ds, b)
      | ok rid ↦ cancel_loop parse_time cancel reply_to rid ds b
    ]

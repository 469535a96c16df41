-- ===== src/TradeActor/Commands/Gate.antt =====
-- What the commands to an account task of crates/server/src/actor/trade.rs do around a login.
use ctp_system.Prelude.{◌≡◌, refl, sym, subst, ap, none, some, Option-cases, inl, inr, List, []}
use ctp_system.Model.Reports.{TimeParser, OrderReport, TradeReport}
use ctp_system.Model.Types.{I32, DateTime}
use ctp_system.HashMap.{get}
use ctp_system.Server
use ctp_system.Server.{
  Server, TradeSessionCommand, EnvelopeTx, login, place_order, cancel_order, query_account,
  query_position, query_orders, query_trades, logout,
}
use ctp_system.TradeSession.{Ctp}
use ctp_system.TradeSession.Events.{order_return, trade_return}
use ctp_system.TradeActor.{Actor, Delivery, Status, send_state}
use ctp_system.TradeActor.Login.{Surroundings}
use ctp_system.TradeActor.Commands.{
  handle_command, handle_logged_in_trade_command, handle_logged_in_trade_event,
}

module _ (ctp : Ctp) (parse_time : TimeParser) (env : Surroundings) where
  pub handle_command_in :
      (command : TradeSessionCommand) (ds : List Delivery) (a : Actor) (ids : I32 × I32)
      → a.logged_in_ids ≡ some ids
      → handle_command ctp parse_time env command ds a
        ≡ handle_logged_in_trade_command ctp parse_time env command ds a
  unfolding handle_command
  handle_command_in command ds a ids n = simp (n, handle_command)

  no_trade_pushed :
      (trade : TradeReport) (now : DateTime) (w : Server)
      → Server.push_trade_report parse_time [] trade now w ≡ w
  unfolding Server.push_trade_report get
  no_trade_pushed trade now w = elim (Option-cases trade.client_order_id) [
    | inl n ↦ simp (n, Server.push_trade_report)
    | inr (id, n) ↦ simp (n, Server.push_trade_report)
  ]

  -- The task is neither logged in nor connected, and reports go to nobody.
  abbrev pub Silent : OrderReport → TradeReport → Actor → Type 0
  Silent report trade b =
      (b.logged_in_ids ≡ none)
      × (b.session ≡ none)
      × (handle_logged_in_trade_event ctp parse_time env (order_return report) b ≡ b)
      × (handle_logged_in_trade_event ctp parse_time env (trade_return trade) b ≡ b)

  -- After a logout that the task handles while logged in, it is neither logged in nor connected, and
  -- a report of any order or trade that still comes is sent to nobody.
  pub logout-silences :
      (tx : EnvelopeTx) (ds : List Delivery) (a : Actor) (ids : I32 × I32) (report : OrderReport)
      (trade : TradeReport)
      → a.logged_in_ids ≡ some ids
      → Silent report trade (handle_command ctp parse_time env (logout tx) ds a).1
  unfolding handle_logged_in_trade_command handle_logged_in_trade_event Server.push_order_report
      Server.send_account_state get send_state
  logout-silences tx ds a ids report trade n =
      let b = (handle_logged_in_trade_command ctp parse_time env (logout tx) ds a).1 in
      subst (λ (r : Status × Actor). Silent report trade r.1)
        (sym (handle_command_in (logout tx) ds a ids n))
        (refl, refl, refl, ap (λ w. record b { server = w }) (no_trade_pushed trade b.now b.server))

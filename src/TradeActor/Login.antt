-- ===== src/TradeActor/Login.antt =====
-- `drive_trade_login` of crates/server/src/actor/trade.rs.
pub mod Success
pub mod Requests
use Prim.Native.String
use ctp_system.Prelude.{
  String, ◌≡◌, Option, none, some, List, Result, ok, err, unwrap_or, is_some, Bool, true, false,
}
use ctp_system.Model.Enums.{ConnectionState, connecting, authenticating, disconnected}
use ctp_system.Model.Types.{I32, AccountCredentials}
use ctp_system.Protocol.{Failure, text, ctp_error, ctp_request_error}
use ctp_system.Server.{EnvelopeTx}
use ctp_system.TradeSession
use ctp_system.TradeSession.{Ctp, TradeSession, TradeSessionConfig}
use ctp_system.TradeSession.Events.{
  TradeSessionEvent, front_connected, front_disconnected, authenticate_ok, authenticate_failed,
  login_ok, login_failed, settlement_confirmed, settlement_confirm_failed,
}
use ctp_system.TradeActor.{
  arrive, Actor, Delivery, Status, returned, drive, on_session, send_state, send_logged_in,
}

-- What the task takes from its surroundings: the variable CTP_TRADE_FRONT, and why the native api
-- cannot be built, if it cannot.
pub record Surroundings : Type 0 where
  pub trade_front : Option String
  pub build_error : Option Failure

unfoldable pub trade_session_config : Surroundings → AccountCredentials → TradeSessionConfig
trade_session_config env credentials = record {
  account_id = credentials.account_id;
  broker_id = credentials.broker_id;
  password = credentials.password;
  app_id = credentials.app_id;
  auth_code = credentials.auth_code;
  trade_front = unwrap_or env.trade_front "tcp://182.254.243.31:30001";
  dynlib_path = "crates/server/src/adapter/exchange/ctp/thosttraderapi_se.so";
  flow_path = String.◌++◌ "./flow/trade_" credentials.account_id;
}

-- if session.is_none() { .. connect()?; *session = Some(..) }
unfoldable pub open_session :
    Surroundings → AccountCredentials → Option TradeSession → Result Failure TradeSession
unfolding TradeSession.connect TradeSession.new trade_session_config
open_session env credentials (some s) = ok s
open_session env credentials none =
    let config = trade_session_config env credentials in
    let (built, s) = TradeSession.connect env.build_error (TradeSession.new config) in
    elim built [ ok _ ↦ ok s | err e ↦ err e ]

-- The loop's variables: those of the task, and `login_ids`.
pub record LoginLoop : Type 0 where
  pub actor : Actor
  pub login_ids : Option (I32 × I32)

module _ (ctp : Ctp) (credentials : AccountCredentials) (reply_to : EnvelopeTx) where
  -- session.request()?; then round the loop again.
  unfoldable pub request :
      (Ctp → TradeSession → Result Failure I32 × TradeSession)
      → Option (I32 × I32)
      → Actor
      → Option (Result Failure (Unit {0})) × LoginLoop
  unfolding on_session
  request m ids a =
      let (rid, b) = on_session (text "trade session missing after connect") (m ctp) a in
      let l : LoginLoop = record { actor = b; login_ids = ids } in
      elim rid [ ok _ ↦ (none, l) | err e ↦ (some (err e), l) ]

  -- The body of the loop.
  unfoldable pub login_event :
      TradeSessionEvent → LoginLoop → Option (Result Failure (Unit {0})) × LoginLoop
  unfolding request send_state send_logged_in
  login_event front_connected l =
      request TradeSession.authenticate l.login_ids
        (send_state reply_to credentials.account_id authenticating l.actor)
  login_event authenticate_ok l = request TradeSession.login l.login_ids l.actor
  login_event (login_ok trading_day front_id session_id) l =
      request TradeSession.confirm_settlement (some (front_id, session_id)) l.actor
  login_event settlement_confirmed l =
      let ids = unwrap_or l.login_ids (0, 0) in
      let confirmed = record l.actor { logged_in_ids = some ids } in
      (
        some (ok tt),
        record l { actor = send_logged_in reply_to credentials.account_id ids confirmed },
      )
  login_event (front_disconnected reason) l =
      (none, record l { actor = send_state reply_to credentials.account_id disconnected l.actor })
  login_event (authenticate_failed error_id msg) l =
      (some (err (ctp_error "authenticate failed" error_id msg)), l)
  login_event (login_failed error_id msg) l =
      (some (err (ctp_error "login failed" error_id msg)), l)
  login_event (settlement_confirm_failed error_id msg) l =
      (some (err (ctp_error "settlement confirm failed" error_id msg)), l)
  login_event (TradeSessionEvent.error error_id msg request_id) l =
      (some (err (ctp_request_error "trade error" request_id error_id msg)), l)
  login_event _ l = (none, l)

  -- From the loop on.
  unfoldable pub login_loop : List Delivery → LoginLoop → Status × LoginLoop
  unfolding drive login_event arrive
  login_loop = drive (λ d l. record l { actor = arrive d l.actor }) login_event

  finish_login : Status × LoginLoop → Status × Actor
  finish_login (status, l) = (status, l.actor)

  -- What follows the opening of the connection.
  unfoldable pub login_on : Result Failure TradeSession → List Delivery → Actor → Status × Actor
  unfolding login_loop send_state finish_login
  login_on (err e) ds a = (returned (err e) ds, a)
  login_on (ok s) ds a = finish_login (
      login_loop ds (record {
        actor =
            send_state reply_to credentials.account_id connecting (record a { session = some s });
        login_ids = none;
      }))

  unfoldable pub drive_trade_login : Surroundings → List Delivery → Actor → Status × Actor
  unfolding login_on open_session send_logged_in
  drive_trade_login env ds a = elim a.logged_in_ids [
    | some ids ↦ (returned (ok tt) ds, send_logged_in reply_to credentials.account_id ids a)
    | none ↦ login_on (open_session env credentials a.session) ds a
  ]

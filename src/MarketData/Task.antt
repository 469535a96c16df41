-- ===== src/MarketData/Task.antt =====
-- The task of the shared market-data session in crates/server/src/actor/data.rs, over the quote
-- client of crates/server/src/adapter/exchange/md.rs and
-- crates/common/src/network/ctp_client/client.rs. The native library is a parameter: the code with
-- which it answers each request.
pub mod Login
pub mod Spawn
use ctp_system.Prelude.{
  ℕ, ◌+◌, ◌%◌, ◌^◌, String, Bool, true, false, Option, none, some, List, [], ◌∷◌, Result, ok, err,
  ◌==◌, nat_eq, if◌then◌else◌, is_empty,
}
use ctp_system.Model.Types.{I32, InstrumentId}
use ctp_system.Protocol.{Failure, text, api_returned, ctp_error, ctp_request_error}
use ctp_system.Server.{Server, MarketDataSessionCommand, subscribe, unsubscribe}
use ctp_system.MarketData.{MarketDataTick, fanout_market_data_tick}
use ctp_system.MarketData.{current_market_data_subscriptions}

pub data CtpEvent : Type 0 where
  front_connected : CtpEvent
  front_disconnected heart_beat_warning : I32 → CtpEvent
  login_ok subscribe_ok : String → CtpEvent
  login_failed : I32 → String → CtpEvent
  subscribe_failed : String → I32 → String → CtpEvent
  market_data : MarketDataTick → CtpEvent
  error : I32 → String → I32 → CtpEvent

pub data MdRequest : Type 0 where
  req_user_login : I32 → MdRequest
  subscribe_market_data unsubscribe_market_data : List InstrumentId → MdRequest

-- The connected client: its request counter, and the requests made, newest first.
pub record MdSession : Type 0 where
  pub request_id : I32
  pub requests : List MdRequest

-- The task's variables and the shared server.
pub record MdTask : Type 0 where
  pub md : MdSession
  pub logged_in : Bool
  pub server : Server

-- What `recv().await` returns, with what other tasks did to the server meanwhile.
pub record MdDelivery : Type 0 where
  pub event : Option CtpEvent
  pub others : Server → Server

pub data MdStatus : Type 0 where
  returned : Result Failure (Unit {0}) → List MdDelivery → MdStatus
  waiting : MdStatus

module _ (answers : MdRequest → I32) where
  -- let rc = self.api.request(..); if rc != 0 { bail! }
  unfoldable pub call : String → MdRequest → MdSession → Result Failure (Unit {0}) × MdSession
  call name request s =
      let sent = record s { requests = request ∷ s.requests } in
      let rc = answers request in (if rc == 0 then ok tt else err (api_returned name rc), sent)

  unfoldable pub login : MdSession → Result Failure (Unit {0}) × MdSession
  unfolding call
  login s =
      let rid = (s.request_id + 1) % 2 ^ 32 in
      call "req_user_login" (req_user_login rid) (record s { request_id = rid })

  on_md :
      (MdSession → Result Failure (Unit {0}) × MdSession)
      → MdTask
      → Result Failure (Unit {0}) × MdTask
  on_md m t = let (r, s) = m t.md in (r, record t { md = s })

  -- One event of `wait_market_data_login`.
  unfoldable pub login_event : CtpEvent → MdTask → Result Failure (Unit {0}) × MdTask
  unfolding login on_md
  login_event front_connected t = on_md login t
  login_event (login_ok trading_day) t = (ok tt, record t { logged_in = true })
  login_event (login_failed error_id msg) t =
      (err (ctp_error "market-data login failed" error_id msg), t)
  login_event (error error_id msg request_id) t =
      (err (ctp_request_error "market-data error" request_id error_id msg), t)
  login_event _ t = (ok tt, t)

  unfoldable pub wait_market_data_login : List MdDelivery → MdTask → MdStatus × MdTask
  unfolding login_event
  wait_market_data_login [] t = if t.logged_in then (returned (ok tt) [], t) else (waiting, t)
  wait_market_data_login (d ∷ ds) t =
      let now = record t { server = d.others t.server } in
      if t.logged_in then (returned (ok tt) (d ∷ ds), t) else elim d.event [
        | none ↦ (returned (err (text "market-data event channel closed")) ds, now)
        | some event ↦
            let (result, next) = login_event event now in
            elim result [
              | err e ↦ (returned (err e) ds, next)
              | ok _ ↦ wait_market_data_login ds next
            ]
      ]

  -- The request of a command.
  unfoldable pub request_command :
      MarketDataSessionCommand → MdTask → Result Failure (Unit {0}) × MdTask
  unfolding call on_md
  request_command (subscribe instruments) t =
      on_md (call "subscribe_market_data" (subscribe_market_data instruments)) t
  request_command (unsubscribe instruments) t =
      on_md (call "unsubscribe_market_data" (unsubscribe_market_data instruments)) t

  unfoldable pub then_request : MarketDataSessionCommand → MdStatus × MdTask → MdStatus × MdTask
  unfolding request_command
  then_request command (returned (ok _) ds, t) =
      let (r, t') = request_command command t in (returned r ds, t')
  then_request command (status, t) = (status, t)

  unfoldable pub handle_market_data_command :
      MarketDataSessionCommand → List MdDelivery → MdTask → MdStatus × MdTask
  unfolding wait_market_data_login then_request
  handle_market_data_command command ds t = then_request command (wait_market_data_login ds t)

  unfoldable pub resubscribe_market_data : MdTask → Result Failure (Unit {0}) × MdTask
  unfolding call on_md current_market_data_subscriptions
  resubscribe_market_data t =
      let instruments =
        current_market_data_subscriptions t.server.state.market_data_subscriptions in
      if is_empty instruments
      then (ok tt, t)
      else on_md (call "subscribe_market_data" (subscribe_market_data instruments)) t

  unfoldable pub handle_market_data_event : CtpEvent → MdTask → Result Failure (Unit {0}) × MdTask
  unfolding login on_md resubscribe_market_data
  handle_market_data_event front_connected t = on_md login t
  handle_market_data_event (login_ok trading_day) t =
      resubscribe_market_data (record t { logged_in = true })
  handle_market_data_event (market_data tick) t =
      (ok tt, record t { server = fanout_market_data_tick tick t.server })
  handle_market_data_event (front_disconnected reason) t = (ok tt, record t { logged_in = false })
  handle_market_data_event (login_failed error_id msg) t =
      (err (ctp_error "market-data login failed" error_id msg), record t { logged_in = false })
  handle_market_data_event (error error_id msg request_id) t =
      (err (ctp_request_error "market-data error" request_id error_id msg), t)
  handle_market_data_event _ t = (ok tt, t)

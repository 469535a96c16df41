-- ===== src/Scenarios/Task.antt =====
-- The theorems on an account's task at concrete inputs.
use ctp_system.Prelude.{string_eq, nat_eq, ◌≡◌, refl, not, none, some, List, [], ◌∷◌, ◌++◌, ok}
use ctp_system.Model.Reports.{into_order}
use ctp_system.Model.Ctp.Normalize.{normalize_order_ref}
use ctp_system.Protocol.{order_update}
use ctp_system.Server
use ctp_system.Server.{push_envelope_to_client, place_order, logout}
use ctp_system.TradeSession.{input_order}
use ctp_system.TradeSession.Spi.{empty_balance}
use ctp_system.TradeSession.Events.{
  front_connected, front_disconnected, authenticate_ok, login_ok, login_failed,
  settlement_confirmed, order_return, query_account_ready, cancel_action_ok,
}
use ctp_system.TradeActor.{
  Actor, Delivery, Status, returned, waiting, arrive, on_server, send_error,
}
use ctp_system.TradeActor.Loop.{Quiet}
use ctp_system.TradeActor.Login.{login_loop, drive_trade_login}
use ctp_system.TradeActor.Login.Success.{LoggedInIffOk, drive_trade_login_lem}
use ctp_system.TradeActor.Login.Requests.{
  deliver, with_session, session_of, after, auth_request, login_request, settlement_request,
  login_loop_complete,
}
use ctp_system.TradeActor.Cancel.{cancel_loop}
use ctp_system.TradeActor.Cancel.Outcome.{ends_cancel, cancel_loop-ends}
use ctp_system.TradeActor.Query.{of_account, query_loop}
use ctp_system.TradeActor.Query.Outcome.{
  ends_query, balance, message_of, query_loop-replies, query_loop-waits,
}
use ctp_system.TradeActor.Commands.{handle_command, handle_logged_in_trade_event, context_of}
use ctp_system.TradeActor.Commands.Gate.{Silent, logout-silences}
use ctp_system.TradeActor.Commands.Orders.{placed_order-report}
use ctp_system.Scenarios.Data.{
  ctp, parse_time, env, order, cancel, credentials, config, shared, session, logged_in, logged_out,
  delivery, order_report, trade_report,
}

abbrev after_placing : Actor
after_placing = (handle_command ctp parse_time env (place_order "client-1" order 1) [] logged_in).1

placed_order-report_example :
    handle_logged_in_trade_event ctp parse_time env (order_return order_report) after_placing
    ≡ on_server
        (push_envelope_to_client "client-1" (
          order_update
            (into_order order_report (context_of "client-1" order 1000) after_placing.now)))
        after_placing
unfolding input_order normalize_order_ref
placed_order-report_example =
    placed_order-report ctp parse_time env "client-1" order 1 [] logged_in (1, 77) session 4
      order_report refl refl refl

drive_trade_login_lem_example : LoggedInIffOk (
    drive_trade_login ctp credentials 1 env
      (delivery (login_failed 3 "wrong password") ∷ [])
      logged_out)
drive_trade_login_lem_example =
    drive_trade_login_lem ctp credentials 1 env (delivery (login_failed 3 "wrong password") ∷ [])
      logged_out

abbrev login_end : Status × ctp_system.TradeActor.Login.LoginLoop
login_end =
    login_loop ctp credentials 1
      (deliver front_connected (λ sh. sh) (λ w. w) 1001
        ∷ deliver authenticate_ok (λ sh. sh) (λ w. w) 1002
        ∷ deliver (login_ok "20260605" 1 77) (λ sh. sh) (λ w. w) 1003
        ∷ deliver settlement_confirmed (λ sh. sh) (λ w. w) 1004
        ∷ [])
      (with_session logged_out (session_of config shared 0 []) none)

login_loop_complete_example :
    (login_end.0 ≡ returned (ok tt) [])
    × (login_end.1.actor.logged_in_ids ≡ some (1, 77))
    × (login_end.1.actor.session
        ≡ some (
            session_of config shared (after (after (after 0))) (
              settlement_request config (after (after (after 0)))
              ∷ login_request config (after (after 0))
              ∷ auth_request config (after 0)
              ∷ [])))
login_loop_complete_example =
    login_loop_complete ctp credentials 1 (λ r. refl) (λ sh. sh) (λ sh. sh) (λ sh. sh) (λ sh. sh)
      (λ w. w) (λ w. w) (λ w. w) (λ w. w) 1001 1002 1003 1004 "20260605" 1 77 config shared 0 []
      logged_out []

-- A lost connection and a report, while query 5 waits.
abbrev lost : List Delivery
lost = delivery (front_disconnected 4097) ∷ delivery (order_return order_report) ∷ []

lost-Quiet : Quiet (λ e. not (ends_query 5 of_account e)) lost
lost-Quiet = ((front_disconnected 4097, refl, refl), ((order_return order_report, refl, refl), tt))

abbrev found : Actor
found =
    arrive (delivery (query_account_ready 5 empty_balance))
      (query_loop parse_time "268508" 5 of_account 1 lost logged_in).1

query_loop-replies_example :
    query_loop parse_time "268508" 5 of_account 1
      (lost ++ delivery (query_account_ready 5 empty_balance) ∷ [])
      logged_in
    ≡ (
      returned (ok tt) [],
      on_server
          (Server.send 1 (message_of parse_time "268508" found (balance empty_balance)))
          found,
    )
query_loop-replies_example =
    query_loop-replies parse_time "268508" 5 of_account 1 lost []
      (delivery (query_account_ready 5 empty_balance)) (balance empty_balance) logged_in lost-Quiet
      refl refl

query_loop-waits_example :
    (query_loop parse_time "268508" 5 of_account 1 lost logged_in).0 ≡ waiting
query_loop-waits_example =
    query_loop-waits parse_time "268508" 5 of_account 1 lost logged_in lost-Quiet

-- The order is partially filled, which does not end its cancel.
abbrev partial : List Delivery
partial = delivery (order_return order_report) ∷ []

partial-Quiet : Quiet (λ e. not (ends_cancel cancel 5 e)) partial
unfolding normalize_order_ref
partial-Quiet = ((order_return order_report, refl, refl), tt)

cancel_loop-ends_example :
    (cancel_loop parse_time cancel 1 5 (partial ++ delivery (cancel_action_ok 5) ∷ []) logged_in).0
    ≡ returned (ok tt) []
unfolding normalize_order_ref
cancel_loop-ends_example =
    cancel_loop-ends parse_time cancel 1 5 refl partial [] (delivery (cancel_action_ok 5))
      (cancel_action_ok 5) logged_in partial-Quiet refl refl

logout-silences_example :
    Silent ctp parse_time env order_report trade_report
      (handle_command ctp parse_time env (logout 1) [] logged_in).1
logout-silences_example =
    logout-silences ctp parse_time env 1 [] logged_in (1, 77) order_report trade_report refl

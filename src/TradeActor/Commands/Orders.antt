-- ===== src/TradeActor/Commands/Orders.antt =====
-- How an order placed through an account task of crates/server/src/actor/trade.rs is known again
-- when CTP reports on it.
use ctp_system.Prelude.{
  string_eq, ◌≡◌, sym, subst, ap, ◌∙◌, some, List, Result, ok, err, Option-cases, inl, inr,
}
use ctp_system.HashMap.{get, insert, get-insert_self}
use ctp_system.Model.Ctp.{normalize_order_ref}
use ctp_system.Model.Ctp.Normalize.{normalize_order_ref-idempotent}
use ctp_system.Model.Reports.{TimeParser, OrderReport, into_order, order_ref_key}
use ctp_system.Model.Types.{I32, ClientId, OrderRequest}
use ctp_system.Protocol.{order_update, Failure, text}
use ctp_system.Server.{
  EnvelopeTx, place_order, push_envelope_to_client, push_order_report, order_ref_lookup_key,
}
use ctp_system.TradeSession
use ctp_system.TradeSession.{Ctp, TradeSession, input_order}
use ctp_system.TradeSession.Events.{order_return}
use ctp_system.TradeActor.{
  Actor, Delivery, Status, on_server, on_session, send_error, neg, returned,
}
use ctp_system.TradeActor.Login.{Surroundings}
use ctp_system.TradeActor.Commands.{
  handle_command, handle_logged_in_trade_command, handle_logged_in_trade_event, context_of,
  register_and_insert_order, register_order,
}
use ctp_system.TradeActor.Commands.Gate.{handle_command_in}

module _ (ctp : Ctp) (parse_time : TimeParser) (env : Surroundings) where
  -- The connection is used; nothing else of the task is changed.
  on_session-registry :
      (missing : Failure) (m : TradeSession → Result Failure I32 × TradeSession) (a : Actor)
      → (on_session missing m a).1.order_registry ≡ a.order_registry
  unfolding on_session
  on_session-registry missing m a = elim (Option-cases a.session) [
    | inl n ↦ simp (n, on_session)
    | inr (s, n) ↦ simp (n, on_session)
  ]

  either_way :
      (P : Actor → Type 0) (r : Result Failure I32) (b : Actor)
      → P b
      → P
          (elim r as (λ x. Result Failure (Unit {0}) × Actor) [
            | ok _ ↦ (ok tt, b)
            | err e ↦ (err e, b)
          ]).1
  either_way P (ok r) b h = h
  either_way P (err e) b h = h

  answered :
      (P : Actor → Type 0) (tx : EnvelopeTx) (ds : List Delivery) (r : Result Failure (Unit {0}))
      (b : Actor)
      → P b
      → ((e : Failure) → P (send_error tx (neg 10) e b))
      → P
          (elim r as (λ x. Status × Actor) [
            | ok _ ↦ (returned (ok tt) ds, b)
            | err e ↦ (returned (err e) ds, send_error tx (neg 10) e b)
          ]).1
  answered P tx ds (ok r) b h k = h
  answered P tx ds (err e) b h k = k e

  -- The registry after an order was placed, whether or not it could be sent.
  abbrev Registered : ClientId → OrderRequest → Actor → Actor → Type 0
  Registered client order a b =
      b.order_registry
      ≡ insert (normalize_order_ref order.client_order_id) (context_of client order a.now)
          a.order_registry

  register_and_insert_order-Registered :
      (client : ClientId) (order : OrderRequest) (a : Actor)
      → Registered client order a (register_and_insert_order ctp parse_time env client order a).1
  unfolding register_and_insert_order register_order order_ref_key context_of
  register_and_insert_order-Registered client order a =
      let missing = text "trade session is not connected" in
      let sent =
        on_session missing (TradeSession.insert_order ctp order) (register_order client order a) in
      either_way (Registered client order a) sent.0 sent.1 (
        on_session-registry missing (TradeSession.insert_order ctp order)
          (register_order client order a))

  place_order_in :
      (client : ClientId) (order : OrderRequest) (tx : EnvelopeTx) (ds : List Delivery) (a : Actor)
      (s : TradeSession)
      → a.session ≡ some s
      → handle_logged_in_trade_command ctp parse_time env (place_order client order tx) ds a
        ≡ (elim (register_and_insert_order ctp parse_time env client order a).0
            as (λ x. Status × Actor) [
              | ok _ ↦ (
                returned (ok tt) ds,
                (register_and_insert_order ctp parse_time env client order a).1,
              )
              | err e ↦ (
                returned (err e) ds,
                send_error tx
                    (neg 10)
                    e
                    (register_and_insert_order ctp parse_time env client order a).1,
              )
            ])
  unfolding handle_logged_in_trade_command
  place_order_in client order tx ds a s n = simp (n, handle_logged_in_trade_command)

  place_order-Registered :
      (client : ClientId) (order : OrderRequest) (tx : EnvelopeTx) (ds : List Delivery) (a : Actor)
      (s : TradeSession)
      → a.session ≡ some s
      → Registered client order a
          (handle_logged_in_trade_command ctp parse_time env (place_order client order tx) ds a).1
  unfolding send_error
  place_order-Registered client order tx ds a s n =
      let inserted = register_and_insert_order ctp parse_time env client order a in
      let h = register_and_insert_order-Registered client order a in
      subst (λ (r : Status × Actor). Registered client order a r.1)
        (sym (place_order_in client order tx ds a s n))
        (answered (Registered client order a) tx ds inserted.0 inserted.1 h (λ e. h))

  -- A report on an order goes to the client that the registry has for its normal form.
  report_reaches :
      (client : ClientId) (order : OrderRequest) (report : OrderReport) (a b : Actor)
      → Registered client order a b
      → report.client_order_id ≡ normalize_order_ref order.client_order_id
      → handle_logged_in_trade_event ctp parse_time env (order_return report) b
        ≡ on_server
            (push_envelope_to_client client
              (order_update (into_order report (context_of client order a.now) b.now)))
            b
  unfolding handle_logged_in_trade_event push_order_report order_ref_lookup_key context_of
  report_reaches client order report a b h k =
      let key = normalize_order_ref order.client_order_id in
      let ctx = context_of client order a.now in
      let found : get (normalize_order_ref report.client_order_id) b.order_registry ≡ some ctx =
        ap (λ id. get (normalize_order_ref id) b.order_registry) k
        ∙ ap (λ j. get j b.order_registry) (normalize_order_ref-idempotent order.client_order_id)
        ∙ ap (get key) h
        ∙ get-insert_self key ctx a.order_registry in
      simp (found, handle_logged_in_trade_event, push_order_report)

  -- Once a task that is logged in and connected has handled the placing of an order, a report under
  -- the reference that the request to CTP carries goes to the client that placed it, merged with
  -- what is registered of the order. This holds also where the request could not be sent.
  pub placed_order-report :
      (client : ClientId) (order : OrderRequest) (tx : EnvelopeTx) (ds : List Delivery) (a : Actor)
      (ids : I32 × I32) (s : TradeSession) (rid : I32) (report : OrderReport)
      → a.logged_in_ids ≡ some ids
      → a.session ≡ some s
      → report.client_order_id ≡ (input_order ctp s.config order rid).order_ref
      → let b = (handle_command ctp parse_time env (place_order client order tx) ds a).1 in
        handle_logged_in_trade_event ctp parse_time env (order_return report) b
        ≡ on_server
            (push_envelope_to_client client
              (order_update (into_order report (context_of client order a.now) b.now)))
            b
  unfolding input_order
  placed_order-report client order tx ds a ids s rid report n m k =
      report_reaches client order report a
        (handle_command ctp parse_time env (place_order client order tx) ds a).1
        (subst (λ (r : Status × Actor). Registered client order a r.1)
          (sym (handle_command_in ctp parse_time env (place_order client order tx) ds a ids n))
          (place_order-Registered client order tx ds a s m))
        k

-- ===== src/TradeActor/Query/Outcome.antt =====
-- How a query of crates/server/src/actor/trade.rs ends, and what its client is sent.
use ctp_system.Prelude.{
  string_eq, unwrap_or, ◌≡◌, refl, ap, Bool, true, false, not, Option, none, some, List, [], ◌∷◌,
  ◌++◌, map, ok, String, arith, ◌==◌, nat_eq,
}
use ctp_system.HashMap.{get}
use ctp_system.Model.Types.{I32, AccountId, ClientId, DateTime, Order, AccountBalance, Position}
use ctp_system.Model.Ctp.Normalize.{normalize_order_ref}
use ctp_system.TradeSession.Fields.{order_report_to_wire_order}
use ctp_system.Model.Reports.{OrderContext, OrderReport, TradeReport, TimeParser, into_trade}
use ctp_system.Protocol.{
  Message, text, query_account_result, query_position_result, query_orders_result,
  query_trades_result, error,
}
use ctp_system.Server
use ctp_system.Server.{EnvelopeTx, OrderRegistry}
use ctp_system.TradeSession.Events.{
  TradeSessionEvent, query_account_ready, query_positions_ready, query_orders_ready,
  query_trades_ready, query_failed,
}
use ctp_system.TradeActor.{Actor, Delivery, returned, waiting, arrive, on_server, send_error}
use ctp_system.TradeActor.Loop.{Quiet, drive-waits, drive-first}
use ctp_system.TradeActor.Query.{
  QueryKind, of_account, of_positions, of_orders, of_trades, answer, failure, query_event,
  query_loop, wire_order, lookup_client_id, default_query_client_id,
}

-- The events that end a query: the result of its kind, and a failure, with its own request id.
abbrev pub ends_query : I32 → QueryKind → TradeSessionEvent → Bool
ends_query rid of_account (query_account_ready request_id balance) = request_id == rid
ends_query rid of_positions (query_positions_ready request_id positions) = request_id == rid
ends_query rid of_orders (query_orders_ready request_id orders) = request_id == rid
ends_query rid of_trades (query_trades_ready request_id trades) = request_id == rid
ends_query rid kind (query_failed request_id error_id msg) = request_id == rid
ends_query rid kind _ = false

-- What CTP answers to a query.
pub data Reply : Type 0 where
  balance : AccountBalance → Reply
  positions : List Position → Reply
  orders : List OrderReport → Reply
  trades : List TradeReport → Reply
  refusal : I32 → String → Reply

-- A refusal answers a query of any kind.
abbrev pub fits : QueryKind → Reply → Bool
fits of_account (balance b) = true
fits of_positions (positions ps) = true
fits of_orders (orders os) = true
fits of_trades (trades ts) = true
fits kind (refusal error_id msg) = true
fits kind reply = false

abbrev pub event_of : I32 → Reply → TradeSessionEvent
event_of rid (balance b) = query_account_ready rid b
event_of rid (positions ps) = query_positions_ready rid ps
event_of rid (orders os) = query_orders_ready rid os
event_of rid (trades ts) = query_trades_ready rid ts
event_of rid (refusal error_id msg) = query_failed rid error_id msg

-- The client that an order is shown under: the one that placed it here, by the normal form of the
-- reference, or else that of the first order of the registry.
abbrev owner : Option OrderContext → OrderRegistry → ClientId
owner (some ctx) registry = ctx.client_id
owner none [] = "query"
owner none ((key, ctx) ∷ registry) = ctx.client_id

abbrev shown : OrderRegistry → AccountId → DateTime → OrderReport → Order
shown registry account_id now report =
    order_report_to_wire_order report account_id
      (owner (get (normalize_order_ref report.client_order_id) registry) registry) now

-- What the client is sent for an answer.
abbrev pub message_of : TimeParser → AccountId → Actor → Reply → Message
message_of parse_time account_id a (balance b) = query_account_result b
message_of parse_time account_id a (positions ps) = query_position_result ps
message_of parse_time account_id a (orders os) =
    query_orders_result (map (shown a.order_registry account_id a.now) os)
message_of parse_time account_id a (trades ts) =
    query_trades_result (map (λ t. into_trade parse_time t account_id a.now) ts)
message_of parse_time account_id a (refusal error_id msg) =
    error (record { code = error_id; message = text msg })

owner_found :
    (found : Option OrderContext) (registry : OrderRegistry)
    → unwrap_or
        (elim found [ none ↦ none | some ctx ↦ some ctx.client_id ])
        (default_query_client_id registry)
      ≡ owner found registry
unfolding default_query_client_id
owner_found (some ctx) registry = refl
owner_found none [] = refl
owner_found none ((key, ctx) ∷ registry) = refl

wire_order-shown :
    (registry : OrderRegistry) (account_id : AccountId) (now : DateTime) (report : OrderReport)
    → wire_order registry account_id now report ≡ shown registry account_id now report
unfolding wire_order lookup_client_id Server.order_ref_lookup_key
wire_order-shown registry account_id now report =
    ap (λ client_id. order_report_to_wire_order report account_id client_id now)
      (owner_found (get (normalize_order_ref report.client_order_id) registry) registry)

wire_orders_shown :
    (registry : OrderRegistry) (account_id : AccountId) (now : DateTime) (os : List OrderReport)
    → map (wire_order registry account_id now) os ≡ map (shown registry account_id now) os
wire_orders_shown registry account_id now [] = refl
wire_orders_shown registry account_id now (report ∷ os) =
    simp (
      wire_order-shown registry account_id now report,
      wire_orders_shown registry account_id now os,
    )

module _ (parse_time : TimeParser) (account_id : AccountId) (rid : I32) (kind : QueryKind)
    (tx : EnvelopeTx) where
  query_event-again :
      (e : TradeSessionEvent) (a : Actor)
      → not (ends_query rid kind e) ≡ true
      → (query_event parse_time account_id rid kind tx e a).0 ≡ none
  unfolding query_event answer failure
  query_event-again e a h = ground arith

  query_event-replies :
      (reply : Reply) (a : Actor)
      → fits kind reply ≡ true
      → query_event parse_time account_id rid kind tx (event_of rid reply) a
        ≡ (some (ok tt), on_server (Server.send tx (message_of parse_time account_id a reply)) a)
  unfolding query_event answer failure send_error Server.send_error
  query_event-replies (balance b) a h = ground (arith, h)
  query_event-replies (positions ps) a h = ground (arith, h)
  query_event-replies (orders os) a h =
      ground (arith, h, wire_orders_shown a.order_registry account_id a.now os)
  query_event-replies (trades ts) a h = ground (arith, h)
  query_event-replies (refusal error_id msg) a h = ground (arith, h)

  quiet : TradeSessionEvent → Bool
  quiet e = not (ends_query rid kind e)

  -- After events that do not end the query, the answer of CTP to its own request, a result of its
  -- kind or a refusal, lets the loop return with success. The client that asked is sent the result,
  -- every order and trade of it in order, or the error with its code and text, and nothing else; what
  -- follows is still to be received.
  pub query_loop-replies :
      (before rest : List Delivery) (d : Delivery) (reply : Reply) (a : Actor)
      → Quiet (λ e. not (ends_query rid kind e)) before
      → d.event ≡ some (event_of rid reply)
      → fits kind reply ≡ true
      → let b = arrive d (query_loop parse_time account_id rid kind tx before a).1 in
        query_loop parse_time account_id rid kind tx (before ++ d ∷ rest) a ≡ (
          returned (ok tt) rest,
          on_server (Server.send tx (message_of parse_time account_id b reply)) b,
        )
  unfolding query_loop quiet
  query_loop-replies before rest d reply a q h f =
      let b = arrive d (query_loop parse_time account_id rid kind tx before a).1 in
      drive-first arrive (query_event parse_time account_id rid kind tx) quiet query_event-again
        before rest d (event_of rid reply) a
        (on_server (Server.send tx (message_of parse_time account_id b reply)) b) (ok tt) q h
        (query_event-replies reply b f)

  -- While no result of its kind and no failure with its request id has come, a query waits, also
  -- when the connection is lost meanwhile.
  pub query_loop-waits :
      (ds : List Delivery) (a : Actor)
      → Quiet (λ e. not (ends_query rid kind e)) ds
      → (query_loop parse_time account_id rid kind tx ds a).0 ≡ waiting
  unfolding query_loop quiet
  query_loop-waits ds a q =
      drive-waits arrive (query_event parse_time account_id rid kind tx) quiet query_event-again ds
        a q

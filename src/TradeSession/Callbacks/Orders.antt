-- ===== src/TradeSession/Callbacks/Orders.antt =====
-- The responses to a query of orders in crates/server/src/adapter/exchange/trade.rs.
use ctp_system.Prelude.{
  ◌≡◌, refl, ap, ◌∙◌, Bool, true, false, Option, none, some, inl, inr, Option-cases, [], ◌∷◌, ◌++◌,
  nat_eq,
}
use ctp_system.HashMap.{get, get-insert_self}
use ctp_system.Model.Types.{I32}
use ctp_system.Model.Reports.{OrderReport}
use ctp_system.TradeSession.Events.{PendingQuery, orders, query_orders_ready}
use ctp_system.TradeSession.Fields.{RspInfoField, OrderField}
use ctp_system.TradeSession.Spi
use ctp_system.TradeSession.Spi.{
  SharedState, rsp_error, report_of_order, report_of_trade, held_position, items_of_positions,
  items_of_orders, items_of_trades,
}
use ctp_system.TradeSession.Callbacks.Pending.{
  Touches, register-Touches, forget-Touches, forget_own, add_order,
}

module _ (id : I32) (s : SharedState) where
  append_order-Touches : (r : OrderReport) → Touches id s (Spi.append_order id r s)
  unfolding Spi.append_order
  append_order-Touches r rid h = elim (Option-cases (get id s.pending_queries)) [
    | inl n ↦ rw (n, Spi.append_order) refl
    | inr (orders items, n) ↦
        rw (n, Spi.append_order) (register-Touches id (orders (items ++ r ∷ [])) s rid h)
    | inr (_, n) ↦ rw (n, Spi.append_order) refl
  ]

  append_order_own :
      (r : OrderReport) (kind : PendingQuery)
      → get id s.pending_queries ≡ some kind
      → get id (Spi.append_order id r s).pending_queries ≡ some (add_order (some r) kind)
  unfolding Spi.append_order Spi.register_query
  append_order_own r (orders items) p =
      rw (p, Spi.append_order) (get-insert_self id (orders (items ++ r ∷ [])) s.pending_queries)
  append_order_own r _ p = rw (p, Spi.append_order) p

  append_order-events : (r : OrderReport) → (Spi.append_order id r s).events ≡ s.events
  unfolding Spi.append_order Spi.register_query
  append_order-events r = elim (Option-cases (get id s.pending_queries)) [
    | inl n ↦ rw (n, Spi.append_order) refl
    | inr (orders items, n) ↦ rw (n, Spi.append_order) refl
    | inr (_, n) ↦ rw (n, Spi.append_order) refl
  ]

module _ (id : I32) (s : SharedState) (field : Option OrderField) (info : Option RspInfoField) where
  pub order-own :
      (kind : PendingQuery)
      → rsp_error info ≡ none
      → get id s.pending_queries ≡ some kind
      → get id (Spi.on_rsp_qry_order field info id false s).pending_queries
        ≡ some (add_order (report_of_order field) kind)
  unfolding Spi.on_rsp_qry_order
  order-own kind n p = elim (Option-cases (report_of_order field)) [
    | inl m ↦ rw (n, m, Spi.on_rsp_qry_order) p
    | inr (r, m) ↦ rw (n, m, Spi.on_rsp_qry_order) (append_order_own id s r kind p)
  ]

  -- The last response emits everything that was collected and removes the pending query.
  pub on_rsp_qry_order-last :
      (kind : PendingQuery)
      → rsp_error info ≡ none
      → get id s.pending_queries ≡ some kind
      → ((Spi.on_rsp_qry_order field info id true s).events
          ≡ query_orders_ready id (items_of_orders (some (add_order (report_of_order field) kind)))
            ∷ s.events)
        × (get id (Spi.on_rsp_qry_order field info id true s).pending_queries ≡ none)
  unfolding Spi.on_rsp_qry_order Spi.emit Spi.take_orders
  on_rsp_qry_order-last kind n p = elim (Option-cases (report_of_order field)) [
    | inl m ↦
        rw (n, m, Spi.on_rsp_qry_order)
          (ap (λ k. query_orders_ready id (items_of_orders k) ∷ s.events) p, forget_own id s)
    | inr (r, m) ↦
        let s' = Spi.append_order id r s in
        rw (n, m, Spi.on_rsp_qry_order)
          (
            ap (λ k. query_orders_ready id (items_of_orders k) ∷ s'.events)
                  (append_order_own id s r kind p)
                ∙ ap
                    (λ events.
                      query_orders_ready id (items_of_orders (some (add_order (some r) kind)))
                      ∷ events)
                    (append_order-events id s r),
            forget_own id s',
          )
  ]

  pub order-other : (is_last : Bool) → Touches id s (Spi.on_rsp_qry_order field info id is_last s)
  unfolding Spi.on_rsp_qry_order
  order-other true rid h = elim (Option-cases (rsp_error info)) [
    | inr (e, n) ↦ rw (n, Spi.on_rsp_qry_order) (forget-Touches id s rid h)
    | inl n ↦ elim (Option-cases (report_of_order field)) [
      | inl m ↦ rw (n, m, Spi.on_rsp_qry_order) (forget-Touches id s rid h)
      | inr (r, m) ↦
          rw (n, m, Spi.on_rsp_qry_order)
            (forget-Touches id (Spi.append_order id r s) rid h ∙ append_order-Touches id s r rid h)
    ]
  ]
  order-other false rid h = elim (Option-cases (rsp_error info)) [
    | inr (e, n) ↦ rw (n, Spi.on_rsp_qry_order) (forget-Touches id s rid h)
    | inl n ↦ elim (Option-cases (report_of_order field)) [
      | inl m ↦ rw (n, m, Spi.on_rsp_qry_order) refl
      | inr (r, m) ↦ rw (n, m, Spi.on_rsp_qry_order) (append_order-Touches id s r rid h)
    ]
  ]

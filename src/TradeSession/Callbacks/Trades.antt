-- ===== src/TradeSession/Callbacks/Trades.antt =====
-- The responses to a query of trades in crates/server/src/adapter/exchange/trade.rs.
use ctp_system.Prelude.{
  ◌≡◌, refl, ap, ◌∙◌, Bool, true, false, Option, none, some, inl, inr, Option-cases, [], ◌∷◌, ◌++◌,
  nat_eq,
}
use ctp_system.HashMap.{get, get-insert_self}
use ctp_system.Model.Types.{I32}
use ctp_system.Model.Reports.{TradeReport}
use ctp_system.TradeSession.Events.{PendingQuery, trades, query_trades_ready}
use ctp_system.TradeSession.Fields.{RspInfoField, TradeField}
use ctp_system.TradeSession.Spi
use ctp_system.TradeSession.Spi.{
  SharedState, rsp_error, report_of_order, report_of_trade, held_position, items_of_positions,
  items_of_orders, items_of_trades,
}
use ctp_system.TradeSession.Callbacks.Pending.{
  Touches, register-Touches, forget-Touches, forget_own, add_trade,
}

module _ (id : I32) (s : SharedState) where
  append_trade-Touches : (r : TradeReport) → Touches id s (Spi.append_trade id r s)
  unfolding Spi.append_trade
  append_trade-Touches r rid h = elim (Option-cases (get id s.pending_queries)) [
    | inl n ↦ rw (n, Spi.append_trade) refl
    | inr (trades items, n) ↦
        rw (n, Spi.append_trade) (register-Touches id (trades (items ++ r ∷ [])) s rid h)
    | inr (_, n) ↦ rw (n, Spi.append_trade) refl
  ]

  append_trade_own :
      (r : TradeReport) (kind : PendingQuery)
      → get id s.pending_queries ≡ some kind
      → get id (Spi.append_trade id r s).pending_queries ≡ some (add_trade (some r) kind)
  unfolding Spi.append_trade Spi.register_query
  append_trade_own r (trades items) p =
      rw (p, Spi.append_trade) (get-insert_self id (trades (items ++ r ∷ [])) s.pending_queries)
  append_trade_own r _ p = rw (p, Spi.append_trade) p

  append_trade-events : (r : TradeReport) → (Spi.append_trade id r s).events ≡ s.events
  unfolding Spi.append_trade Spi.register_query
  append_trade-events r = elim (Option-cases (get id s.pending_queries)) [
    | inl n ↦ rw (n, Spi.append_trade) refl
    | inr (trades items, n) ↦ rw (n, Spi.append_trade) refl
    | inr (_, n) ↦ rw (n, Spi.append_trade) refl
  ]

module _ (id : I32) (s : SharedState) (field : Option TradeField) (info : Option RspInfoField) where
  pub trade-own :
      (kind : PendingQuery)
      → rsp_error info ≡ none
      → get id s.pending_queries ≡ some kind
      → get id (Spi.on_rsp_qry_trade field info id false s).pending_queries
        ≡ some (add_trade (report_of_trade field) kind)
  unfolding Spi.on_rsp_qry_trade
  trade-own kind n p = elim (Option-cases (report_of_trade field)) [
    | inl m ↦ rw (n, m, Spi.on_rsp_qry_trade) p
    | inr (r, m) ↦ rw (n, m, Spi.on_rsp_qry_trade) (append_trade_own id s r kind p)
  ]

  -- The last response emits everything that was collected and removes the pending query.
  pub on_rsp_qry_trade-last :
      (kind : PendingQuery)
      → rsp_error info ≡ none
      → get id s.pending_queries ≡ some kind
      → ((Spi.on_rsp_qry_trade field info id true s).events
          ≡ query_trades_ready id (items_of_trades (some (add_trade (report_of_trade field) kind)))
            ∷ s.events)
        × (get id (Spi.on_rsp_qry_trade field info id true s).pending_queries ≡ none)
  unfolding Spi.on_rsp_qry_trade Spi.emit Spi.take_trades
  on_rsp_qry_trade-last kind n p = elim (Option-cases (report_of_trade field)) [
    | inl m ↦
        rw (n, m, Spi.on_rsp_qry_trade)
          (ap (λ k. query_trades_ready id (items_of_trades k) ∷ s.events) p, forget_own id s)
    | inr (r, m) ↦
        let s' = Spi.append_trade id r s in
        rw (n, m, Spi.on_rsp_qry_trade)
          (
            ap (λ k. query_trades_ready id (items_of_trades k) ∷ s'.events)
                  (append_trade_own id s r kind p)
                ∙ ap
                    (λ events.
                      query_trades_ready id (items_of_trades (some (add_trade (some r) kind)))
                      ∷ events)
                    (append_trade-events id s r),
            forget_own id s',
          )
  ]

  pub trade-other : (is_last : Bool) → Touches id s (Spi.on_rsp_qry_trade field info id is_last s)
  unfolding Spi.on_rsp_qry_trade
  trade-other true rid h = elim (Option-cases (rsp_error info)) [
    | inr (e, n) ↦ rw (n, Spi.on_rsp_qry_trade) (forget-Touches id s rid h)
    | inl n ↦ elim (Option-cases (report_of_trade field)) [
      | inl m ↦ rw (n, m, Spi.on_rsp_qry_trade) (forget-Touches id s rid h)
      | inr (r, m) ↦
          rw (n, m, Spi.on_rsp_qry_trade)
            (forget-Touches id (Spi.append_trade id r s) rid h ∙ append_trade-Touches id s r rid h)
    ]
  ]
  trade-other false rid h = elim (Option-cases (rsp_error info)) [
    | inr (e, n) ↦ rw (n, Spi.on_rsp_qry_trade) (forget-Touches id s rid h)
    | inl n ↦ elim (Option-cases (report_of_trade field)) [
      | inl m ↦ rw (n, m, Spi.on_rsp_qry_trade) refl
      | inr (r, m) ↦ rw (n, m, Spi.on_rsp_qry_trade) (append_trade-Touches id s r rid h)
    ]
  ]

-- ===== src/TradeSession/Callbacks/Positions.antt =====
-- The responses to a query of positions in crates/server/src/adapter/exchange/trade.rs.
use ctp_system.Prelude.{
  ◌≡◌, refl, ap, ◌∙◌, Bool, true, false, Option, none, some, inl, inr, Option-cases, [], ◌∷◌, ◌++◌,
  nat_eq,
}
use ctp_system.HashMap.{get, get-insert_self}
use ctp_system.Model.Types.{I32, Position}
use ctp_system.TradeSession.Events.{PendingQuery, positions, query_positions_ready}
use ctp_system.TradeSession.Fields.{RspInfoField, InvestorPositionField}
use ctp_system.TradeSession.Spi
use ctp_system.TradeSession.Spi.{
  SharedState, rsp_error, report_of_order, report_of_trade, held_position, items_of_positions,
  items_of_orders, items_of_trades,
}
use ctp_system.TradeSession.Callbacks.Pending.{
  Touches, register-Touches, forget-Touches, forget_own, add_position,
}

module _ (id : I32) (s : SharedState) where
  append_position-Touches : (r : Position) → Touches id s (Spi.append_position id r s)
  unfolding Spi.append_position
  append_position-Touches r rid h = elim (Option-cases (get id s.pending_queries)) [
    | inl n ↦ rw (n, Spi.append_position) refl
    | inr (positions items, n) ↦
        rw (n, Spi.append_position) (register-Touches id (positions (items ++ r ∷ [])) s rid h)
    | inr (_, n) ↦ rw (n, Spi.append_position) refl
  ]

  append_position_own :
      (r : Position) (kind : PendingQuery)
      → get id s.pending_queries ≡ some kind
      → get id (Spi.append_position id r s).pending_queries ≡ some (add_position (some r) kind)
  unfolding Spi.append_position Spi.register_query
  append_position_own r (positions items) p =
      rw (p, Spi.append_position)
        (get-insert_self id (positions (items ++ r ∷ [])) s.pending_queries)
  append_position_own r _ p = rw (p, Spi.append_position) p

  append_position-events : (r : Position) → (Spi.append_position id r s).events ≡ s.events
  unfolding Spi.append_position Spi.register_query
  append_position-events r = elim (Option-cases (get id s.pending_queries)) [
    | inl n ↦ rw (n, Spi.append_position) refl
    | inr (positions items, n) ↦ rw (n, Spi.append_position) refl
    | inr (_, n) ↦ rw (n, Spi.append_position) refl
  ]

module _ (id : I32) (s : SharedState) (field : Option InvestorPositionField)
    (info : Option RspInfoField) where
  pub position-own :
      (kind : PendingQuery)
      → rsp_error info ≡ none
      → get id s.pending_queries ≡ some kind
      → get id (Spi.on_rsp_qry_investor_position field info id false s).pending_queries
        ≡ some (add_position (held_position field) kind)
  unfolding Spi.on_rsp_qry_investor_position
  position-own kind n p = elim (Option-cases (held_position field)) [
    | inl m ↦ rw (n, m, Spi.on_rsp_qry_investor_position) p
    | inr (r, m) ↦ rw (n, m, Spi.on_rsp_qry_investor_position) (append_position_own id s r kind p)
  ]

  -- The last response emits everything that was collected and removes the pending query.
  pub on_rsp_qry_investor_position-last :
      (kind : PendingQuery)
      → rsp_error info ≡ none
      → get id s.pending_queries ≡ some kind
      → ((Spi.on_rsp_qry_investor_position field info id true s).events
          ≡ query_positions_ready id
              (items_of_positions (some (add_position (held_position field) kind)))
            ∷ s.events)
        × (get id (Spi.on_rsp_qry_investor_position field info id true s).pending_queries ≡ none)
  unfolding Spi.on_rsp_qry_investor_position Spi.emit Spi.take_positions
  on_rsp_qry_investor_position-last kind n p = elim (Option-cases (held_position field)) [
    | inl m ↦
        rw (n, m, Spi.on_rsp_qry_investor_position)
          (ap (λ k. query_positions_ready id (items_of_positions k) ∷ s.events) p, forget_own id s)
    | inr (r, m) ↦
        let s' = Spi.append_position id r s in
        rw (n, m, Spi.on_rsp_qry_investor_position)
          (
            ap (λ k. query_positions_ready id (items_of_positions k) ∷ s'.events)
                  (append_position_own id s r kind p)
                ∙ ap
                    (λ events.
                      query_positions_ready id
                        (items_of_positions (some (add_position (some r) kind)))
                      ∷ events)
                    (append_position-events id s r),
            forget_own id s',
          )
  ]

  pub position-other :
      (is_last : Bool) → Touches id s (Spi.on_rsp_qry_investor_position field info id is_last s)
  unfolding Spi.on_rsp_qry_investor_position
  position-other true rid h = elim (Option-cases (rsp_error info)) [
    | inr (e, n) ↦ rw (n, Spi.on_rsp_qry_investor_position) (forget-Touches id s rid h)
    | inl n ↦ elim (Option-cases (held_position field)) [
      | inl m ↦ rw (n, m, Spi.on_rsp_qry_investor_position) (forget-Touches id s rid h)
      | inr (r, m) ↦
          rw (n, m, Spi.on_rsp_qry_investor_position)
            (forget-Touches id (Spi.append_position id r s) rid h
              ∙ append_position-Touches id s r rid h)
    ]
  ]
  position-other false rid h = elim (Option-cases (rsp_error info)) [
    | inr (e, n) ↦ rw (n, Spi.on_rsp_qry_investor_position) (forget-Touches id s rid h)
    | inl n ↦ elim (Option-cases (held_position field)) [
      | inl m ↦ rw (n, m, Spi.on_rsp_qry_investor_position) refl
      | inr (r, m) ↦
          rw (n, m, Spi.on_rsp_qry_investor_position) (append_position-Touches id s r rid h)
    ]
  ]

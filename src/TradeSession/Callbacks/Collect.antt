-- ===== src/TradeSession/Callbacks/Collect.antt =====
-- What a query collects from the responses to it, whatever comes between them.
use ctp_system.Prelude.{
  ℕ, ◌≡◌, refl, ap, ◌∙◌, sym, subst, inl, inr, Bool, true, false, ◌&&◌, ◌||◌, Option, none, some,
  is_some, Bool-cases, Option-cases, inl, inr, List, [], ◌∷◌, arith, ◌==◌, nat_eq, if◌then◌else◌,
  All,
}
use ctp_system.HashMap.{get}
use ctp_system.TradeSession.Spi.{items_of_positions, items_of_orders, items_of_trades}
use ctp_system.Model.Types.{I32}
use ctp_system.TradeSession.Events.{
  PendingQuery, positions, orders, trades, query_positions_ready, query_orders_ready,
  query_trades_ready,
}
use ctp_system.TradeSession.Spi
use ctp_system.TradeSession.Spi.{
  SharedState, rsp_error, report_of_order, report_of_trade, held_position,
}
use ctp_system.TradeSession.Fields.{
  TradingAccountField, RspInfoField, InvestorPositionField, OrderField, TradeField,
}
use ctp_system.TradeSession.Callbacks.Pending.{
  Touches, forget-Touches, add_position, add_order, add_trade,
}
use ctp_system.TradeSession.Callbacks.Orders.{on_rsp_qry_order-last, order-own, order-other}
use ctp_system.TradeSession.Callbacks.Positions.{
  on_rsp_qry_investor_position-last, position-own, position-other,
}
use ctp_system.TradeSession.Callbacks.Trades.{on_rsp_qry_trade-last, trade-own, trade-other}
use ctp_system.TradeSession.Callbacks.{
  Callback, rsp_order_action, rsp_qry_trading_account, rsp_qry_investor_position, rsp_qry_order,
  rsp_qry_trade, call, run,
}

-- The callbacks that remove the pending query `rid`: the last response to it, and an error.
abbrev pub closes : I32 → Callback → Bool
closes rid (rsp_order_action info id) = id == rid
closes rid (rsp_qry_trading_account field info id is_last) =
    id == rid && (is_some (rsp_error info) || is_last)
closes rid (rsp_qry_investor_position field info id is_last) =
    id == rid && (is_some (rsp_error info) || is_last)
closes rid (rsp_qry_order field info id is_last) =
    id == rid && (is_some (rsp_error info) || is_last)
closes rid (rsp_qry_trade field info id is_last) =
    id == rid && (is_some (rsp_error info) || is_last)
closes rid _ = false

-- The pending query `rid` with what the response adds to it.
abbrev pub absorb : I32 → Callback → PendingQuery → PendingQuery
absorb rid (rsp_qry_investor_position field info id is_last) kind =
    if id == rid then add_position (held_position field) kind else kind
absorb rid (rsp_qry_order field info id is_last) kind =
    if id == rid then add_order (report_of_order field) kind else kind
absorb rid (rsp_qry_trade field info id is_last) kind =
    if id == rid then add_trade (report_of_trade field) kind else kind
absorb rid _ kind = kind

abbrev pub absorb_all : I32 → List Callback → PendingQuery → PendingQuery
absorb_all rid [] kind = kind
absorb_all rid (c ∷ cs) kind = absorb_all rid cs (absorb rid c kind)

none_of : {A : Type 0} (o : Option A) → is_some o ≡ false → o ≡ none
none_of none h = refl
none_of (some a) h = ground (arith, h)

either : (b : Bool) (kind : PendingQuery) → (if b then kind else kind) ≡ kind
either b kind = ground arith

nat_beq_to : (m n : ℕ) → (m == n) ≡ true → m ≡ n
nat_beq_to m n h = ground (arith, h)

module _ (id : I32) (s : SharedState) (field : Option TradingAccountField)
    (info : Option RspInfoField) where
  account_own :
      (kind : PendingQuery)
      → rsp_error info ≡ none
      → get id s.pending_queries ≡ some kind
      → get id (Spi.on_rsp_qry_trading_account field info id false s).pending_queries ≡ some kind
  unfolding Spi.on_rsp_qry_trading_account
  account_own kind n p = rw (n, Spi.on_rsp_qry_trading_account) p

  account-other :
      (is_last : Bool) → Touches id s (Spi.on_rsp_qry_trading_account field info id is_last s)
  unfolding Spi.on_rsp_qry_trading_account
  account-other true rid h = elim (Option-cases (rsp_error info)) [
    | inr (e, n) ↦ rw (n, Spi.on_rsp_qry_trading_account) (forget-Touches id s rid h)
    | inl n ↦ rw (n, Spi.on_rsp_qry_trading_account) (forget-Touches id s rid h)
  ]
  account-other false rid h = elim (Option-cases (rsp_error info)) [
    | inr (e, n) ↦ rw (n, Spi.on_rsp_qry_trading_account) (forget-Touches id s rid h)
    | inl n ↦ rw (n, Spi.on_rsp_qry_trading_account) refl
  ]

order_action-Touches :
    (id : I32) (s : SharedState) (info : Option RspInfoField)
    → Touches id s (Spi.on_rsp_order_action info id s)
unfolding Spi.on_rsp_order_action
order_action-Touches id s info rid h = elim (Option-cases (rsp_error info)) [
  | inr (e, n) ↦ rw (n, Spi.on_rsp_order_action) (forget-Touches id s rid h)
  | inl n ↦ rw (n, Spi.on_rsp_order_action) (forget-Touches id s rid h)
]

module _ (rid id : I32) (s : SharedState) (info : Option RspInfoField) where
  -- One response, to this query or to another, that does not close it.
  response :
      (f : I32 → Bool → SharedState → SharedState) (kind grown : PendingQuery) (is_last : Bool)
      → (rsp_error info ≡ none → get rid (f rid false s).pending_queries ≡ some grown)
      → ((b : Bool) → Touches id s (f id b s))
      → (id == rid && (is_some (rsp_error info) || is_last)) ≡ false
      → get rid s.pending_queries ≡ some kind
      → get rid (f id is_last s).pending_queries ≡ some (if id == rid then grown else kind)
  response f kind grown is_last own other h p = elim (Bool-cases (id == rid)) [
    | inl e ↦
        let last : is_last ≡ false = ground (arith, e, h) in
        let no_error : is_some (rsp_error info) ≡ false = ground (arith, e, h) in
        let same : id ≡ rid = nat_beq_to id rid e in
        rw (e, last)
          (subst (λ j. get rid (f j false s).pending_queries ≡ some grown) (sym same)
            (own (none_of (rsp_error info) no_error)))
    | inr e ↦ rw e (other is_last rid e ∙ p)
  ]

module _ (rid : I32) where
  call-absorb :
      (c : Callback) (kind : PendingQuery) (s : SharedState)
      → closes rid c ≡ false
      → get rid s.pending_queries ≡ some kind
      → get rid (call c s).pending_queries ≡ some (absorb rid c kind)
  unfolding call
  call-absorb (rsp_qry_order field info id is_last) kind s h p =
      response rid id s info (Spi.on_rsp_qry_order field info) kind
        (add_order (report_of_order field) kind) is_last (λ n. order-own rid s field info kind n p)
        (order-other id s field info) h p
  call-absorb (rsp_qry_trade field info id is_last) kind s h p =
      response rid id s info (Spi.on_rsp_qry_trade field info) kind
        (add_trade (report_of_trade field) kind) is_last (λ n. trade-own rid s field info kind n p)
        (trade-other id s field info) h p
  call-absorb (rsp_qry_investor_position field info id is_last) kind s h p =
      response rid id s info (Spi.on_rsp_qry_investor_position field info) kind
        (add_position (held_position field) kind) is_last
        (λ n. position-own rid s field info kind n p) (position-other id s field info) h p
  call-absorb (rsp_qry_trading_account field info id is_last) kind s h p =
      response rid id s info (Spi.on_rsp_qry_trading_account field info) kind kind is_last
        (λ n. account_own rid s field info kind n p) (account-other id s field info) h p
      ∙ ap (λ k. some k) (either (id == rid) kind)
  call-absorb (rsp_order_action info id) kind s h p = order_action-Touches id s info rid h ∙ p
  call-absorb _ kind s h p = ground arith

  -- Whatever callbacks come that do not close it, a pending query collects exactly what the
  -- responses with its request id add to it, in their order.
  pub run-absorb :
      (cs : List Callback) (kind : PendingQuery) (s : SharedState)
      → All (λ c. closes rid c ≡ false) cs
      → get rid s.pending_queries ≡ some kind
      → get rid (run cs s).pending_queries ≡ some (absorb_all rid cs kind)
  unfolding run
  run-absorb [] kind s h p = p
  run-absorb (c ∷ cs) kind s h p =
      run-absorb cs (absorb rid c kind) (call c s) h.1 (call-absorb c kind s h.0 p)

  -- A pending query of orders survives all callbacks that do not close it. Then the last response, without an error, emits one event with the
  -- readable orders of all responses to the query in their order, and removes the pending entry.
  pub orders_complete :
      (cs : List Callback) (s : SharedState) (field : Option OrderField)
      (info : Option RspInfoField)
      → All (λ c. closes rid c ≡ false) cs
      → get rid s.pending_queries ≡ some (orders [])
      → rsp_error info ≡ none
      → ((call (rsp_qry_order field info rid true) (run cs s)).events
          ≡ query_orders_ready rid (
              items_of_orders
                (some (add_order (report_of_order field) (absorb_all rid cs (orders [])))))
            ∷ (run cs s).events)
        × (get rid (call (rsp_qry_order field info rid true) (run cs s)).pending_queries ≡ none)
  unfolding call
  orders_complete cs s field info h p n =
      on_rsp_qry_order-last rid (run cs s) field info (absorb_all rid cs (orders [])) n
        (run-absorb cs (orders []) s h p)

  -- A pending query of trades survives all callbacks that do not close it. Then the last response, without an error, emits one event with the
  -- readable trades of all responses to the query in their order, and removes the pending entry.
  pub trades_complete :
      (cs : List Callback) (s : SharedState) (field : Option TradeField)
      (info : Option RspInfoField)
      → All (λ c. closes rid c ≡ false) cs
      → get rid s.pending_queries ≡ some (trades [])
      → rsp_error info ≡ none
      → ((call (rsp_qry_trade field info rid true) (run cs s)).events
          ≡ query_trades_ready rid (
              items_of_trades
                (some (add_trade (report_of_trade field) (absorb_all rid cs (trades [])))))
            ∷ (run cs s).events)
        × (get rid (call (rsp_qry_trade field info rid true) (run cs s)).pending_queries ≡ none)
  unfolding call
  trades_complete cs s field info h p n =
      on_rsp_qry_trade-last rid (run cs s) field info (absorb_all rid cs (trades [])) n
        (run-absorb cs (trades []) s h p)

  -- A pending query of positions survives all callbacks that do not close it. Then the last response, without an error, emits one event with the
  -- readable positions with a volume other than 0 of all responses to the query in their order, and removes the pending entry.
  pub positions_complete :
      (cs : List Callback) (s : SharedState) (field : Option InvestorPositionField)
      (info : Option RspInfoField)
      → All (λ c. closes rid c ≡ false) cs
      → get rid s.pending_queries ≡ some (positions [])
      → rsp_error info ≡ none
      → ((call (rsp_qry_investor_position field info rid true) (run cs s)).events
          ≡ query_positions_ready rid (
              items_of_positions
                (some (add_position (held_position field) (absorb_all rid cs (positions [])))))
            ∷ (run cs s).events)
        × (get rid (call (rsp_qry_investor_position field info rid true) (run cs s)).pending_queries
            ≡ none)
  unfolding call
  positions_complete cs s field info h p n =
      on_rsp_qry_investor_position-last rid (run cs s) field info (absorb_all rid cs (positions []))
        n (run-absorb cs (positions []) s h p)

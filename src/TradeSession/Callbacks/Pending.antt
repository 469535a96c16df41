-- ===== src/TradeSession/Callbacks/Pending.antt =====
-- The entries of `pending_queries` in crates/server/src/adapter/exchange/trade.rs.
use ctp_system.Prelude.{
  ◌≡◌, refl, false, Option, none, some, [], ◌∷◌, ◌++◌, arith, ◌==◌, nat_eq, beq_refl,
}
use ctp_system.HashMap.{get, get-insert, get-remove}
use ctp_system.Model.Types.{I32, Position}
use ctp_system.Model.Reports.{OrderReport, TradeReport}
use ctp_system.TradeSession.Events.{PendingQuery, positions, orders, trades}
use ctp_system.TradeSession.Spi
use ctp_system.TradeSession.Spi.{
  SharedState, rsp_error, report_of_order, report_of_trade, held_position, items_of_positions,
  items_of_orders, items_of_trades,
}

abbrev pub add_position : Option Position → PendingQuery → PendingQuery
add_position (some r) (positions items) = positions (items ++ r ∷ [])
add_position _ kind = kind

abbrev pub add_order : Option OrderReport → PendingQuery → PendingQuery
add_order (some r) (orders items) = orders (items ++ r ∷ [])
add_order _ kind = kind

abbrev pub add_trade : Option TradeReport → PendingQuery → PendingQuery
add_trade (some r) (trades items) = trades (items ++ r ∷ [])
add_trade _ kind = kind

-- The entry `id` alone is written.
abbrev pub Touches : I32 → SharedState → SharedState → Type 0
Touches id s s' =
    (rid : I32) → (id == rid) ≡ false → get rid s'.pending_queries ≡ get rid s.pending_queries

pub register-Touches :
    (id : I32) (kind : PendingQuery) (s : SharedState) → Touches id s (Spi.register_query id kind s)
unfolding Spi.register_query
register-Touches id kind s rid h = rw (get-insert id rid kind s.pending_queries) (ground (arith, h))

pub forget-Touches : (id : I32) (s : SharedState) → Touches id s (Spi.forget id s)
unfolding Spi.forget
forget-Touches id s rid h = rw (get-remove id rid s.pending_queries) (ground (arith, h))

pub forget_own : (id : I32) (s : SharedState) → get id (Spi.forget id s).pending_queries ≡ none
unfolding Spi.forget
forget_own id s = rw (get-remove id id s.pending_queries, beq_refl id) refl

-- ===== src/Routing/Effects.antt =====
-- What the routing methods of crates/server/src/actor/trade.rs may put into the channels of the
-- account tasks.
use ctp_system.Prelude.{
  String, ◌≡◌, refl, ap, ◌∙◌, ◌⊎◌, inl, inr, true, Option, some, ◌∷◌, Result, ok, err, continue,
  string_eq, Bool-cases, Option-cases,
}
use ctp_system.HashMap.{get, get-insert_self}
use ctp_system.Model.Enums.{connecting}
use ctp_system.Model.Types.{
  ClientId, AccountId, InstrumentId, AccountCredentials, OrderRequest, CancelRequest, DateTime,
}
use ctp_system.Protocol.{Failure}
use ctp_system.Session
use ctp_system.Session.Access.{Access, any_access, read_access, write_access, allows, ensure_iff}
use ctp_system.Server.{Server, EnvelopeTx, TradeSessionActor, TradeSessionCommand}
use ctp_system.Routing.{
  send_command, send_login, set_state, bind, actor_for, bind_account, bind_checked,
  send_trade_command, place_order, cancel_order, query_account, query_position, query_orders,
  query_trades, logout_account,
}

-- The command is in the channel of the account's task, on top of what was sent before.
abbrev pub Posts : Server → Server → AccountId → TradeSessionCommand → Type 0
Posts w w' account command =
    (actor : TradeSessionActor) × (get account w'.state.trade_sessions ≡ some actor)
    × (w'.trade_commands ≡ (actor.command_tx, command) ∷ w.trade_commands)

-- Nothing is sent to any task, or the command is, and the client's permission on the account
-- allows it.
abbrev pub Effect : Server → Server → ClientId → AccountId → Access → TradeSessionCommand → Type 0
Effect w w' client account access command =
    (w'.trade_commands ≡ w.trade_commands)
    ⊎ ((allows (Session.permission_for client account w.state.sessions) access ≡ true)
        × Posts w w' account command)

module _ (w : Server) (client account : String) (access : Access)
    (command : TradeSessionCommand) where
  send_trade_command-Effect :
      allows (Session.permission_for client account w.state.sessions) access ≡ true
      → Effect w (send_trade_command account command w).1 client account access command
  unfolding send_trade_command
  send_trade_command-Effect granted = elim (Option-cases (get account w.state.trade_sessions)) [
    | inl e ↦ rw (e, send_trade_command) (inl refl)
    | inr (actor, e) ↦ elim (Bool-cases (w.is_open actor.command_tx)) [
      | inl o ↦ rw (e, send_trade_command) (rw (o, send_command) (inr (granted, (actor, e, refl))))
      | inr o ↦ rw (e, send_trade_command) (rw (o, send_command) (inl refl))
    ]
  ]

  guarded-Effect :
      (checked : Result Failure (Unit {0}))
      → (checked ≡ ok tt
          → allows (Session.permission_for client account w.state.sessions) access ≡ true)
      → Effect w
          (continue (checked, w) (λ _. send_trade_command account command)).1
          client
          account
          access
          command
  guarded-Effect (err e) granted = inl refl
  guarded-Effect (ok tt) granted = send_trade_command-Effect (granted refl)

module _ (c : ClientId) (tx : EnvelopeTx) (w : Server) where
  pub place_order-Effect :
      (order : OrderRequest)
      → Effect w
          (place_order c order tx w).1
          c
          order.account_id
          write_access
          (TradeSessionCommand.place_order c order tx)
  unfolding place_order
  place_order-Effect order =
      guarded-Effect w c order.account_id write_access _
        (Session.ensure_write_access c order.account_id "place order" w.state.sessions)
        (ensure_iff write_access c order.account_id "place order" w.state.sessions).0

  pub cancel_order-Effect :
      (cancel : CancelRequest)
      → Effect w
          (cancel_order c cancel tx w).1
          c
          cancel.account_id
          write_access
          (TradeSessionCommand.cancel_order cancel tx)
  unfolding cancel_order
  cancel_order-Effect cancel =
      guarded-Effect w c cancel.account_id write_access _
        (Session.ensure_write_access c cancel.account_id "cancel order" w.state.sessions)
        (ensure_iff write_access c cancel.account_id "cancel order" w.state.sessions).0

  pub logout_account-Effect :
      (a : AccountId)
      → Effect w (logout_account c a tx w).1 c a write_access (TradeSessionCommand.logout tx)
  unfolding logout_account
  logout_account-Effect a =
      guarded-Effect w c a write_access _
        (Session.ensure_write_access c a "account logout" w.state.sessions)
        (ensure_iff write_access c a "account logout" w.state.sessions).0

  pub query_account-Effect :
      (a : AccountId)
      → Effect w (query_account c a tx w).1 c a read_access (TradeSessionCommand.query_account a tx)
  unfolding query_account
  query_account-Effect a =
      guarded-Effect w c a read_access _
        (Session.ensure_read_access c a "query account" w.state.sessions)
        (ensure_iff read_access c a "query account" w.state.sessions).0

  pub query_position-Effect :
      (a : AccountId) (i : Option InstrumentId)
      → Effect w
          (query_position c a i tx w).1
          c
          a
          read_access
          (TradeSessionCommand.query_position a i tx)
  unfolding query_position
  query_position-Effect a i =
      guarded-Effect w c a read_access _
        (Session.ensure_read_access c a "query position" w.state.sessions)
        (ensure_iff read_access c a "query position" w.state.sessions).0

  pub query_orders-Effect :
      (a : AccountId)
      → Effect w (query_orders c a tx w).1 c a read_access (TradeSessionCommand.query_orders a tx)
  unfolding query_orders
  query_orders-Effect a =
      guarded-Effect w c a read_access _
        (Session.ensure_read_access c a "query orders" w.state.sessions)
        (ensure_iff read_access c a "query orders" w.state.sessions).0

  pub query_trades-Effect :
      (a : AccountId)
      → Effect w (query_trades c a tx w).1 c a read_access (TradeSessionCommand.query_trades a tx)
  unfolding query_trades
  query_trades-Effect a =
      guarded-Effect w c a read_access _
        (Session.ensure_read_access c a "query trades" w.state.sessions)
        (ensure_iff read_access c a "query trades" w.state.sessions).0

  send_login-Posts :
      (credentials : AccountCredentials) (now : DateTime) (actor : TradeSessionActor)
      → get credentials.account_id w.state.trade_sessions ≡ some actor
      → ((send_login credentials tx now (actor, w)).1.trade_commands ≡ w.trade_commands)
        ⊎ Posts w
            (send_login credentials tx now (actor, w)).1
            credentials.account_id
            (TradeSessionCommand.login credentials tx)
  unfolding send_login
  send_login-Posts credentials now actor e = elim (Bool-cases (w.is_open actor.command_tx)) [
    | inl o ↦ rw (o, send_login) (inr (actor, e, refl))
    | inr o ↦ rw (o, send_login) (inl refl)
  ]

actor_for_lem :
    (a : AccountId) (w : Server)
    → (get a (actor_for a w).1.state.trade_sessions ≡ some (actor_for a w).0)
      × ((actor_for a w).1.trade_commands ≡ w.trade_commands)
unfolding actor_for
actor_for_lem a w = elim (Option-cases (get a w.state.trade_sessions)) [
  | inl e ↦ rw (e, actor_for) (get-insert_self a _ w.state.trade_sessions, refl)
  | inr (actor, e) ↦ rw (e, actor_for) (e, refl)
]

Posts-or_not_trans :
    (v w w' : Server) (a : AccountId) (command : TradeSessionCommand)
    → w.trade_commands ≡ v.trade_commands
    → (w'.trade_commands ≡ w.trade_commands) ⊎ Posts w w' a command
    → (w'.trade_commands ≡ v.trade_commands) ⊎ Posts v w' a command
Posts-or_not_trans v w w' a command kept (inl e) = inl (e ∙ kept)
Posts-or_not_trans v w w' a command kept (inr (it, g, e)) =
    inr (it, g, e ∙ ap (λ cs. (it.command_tx, command) ∷ cs) kept)

module _ (c : ClientId) (tx : EnvelopeTx) (w : Server) where
  bind_checked-Posts :
      (credentials : AccountCredentials) (now : DateTime)
      → ((bind_checked c credentials tx now w).1.trade_commands ≡ w.trade_commands)
        ⊎ Posts w
            (bind_checked c credentials tx now w).1
            credentials.account_id
            (TradeSessionCommand.login credentials tx)
  unfolding bind_checked set_state bind
  bind_checked-Posts credentials now =
      let a = credentials.account_id in
      let bound = set_state a connecting (bind c a w) in
      let (actor, spawned) = actor_for a bound in
      Posts-or_not_trans w spawned (send_login credentials tx now (actor, spawned)).1 a _
        (actor_for_lem a bound).1
        (send_login-Posts c tx spawned credentials now actor (actor_for_lem a bound).0)

  pub bind_account-Effect :
      (credentials : AccountCredentials) (now : DateTime)
      → Effect w
          (bind_account c credentials tx now w).1
          c
          credentials.account_id
          any_access
          (TradeSessionCommand.login credentials tx)
  unfolding bind_account
  bind_account-Effect credentials now =
      go (Session.ensure_account_access c credentials.account_id "account login" w.state.sessions)
        (ensure_iff any_access c credentials.account_id "account login" w.state.sessions).0
    where
      go :
          (checked : Result Failure (Unit {0}))
          → (checked ≡ ok tt
              → allows (Session.permission_for c credentials.account_id w.state.sessions) any_access
                ≡ true)
          → Effect w
              (continue (checked, w) (λ _. bind_checked c credentials tx now)).1
              c
              credentials.account_id
              any_access
              (TradeSessionCommand.login credentials tx)
      go (err e) granted = inl refl
      go (ok tt) granted = elim (bind_checked-Posts credentials now) [
        | inl e ↦ inl e
        | inr p ↦ inr (granted refl, p)
      ]

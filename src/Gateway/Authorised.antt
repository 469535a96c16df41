-- ===== src/Gateway/Authorised.antt =====
-- No envelope makes the server of crates/server/src/adapter/internal/tcp_server.rs send a command to
-- an account's task that the client's permission does not allow.
use ctp_system.Prelude.{
  String, ◌≡◌, refl, ◌∙◌, ◌⊎◌, inl, inr, true, Option, none, some, List, Result, ok, err, Exec,
  modify, continue, arith, string_eq,
}
use ctp_system.Model.Types.{ClientId, AccountId, InstrumentId, DateTime, AccountState}
use ctp_system.Protocol.{
  Failure, Envelope, Message, hello, account_login, account_logout, market_data_hello,
  subscribe_market_data, unsubscribe_market_data, place_order, cancel_order, query_account,
  query_position, query_orders, query_trades, hello_ack,
}
use ctp_system.Session.{permission_for}
use ctp_system.Session.Access.{Access, any_access, read_access, write_access, allows}
use ctp_system.Server.{
  Server, ServerActorState, EnvelopeTx, SocketAddr, TradeSessionCommand, login, logout,
  register_trading_client, register_market_data_client,
}
use ctp_system.MarketData
use ctp_system.Routing
use ctp_system.Routing.Effects
use ctp_system.Routing.Effects.{Effect, Posts}
use ctp_system.Gateway.{
  TcpEndpointKind, trading, market_data, send, send_error, with_client, report, report_login,
  handle_trading, handle_market_data, handle_envelope, on_state,
}

-- What a message of a client asks for: the account, the access it takes and the command for the
-- account's task.
abbrev pub requested :
    Message → ClientId → EnvelopeTx → Option (AccountId × Access × TradeSessionCommand)
requested (account_login credentials) client tx =
    some (credentials.account_id, any_access, login credentials tx)
requested (place_order order) client tx =
    some (order.account_id, write_access, TradeSessionCommand.place_order client order tx)
requested (cancel_order cancel) client tx =
    some (cancel.account_id, write_access, TradeSessionCommand.cancel_order cancel tx)
requested (account_logout a) client tx = some (a, write_access, logout tx)
requested (query_account a) client tx =
    some (a, read_access, TradeSessionCommand.query_account a tx)
requested (query_position a i) client tx =
    some (a, read_access, TradeSessionCommand.query_position a i tx)
requested (query_orders a) client tx = some (a, read_access, TradeSessionCommand.query_orders a tx)
requested (query_trades a) client tx = some (a, read_access, TradeSessionCommand.query_trades a tx)
requested _ client tx = none

-- The step from `w` to `w'` sent one command, which the client asked for and may ask for.
pub record IsAuthorised (client : Option ClientId) (message : Message) (tx : EnvelopeTx)
    (w w' : Server) : Type 0 where
  pub who : ClientId
  pub account : AccountId
  pub access : Access
  pub command : TradeSessionCommand
  pub identified : client ≡ some who
  pub asked : requested message who tx ≡ some (account, access, command)
  pub allowed : allows (permission_for who account w.state.sessions) access ≡ true
  pub posted : Posts w w' account command

abbrev pub Quiet : Server → Server → Type 0
Quiet w w' = w'.trade_commands ≡ w.trade_commands

trade_commands-send : (tx : EnvelopeTx) (m : Message) (w : Server) → Quiet w (send tx m w).1
unfolding send
trade_commands-send tx m w = ground arith

trade_sessions-send : (tx : EnvelopeTx) (m : Message) (w : Server) → (send tx m w).1.state ≡ w.state
unfolding send
trade_sessions-send tx m w = ground arith

trade_commands-register :
    (tx : EnvelopeTx) (m : Message) (f : ServerActorState → ServerActorState) (w : Server)
    → Quiet w (continue (modify (on_state f) w) (λ _. send tx m)).1
unfolding on_state
trade_commands-register tx m f w = trade_commands-send tx m (on_state f w)

trade_commands-subscribe :
    (c : ClientId) (is : List InstrumentId) (w : Server)
    → Quiet w (MarketData.subscribe_exchange_market_data c is w).1
unfolding MarketData.subscribe_exchange_market_data
trade_commands-subscribe c is w = ground arith

trade_commands-unsubscribe :
    (c : ClientId) (is : List InstrumentId) (w : Server)
    → Quiet w (MarketData.unsubscribe_exchange_market_data c is w).1
unfolding MarketData.unsubscribe_exchange_market_data
trade_commands-unsubscribe c is w = ground arith

with_client-Quiet :
    (tx : EnvelopeTx) (w : Server) (missing : String)
    (handle : ClientId → Exec Failure Server (Unit {0}))
    → ((c : ClientId) → Quiet w (handle c w).1)
    → (client : Option ClientId) → Quiet w (with_client tx missing client handle w).1
unfolding with_client send_error
with_client-Quiet tx w missing handle h none = trade_commands-send tx _ w
with_client-Quiet tx w missing handle h (some c) = h c

-- A reply to the client leaves what was posted.
Effect-send :
    (tx : EnvelopeTx) (m : Message) (w w' : Server) (c : ClientId) (a : AccountId) (access : Access)
    (command : TradeSessionCommand)
    → Effect w w' c a access command
    → Effect w (send tx m w').1 c a access command
Effect-send tx m w w' c a access command (inl e) = inl (trade_commands-send tx m w' ∙ e)
Effect-send tx m w w' c a access command (inr (granted, (actor, found, e))) =
    inr (granted, (actor, rw (trade_sessions-send tx m w') found, trade_commands-send tx m w' ∙ e))

module _ (tx : EnvelopeTx) (w : Server) (c : ClientId) (a : AccountId) (access : Access)
    (command : TradeSessionCommand) where
  report-Effect :
      (m : Exec Failure Server (Unit {0}))
      → Effect w (m w).1 c a access command
      → Effect w (report tx m w).1 c a access command
  unfolding report send_error
  report-Effect m h = let (result, w') = m w in go result w' h
    where
      go :
          (result : Result Failure (Unit {0})) (w' : Server)
          → Effect w w' c a access command
          → Effect w
              ((λ (r : Result Failure (Unit {0}) × Server). report tx (λ _. r) w) (result, w')).1
              c
              a
              access
              command
      go (ok _) w' h = h
      go (err e) w' h = Effect-send tx _ w w' c a access command h

  report_login-Effect :
      (m : Exec Failure Server AccountState)
      → Effect w (m w).1 c a access command
      → Effect w (report_login tx m w).1 c a access command
  unfolding report_login send_error
  report_login-Effect m h = let (result, w') = m w in go result w' h
    where
      go :
          (result : Result Failure AccountState) (w' : Server)
          → Effect w w' c a access command
          → Effect w
              ((λ (r : Result Failure AccountState × Server). report_login tx (λ _. r) w)
                (result, w')).1
              c
              a
              access
              command
      go (ok _) w' h = Effect-send tx _ w w' c a access command h
      go (err e) w' h = Effect-send tx _ w w' c a access command h

module _ (message : Message) (tx : EnvelopeTx) (w : Server) where
  with_client-IsAuthorised :
      (missing : String) (a : AccountId) (access : Access)
      (command : ClientId → TradeSessionCommand)
      (handle : ClientId → Exec Failure Server (Unit {0}))
      → ((c : ClientId) → requested message c tx ≡ some (a, access, command c))
      → ((c : ClientId) → Effect w (handle c w).1 c a access (command c))
      → (client : Option ClientId)
      → Quiet w (with_client tx missing client handle w).1
        ⊎ IsAuthorised client message tx w (with_client tx missing client handle w).1
  unfolding with_client send_error
  with_client-IsAuthorised missing a access command handle asked effect none =
      inl (trade_commands-send tx _ w)
  with_client-IsAuthorised missing a access command handle asked effect (some c) = elim (effect c) [
    | inl e ↦ inl e
    | inr (granted, p) ↦ inr (record {
      who = c;
      account = a;
      access = access;
      command = command c;
      identified = refl;
      asked = asked c;
      allowed = granted;
      posted = p;
    })
  ]

module _ (peer : SocketAddr) (now : DateTime) (tx : EnvelopeTx) where
  trading-IsAuthorised :
      (client : Option ClientId) (message : Message) (w : Server)
      → Quiet w (handle_trading peer now tx client message w).1
        ⊎ IsAuthorised client message tx w (handle_trading peer now tx client message w).1
  unfolding handle_trading
  trading-IsAuthorised client (account_login credentials) w =
      with_client-IsAuthorised (account_login credentials) tx w _ credentials.account_id any_access
        (λ c. login credentials tx) _ (λ c. refl)
        (λ c.
          report_login-Effect tx w c credentials.account_id any_access (login credentials tx)
            (Routing.bind_account c credentials tx now)
            (Effects.bind_account-Effect c tx w credentials now))
        client
  trading-IsAuthorised client (place_order order) w =
      with_client-IsAuthorised (place_order order) tx w _ order.account_id write_access
        (λ c. TradeSessionCommand.place_order c order tx) _ (λ c. refl)
        (λ c.
          report-Effect tx w c order.account_id write_access _ (Routing.place_order c order tx)
            (Effects.place_order-Effect c tx w order))
        client
  trading-IsAuthorised client (cancel_order cancel) w =
      with_client-IsAuthorised (cancel_order cancel) tx w _ cancel.account_id write_access
        (λ c. TradeSessionCommand.cancel_order cancel tx) _ (λ c. refl)
        (λ c.
          report-Effect tx w c cancel.account_id write_access _ (Routing.cancel_order c cancel tx)
            (Effects.cancel_order-Effect c tx w cancel))
        client
  trading-IsAuthorised client (account_logout a) w =
      with_client-IsAuthorised (account_logout a) tx w _ a write_access (λ c. logout tx) _
        (λ c. refl)
        (λ c.
          report-Effect tx w c a write_access _ (Routing.logout_account c a tx)
            (Effects.logout_account-Effect c tx w a))
        client
  trading-IsAuthorised client (query_account a) w =
      with_client-IsAuthorised (query_account a) tx w _ a read_access
        (λ c. TradeSessionCommand.query_account a tx) _ (λ c. refl)
        (λ c.
          report-Effect tx w c a read_access _ (Routing.query_account c a tx)
            (Effects.query_account-Effect c tx w a))
        client
  trading-IsAuthorised client (query_position a i) w =
      with_client-IsAuthorised (query_position a i) tx w _ a read_access
        (λ c. TradeSessionCommand.query_position a i tx) _ (λ c. refl)
        (λ c.
          report-Effect tx w c a read_access _ (Routing.query_position c a i tx)
            (Effects.query_position-Effect c tx w a i))
        client
  trading-IsAuthorised client (query_orders a) w =
      with_client-IsAuthorised (query_orders a) tx w _ a read_access
        (λ c. TradeSessionCommand.query_orders a tx) _ (λ c. refl)
        (λ c.
          report-Effect tx w c a read_access _ (Routing.query_orders c a tx)
            (Effects.query_orders-Effect c tx w a))
        client
  trading-IsAuthorised client (query_trades a) w =
      with_client-IsAuthorised (query_trades a) tx w _ a read_access
        (λ c. TradeSessionCommand.query_trades a tx) _ (λ c. refl)
        (λ c.
          report-Effect tx w c a read_access _ (Routing.query_trades c a tx)
            (Effects.query_trades-Effect c tx w a))
        client
  trading-IsAuthorised client (hello client_id) w = inl (
      trade_commands-register tx
        (hello_ack (record { accepted = true; message = "trading client registered" }))
        (register_trading_client client_id peer tx) w)
  trading-IsAuthorised client _ w = inl (unfold send_error in trade_commands-send tx _ w)

  market_data-Quiet :
      (client : Option ClientId) (message : Message) (w : Server)
      → Quiet w (handle_market_data peer now tx client message w).1
  unfolding handle_market_data
  market_data-Quiet client (market_data_hello client_id) w =
      trade_commands-register tx
        (hello_ack (record { accepted = true; message = "market-data client registered" }))
        (register_market_data_client client_id peer tx) w
  market_data-Quiet client (subscribe_market_data is) w =
      with_client-Quiet tx w _ _ (λ c. trade_commands-subscribe c is w) client
  market_data-Quiet client (unsubscribe_market_data is) w =
      with_client-Quiet tx w _ _ (λ c. trade_commands-unsubscribe c is w) client
  market_data-Quiet client _ w = unfold send_error in trade_commands-send tx _ w

  -- Whatever envelope arrives at whatever endpoint and whether it is handled with success or not:
  -- either no command goes to any account's task, or one goes to the task of the account that a
  -- trading message names, the one it asks for, and the client that the envelope names has a
  -- permission on that account that allows it.
  pub handle_envelope-IsAuthorised :
      (kind : TcpEndpointKind) (envelope : Envelope) (w : Server)
      → let w' = (handle_envelope peer now tx kind envelope w).1 in
        (w'.trade_commands ≡ w.trade_commands)
        ⊎ ((kind ≡ trading) × IsAuthorised envelope.client_id envelope.payload tx w w')
  unfolding handle_envelope
  handle_envelope-IsAuthorised trading envelope w =
      elim (trading-IsAuthorised envelope.client_id envelope.payload w) [
        | inl e ↦ inl e
        | inr h ↦ inr (refl, h)
      ]
  handle_envelope-IsAuthorised market_data envelope w =
      inl (market_data-Quiet envelope.client_id envelope.payload w)

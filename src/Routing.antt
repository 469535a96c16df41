-- ===== src/Routing.antt =====
-- The methods of `ServerActorState` in crates/server/src/actor/trade.rs: a client's request is
-- checked and put into the channel of the account's task.
pub mod Effects
use ctp_system.Prelude.{
  suc, String, Bool, true, false, Option, none, some, List, [], ◌∷◌, Result, ok, err, Exec, pure,
  fail, reads, modify, ◌>>=◌, ◌>>◌, string_eq, if◌then◌else◌,
}
use ctp_system.HashMap.{get, insert}
use ctp_system.Model.Enums.{ConnectionState, connecting}
use ctp_system.Model.Types.{
  ClientId, AccountId, InstrumentId, AccountCredentials, AccountState, OrderRequest, CancelRequest,
  DateTime,
}
use ctp_system.Protocol.{Failure, not_logged_in, channel_closed}
use ctp_system.Session
use ctp_system.Server.{
  Server, EnvelopeTx, Sender, TradeSessionActor, TradeSessionCommand, account_state,
}

-- actor.command_tx.send(command): false where the task is gone.
unfoldable pub send_command : Sender → TradeSessionCommand → Server → Bool × Server
send_command tx command w =
    if w.is_open tx
    then (true, record w { trade_commands = (tx, command) ∷ w.trade_commands })
    else (false, w)

set_state : AccountId → ConnectionState → Server → Server
set_state account_id state w = record w {
  state = record w.state { sessions = Session.set_account_state account_id state w.state.sessions };
}

bind : ClientId → AccountId → Server → Server
bind client_id account_id w = record w {
  state = record w.state { sessions = Session.bind_account client_id account_id w.state.sessions };
}

-- entry(account_id).or_insert_with(spawn): the task's receiver is that of a new channel.
unfoldable pub actor_for : AccountId → Server → TradeSessionActor × Server
actor_for account_id w = elim (get account_id w.state.trade_sessions) [
  | some actor ↦ (actor, w)
  | none ↦
      let actor : TradeSessionActor = record {
        account_id = account_id;
        command_tx = w.next_channel;
      } in
      (
        actor,
        record w {
          state = record w.state {
            trade_sessions = insert account_id actor w.state.trade_sessions;
          };
          next_channel = suc w.next_channel;
        },
      )
]

-- The login command for the account's task, and the reply: it tells whether the task is gone.
send_login :
    AccountCredentials
    → EnvelopeTx
    → DateTime
    → TradeSessionActor × Server
    → Result Failure AccountState × Server
unfolding send_command set_state
send_login credentials reply_to now (actor, w) =
    let account_id = credentials.account_id in
    let (sent, w') =
      send_command actor.command_tx (TradeSessionCommand.login credentials reply_to) w in
    if sent then (ok (account_state account_id connecting now), w') else (
      ok (account_state account_id ConnectionState.error now),
      set_state account_id ConnectionState.error w',
    )

-- After the check of `bind_account`.
bind_checked :
    ClientId
    → AccountCredentials
    → EnvelopeTx
    → DateTime
    → Server
    → Result Failure AccountState × Server
bind_checked client_id credentials reply_to now w =
    let account_id = credentials.account_id in
    let bound = set_state account_id connecting (bind client_id account_id w) in
    send_login credentials reply_to now (actor_for account_id bound)

unfoldable pub bind_account :
    ClientId → AccountCredentials → EnvelopeTx → DateTime → Exec Failure Server AccountState
unfolding bind_checked send_login set_state bind actor_for
bind_account client_id credentials reply_to now = do
  reads (λ w.
      Session.ensure_account_access client_id credentials.account_id "account login"
        w.state.sessions)
  bind_checked client_id credentials reply_to now

unfoldable pub send_trade_command : AccountId → TradeSessionCommand → Exec Failure Server (Unit {0})
unfolding send_command
send_trade_command account_id command w = elim (get account_id w.state.trade_sessions) [
  | none ↦ (err (not_logged_in account_id), w)
  | some actor ↦
      let (sent, w') = send_command actor.command_tx command w in
      if sent
      then (ok tt, w')
      else (err (channel_closed "trade session actor command channel closed"), w')
]

ensure_write : ClientId → AccountId → String → Exec Failure Server (Unit {0})
ensure_write client_id account_id operation =
    reads (λ w. Session.ensure_write_access client_id account_id operation w.state.sessions)

ensure_read : ClientId → AccountId → String → Exec Failure Server (Unit {0})
ensure_read client_id account_id operation =
    reads (λ w. Session.ensure_read_access client_id account_id operation w.state.sessions)

-- The same lookup and send stand in its body in the source.
unfoldable pub place_order : ClientId → OrderRequest → EnvelopeTx → Exec Failure Server (Unit {0})
unfolding ensure_write send_trade_command
place_order client_id order reply_to = do
  ensure_write client_id order.account_id "place order"
  send_trade_command order.account_id (TradeSessionCommand.place_order client_id order reply_to)

unfoldable pub cancel_order : ClientId → CancelRequest → EnvelopeTx → Exec Failure Server (Unit {0})
unfolding ensure_write send_trade_command
cancel_order client_id cancel reply_to = do
  ensure_write client_id cancel.account_id "cancel order"
  send_trade_command cancel.account_id (TradeSessionCommand.cancel_order cancel reply_to)

unfoldable pub query_account : ClientId → AccountId → EnvelopeTx → Exec Failure Server (Unit {0})
unfolding ensure_read send_trade_command
query_account client_id account_id reply_to = do
  ensure_read client_id account_id "query account"
  send_trade_command account_id (TradeSessionCommand.query_account account_id reply_to)

unfoldable pub query_position :
    ClientId → AccountId → Option InstrumentId → EnvelopeTx → Exec Failure Server (Unit {0})
unfolding ensure_read send_trade_command
query_position client_id account_id instrument_id reply_to = do
  ensure_read client_id account_id "query position"
  send_trade_command account_id
      (TradeSessionCommand.query_position account_id instrument_id reply_to)

unfoldable pub query_orders : ClientId → AccountId → EnvelopeTx → Exec Failure Server (Unit {0})
unfolding ensure_read send_trade_command
query_orders client_id account_id reply_to = do
  ensure_read client_id account_id "query orders"
  send_trade_command account_id (TradeSessionCommand.query_orders account_id reply_to)

unfoldable pub query_trades : ClientId → AccountId → EnvelopeTx → Exec Failure Server (Unit {0})
unfolding ensure_read send_trade_command
query_trades client_id account_id reply_to = do
  ensure_read client_id account_id "query trades"
  send_trade_command account_id (TradeSessionCommand.query_trades account_id reply_to)

unfoldable pub logout_account : ClientId → AccountId → EnvelopeTx → Exec Failure Server (Unit {0})
unfolding ensure_write send_trade_command
logout_account client_id account_id reply_to = do
  ensure_write client_id account_id "account logout"
  send_trade_command account_id (TradeSessionCommand.logout reply_to)

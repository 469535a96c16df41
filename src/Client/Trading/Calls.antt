-- ===== src/Client/Trading/Calls.antt =====
-- Calls of a trading client, one after the other, and the login that stands after them.
use ctp_system.Prelude.{Option, none, some, List, [], ◌∷◌, Result, ok, err}
use ctp_system.Model.Types.{
  AccountId, InstrumentId, AccountCredentials, OrderRequest, CancelRequest,
}
use ctp_system.Network.SendError.{SendError}
use ctp_system.Client.{Encoder, Wakes}
use ctp_system.Client.Trading
use ctp_system.Client.Trading.{
  TradingClient, Stamps, Trading, ClientError, reconnect_envelopes, from_sending, send_envelope,
  update_reconnect_envelopes, send_hello, request, connect,
}

-- One call of the client with its stamps and wake-ups.
pub data Call : Type 0 where
  login_account : AccountCredentials → Call
  logout_account : AccountId → Call
  place_order : OrderRequest → Call
  cancel_order : CancelRequest → Call
  query_account : AccountId → Call
  query_position : AccountId → Option InstrumentId → Call
  query_orders : AccountId → Call
  query_trades : AccountId → Call

pub record Turn : Type 0 where
  pub stamps : Stamps
  pub wakes : Wakes
  pub call : Call

-- What stands after a result: something new, or what stood before where the call failed.
abbrev pub kept :
    Result SendError (Unit {0})
    → Option AccountCredentials
    → Option AccountCredentials
    → Option AccountCredentials
kept (ok _) credentials before = credentials
kept (err e) credentials before = before

-- The login that stands after a call: that of a login that succeeded, none after a logout that
-- succeeded.
abbrev pub login_after :
    Call → Result SendError (Unit {0}) → Option AccountCredentials → Option AccountCredentials
login_after (login_account credentials) result before = kept result (some credentials) before
login_after (logout_account account_id) result before = kept result none before
login_after call result before = before

module _ (to_vec : Encoder) where
  unfoldable pub perform : Call → Stamps → Wakes → Trading
  unfolding Trading.login_account Trading.logout_account Trading.place_order Trading.cancel_order
      Trading.query_account Trading.query_position Trading.query_orders Trading.query_trades
  perform (login_account credentials) stamps wakes =
      Trading.login_account to_vec stamps wakes credentials
  perform (logout_account account_id) stamps wakes =
      Trading.logout_account to_vec stamps wakes account_id
  perform (place_order order) stamps wakes = Trading.place_order to_vec stamps wakes order
  perform (cancel_order cancel) stamps wakes = Trading.cancel_order to_vec stamps wakes cancel
  perform (query_account account_id) stamps wakes =
      Trading.query_account to_vec stamps wakes account_id
  perform (query_position account_id instrument_id) stamps wakes =
      Trading.query_position to_vec stamps wakes account_id instrument_id
  perform (query_orders account_id) stamps wakes =
      Trading.query_orders to_vec stamps wakes account_id
  perform (query_trades account_id) stamps wakes =
      Trading.query_trades to_vec stamps wakes account_id

  unfoldable pub run : List Turn → TradingClient → TradingClient
  unfolding perform
  run [] c = c
  run (turn ∷ turns) c = run turns (perform turn.call turn.stamps turn.wakes c).1

  abbrev pub last_login :
      List Turn → TradingClient → Option AccountCredentials → Option AccountCredentials
  last_login [] c before = before
  last_login (turn ∷ turns) c before =
      let r = perform turn.call turn.stamps turn.wakes c in
      last_login turns r.1 (login_after turn.call r.0 before)

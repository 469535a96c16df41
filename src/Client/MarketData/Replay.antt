-- ===== src/Client/MarketData/Replay.antt =====
-- What the connection of a market-data client of crates/client/src/market_data.rs has stored to send
-- again after a reconnect, and what that restores on the server.
use ctp_system.Prelude.{
  string_eq, ◌≡◌, refl, ap, Bool, ◌∙◌, subst, sym, some, List, [], ◌∷◌, Result, ok, err, continue,
  elem, arith,
}
use ctp_system.Model.Types.{InstrumentId}
use ctp_system.Protocol.{Envelope, Message, subscribe_market_data, unsubscribe_market_data}
use ctp_system.Network.SendError.{SendError}
use ctp_system.Network.TcpClient.{TcpClient}
use ctp_system.MarketData.{Subscriptions}
use ctp_system.MarketData.Subscriptions.{subscribed, IsTidy}
use ctp_system.MarketData.Exchange
use ctp_system.MarketData.Exchange.{disconnects}
use ctp_system.Client.{ClientConnection, Encoder, Wakes, encode_all, send_on, update_on}
use ctp_system.Client.Trading.{Stamps}
use ctp_system.Client.Trading.Replay.{IsTotal, encode_all_total, update_on-some}
use ctp_system.Client.MarketData.{
  MarketDataClient, InstrumentMap, insert_all, remove_all, reconnect_envelopes, from_sending,
  send_envelope, update_reconnect_envelopes, send_hello, request, connect,
}
use ctp_system.Client.MarketData.Restore.{
  Call, subscribe, unsubscribe, Turn, perform, run, settle, wanted, arriving,
  subscribed-reconnect_envelopes,
}

module _ (to_vec : Encoder) where
  -- The stored payloads are those of `reconnect_envelopes`, made at some moment.
  pub record IsReplaying (c : MarketDataClient) : Type 0 where
    pub connection : ClientConnection
    pub stamps : Stamps
    pub connected : c.connection ≡ some connection
    pub in_sync :
        encode_all to_vec (reconnect_envelopes stamps c) ≡ ok connection.reconnect_payloads

  send_envelope-IsReplaying :
      (stamps : Stamps) (wakes : Wakes) (e : Envelope) (c : MarketDataClient)
      → IsReplaying c
      → IsReplaying (send_envelope to_vec stamps wakes e c).1
  unfolding send_envelope send_on reconnect_envelopes
  send_envelope-IsReplaying stamps wakes e c h = record {
    connection = _;
    stamps = h.stamps;
    connected = ap (λ conn. (send_on to_vec wakes e conn).1) h.connected;
    in_sync = h.in_sync;
  }

  request-IsReplaying :
      (stamps : Stamps) (wakes : Wakes) (message : Message) (c : MarketDataClient)
      → IsReplaying c
      → IsReplaying (request to_vec stamps wakes message c).1
  unfolding request
  request-IsReplaying stamps wakes message c h = send_envelope-IsReplaying stamps wakes _ c h

  updated :
      (stamps : Stamps) (wakes : Wakes) (c : MarketDataClient) (connection : ClientConnection)
      → IsTotal to_vec
      → c.connection ≡ some connection
      → IsReplaying (update_reconnect_envelopes to_vec stamps wakes c).1
  unfolding update_reconnect_envelopes reconnect_envelopes
  updated stamps wakes c connection total p =
      let (payloads, e) = encode_all_total to_vec (reconnect_envelopes stamps c) total in
      record {
        connection = record connection { reconnect_payloads = payloads };
        stamps = stamps;
        connected =
            ap (λ r. r.1)
              (ap (update_on to_vec (reconnect_envelopes stamps c)) p
                ∙ update_on-some to_vec (reconnect_envelopes stamps c) connection payloads e);
        in_sync = e;
      }

  settled-IsReplaying :
      (change : InstrumentMap → InstrumentMap) (stamps : Stamps) (wakes : Wakes)
      (sent : Result SendError (Unit {0}) × MarketDataClient)
      → IsTotal to_vec
      → IsReplaying sent.1
      → IsReplaying (settle to_vec change stamps wakes sent).1
  settled-IsReplaying change stamps wakes (ok _, c) total h =
      updated stamps wakes (record c { subscriptions = change c.subscriptions }) h.connection total
        h.connected
  settled-IsReplaying change stamps wakes (err e, c) total h = h

  perform-IsReplaying :
      (call : Call) (stamps : Stamps) (wakes : Wakes) (c : MarketDataClient)
      → IsTotal to_vec
      → IsReplaying c
      → IsReplaying (perform to_vec call stamps wakes c).1
  unfolding perform
  perform-IsReplaying (subscribe is) stamps wakes c total h =
      settled-IsReplaying (insert_all is) stamps wakes _ total
        (request-IsReplaying stamps wakes (subscribe_market_data is) c h)
  perform-IsReplaying (unsubscribe is) stamps wakes c total h =
      settled-IsReplaying (remove_all is) stamps wakes _ total
        (request-IsReplaying stamps wakes (unsubscribe_market_data is) c h)

  run-IsReplaying :
      (turns : List Turn) (c : MarketDataClient)
      → IsTotal to_vec
      → IsReplaying c
      → IsReplaying (run to_vec turns c)
  unfolding run
  run-IsReplaying [] c total h = h
  run-IsReplaying (turn ∷ turns) c total h =
      run-IsReplaying turns (perform to_vec turn.call turn.stamps turn.wakes c).1 total
        (perform-IsReplaying turn.call turn.stamps turn.wakes c total h)

  from_sending_state :
      (r : Result SendError (Unit {0}) × MarketDataClient) → (from_sending r).1 ≡ r.1
  unfolding from_sending
  from_sending_state (ok _, c) = refl
  from_sending_state (err e, c) = refl

  from_sending-IsReplaying :
      (stamps : Stamps) (wakes : Wakes) (sent : Result SendError (Unit {0}) × MarketDataClient)
      (connection : ClientConnection)
      → IsTotal to_vec
      → sent.1.connection ≡ some connection
      → (from_sending (continue sent (λ _. update_reconnect_envelopes to_vec stamps wakes))).0
        ≡ ok tt
      → IsReplaying
          (from_sending (continue sent (λ _. update_reconnect_envelopes to_vec stamps wakes))).1
  unfolding from_sending
  from_sending-IsReplaying stamps wakes (ok _, c) connection total p e =
      subst IsReplaying
        (sym (from_sending_state (update_reconnect_envelopes to_vec stamps wakes c)))
        (updated stamps wakes c connection total p)
  from_sending-IsReplaying stamps wakes (err error, c) connection total p e =
      absurd (ground (arith, e))

  connect-IsReplaying :
      (stamps : Stamps) (wakes : Wakes) (transport : TcpClient) (c : MarketDataClient)
      → IsTotal to_vec
      → (connect to_vec stamps wakes (ok transport) c).0 ≡ ok tt
      → IsReplaying (connect to_vec stamps wakes (ok transport) c).1
  unfolding connect send_hello send_envelope send_on
  connect-IsReplaying stamps wakes transport c total h =
      from_sending-IsReplaying stamps wakes _ _ total refl h

  -- The connection has stored payloads, those of envelopes that subscribe the client on the server
  -- to an instrument or not.
  pub record Restores (c : MarketDataClient) (subs : Subscriptions) (j : InstrumentId) (want : Bool)
      : Type 0 where
    pub connection : ClientConnection
    pub envelopes : List Envelope
    pub connected : c.connection ≡ some connection
    pub stored : encode_all to_vec envelopes ≡ ok connection.reconnect_payloads
    pub restored :
        subscribed c.client_id j (Exchange.run (disconnects c.client_id ∷ arriving envelopes) subs)
        ≡ want

  -- JSON encodes every envelope, and the server's map of subscriptions is tidy. After a connect that
  -- succeeded and any calls of a market-data client, whether they succeed or fail: the payloads that
  -- its connection has stored to send again are those of envelopes with which, once the server has
  -- cleaned up the lost connection, the client is subscribed there to exactly the instruments that
  -- it wants. It wants what it had, what it named in a subscribe and not what it named in a later
  -- unsubscribe, of the calls whose message was sent.
  pub subscribed-run-connect :
      (stamps : Stamps) (wakes : Wakes) (transport : TcpClient) (turns : List Turn)
      (c : MarketDataClient) (subs : Subscriptions) (j : InstrumentId)
      → IsTotal to_vec
      → (connect to_vec stamps wakes (ok transport) c).0 ≡ ok tt
      → IsTidy subs
      → let connected = (connect to_vec stamps wakes (ok transport) c).1 in
        Restores
          (run to_vec turns connected)
          subs
          j
          (wanted to_vec turns connected j (elem j connected.subscriptions))
  subscribed-run-connect stamps wakes transport turns c subs j total success tidy =
      let start = (connect to_vec stamps wakes (ok transport) c).1 in
      let kept =
        run-IsReplaying turns start total
          (connect-IsReplaying stamps wakes transport c total success) in
      record {
        connection = kept.connection;
        envelopes = reconnect_envelopes kept.stamps (run to_vec turns start);
        connected = kept.connected;
        stored = kept.in_sync;
        restored = subscribed-reconnect_envelopes to_vec kept.stamps turns start subs j tidy;
      }

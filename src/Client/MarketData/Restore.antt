-- ===== src/Client/MarketData/Restore.antt =====
-- What a market-data client of crates/client/src/market_data.rs is subscribed to, and what the
-- envelopes that it replays ask of the server.
use ctp_system.Prelude.{
  ◌≡◌, refl, ap, ◌∙◌, Bool, false, not, ◌&&◌, ◌||◌, ◌==◌, string_eq, Option, some, List, [], ◌∷◌,
  ◌++◌, Result, ok, err, continue, modify, elem, arith, beq_refl,
}
use text.Mathlib.TextEquality.{eq_iff}
use ctp_system.Model.Types.{ClientId, InstrumentId, RequestId, DateTime}
use ctp_system.Protocol.{Envelope, Message, subscribe_market_data, unsubscribe_market_data}
use ctp_system.Network.SendError.{SendError}
use ctp_system.MarketData.{Subscriptions}
use ctp_system.MarketData.Subscriptions.{subscribed, IsTidy}
use ctp_system.MarketData.Exchange
use ctp_system.MarketData.Exchange.{
  Request, subscribes, unsubscribes, disconnects, wants, subscribed-run,
}
use ctp_system.Client.{Encoder, Wakes}
use ctp_system.Client.Trading.{Stamps, envelope}
use ctp_system.Client.MarketData
use ctp_system.Client.MarketData.{
  InstrumentMap, MarketDataClient, insert, remove, insert_all, remove_all, hello_envelope,
  subscribe_envelopes, reconnect_envelopes, request, send_envelope, update_reconnect_envelopes,
}

elem-insert :
    (i j : InstrumentId) (m : InstrumentMap) → elem j (insert i m) ≡ ((i == j) || elem j m)
unfolding insert
elem-insert i j [] = refl
elem-insert i j (k ∷ m) = ground (arith, elem-insert i j m, eq_iff k i, eq_iff i j, eq_iff k j)

elem-remove :
    (i j : InstrumentId) (m : InstrumentMap) → elem j (remove i m) ≡ (not (i == j) && elem j m)
unfolding remove
elem-remove i j [] = ground arith
elem-remove i j (k ∷ m) = ground (arith, elem-remove i j m, eq_iff k i, eq_iff i j, eq_iff k j)

elem-insert_all :
    (is : List InstrumentId) (j : InstrumentId) (m : InstrumentMap)
    → elem j (insert_all is m) ≡ (elem j m || elem j is)
unfolding insert_all
elem-insert_all [] j m = ground arith
elem-insert_all (i ∷ is) j m = ground (arith, elem-insert_all is j (insert i m), elem-insert i j m)

elem-remove_all :
    (is : List InstrumentId) (j : InstrumentId) (m : InstrumentMap)
    → elem j (remove_all is m) ≡ (elem j m && not (elem j is))
unfolding remove_all
elem-remove_all [] j m = ground arith
elem-remove_all (i ∷ is) j m = ground (arith, elem-remove_all is j (remove i m), elem-remove i j m)

pub data Call : Type 0 where
  subscribe : List InstrumentId → Call
  unsubscribe : List InstrumentId → Call

pub record Turn : Type 0 where
  pub stamps : Stamps
  pub wakes : Wakes
  pub call : Call

module _ (to_vec : Encoder) where
  unfoldable pub perform :
      Call → Stamps → Wakes → MarketDataClient → Result SendError (Unit {0}) × MarketDataClient
  unfolding MarketData.subscribe MarketData.unsubscribe
  perform (subscribe is) stamps wakes = MarketData.subscribe to_vec stamps wakes is
  perform (unsubscribe is) stamps wakes = MarketData.unsubscribe to_vec stamps wakes is

  unfoldable pub run : List Turn → MarketDataClient → MarketDataClient
  unfolding perform
  run [] c = c
  run (turn ∷ turns) c = run turns (perform turn.call turn.stamps turn.wakes c).1

  abbrev message_of : Call → Message
  message_of (subscribe is) = subscribe_market_data is
  message_of (unsubscribe is) = unsubscribe_market_data is

  abbrev after_sent : Result SendError (Unit {0}) → Bool → Bool → Bool
  after_sent (ok _) now before = now
  after_sent (err e) now before = before

  -- Whether an instrument is wanted after a call, by whether its message was sent.
  abbrev wanted_after : Call → InstrumentId → Bool → Bool
  wanted_after (subscribe is) j before = before || elem j is
  wanted_after (unsubscribe is) j before = before && not (elem j is)

  abbrev pub wanted : List Turn → MarketDataClient → InstrumentId → Bool → Bool
  wanted [] c j before = before
  wanted (turn ∷ turns) c j before =
      let sent = (request to_vec turn.stamps turn.wakes (message_of turn.call) c).0 in
      wanted turns (perform turn.call turn.stamps turn.wakes c).1 j
        (after_sent sent (wanted_after turn.call j before) before)

  -- A change of the subscriptions once its message is sent, or not.
  abbrev pub settle :
      (InstrumentMap → InstrumentMap)
      → Stamps
      → Wakes
      → Result SendError (Unit {0}) × MarketDataClient
      → Result SendError (Unit {0}) × MarketDataClient
  settle change stamps wakes sent =
      continue
        (continue sent (λ _. modify (λ c. record c { subscriptions = change c.subscriptions })))
        (λ _. update_reconnect_envelopes to_vec stamps wakes)

  settled :
      (change : InstrumentMap → InstrumentMap) (stamps : Stamps) (wakes : Wakes)
      (sent : Result SendError (Unit {0}) × MarketDataClient) (j : InstrumentId)
      → elem j (settle change stamps wakes sent).1.subscriptions
        ≡ after_sent sent.0 (elem j (change sent.1.subscriptions)) (elem j sent.1.subscriptions)
  unfolding update_reconnect_envelopes
  settled change stamps wakes (ok _, c) j = refl
  settled change stamps wakes (err e, c) j = refl

  elem-perform :
      (call : Call) (stamps : Stamps) (wakes : Wakes) (c : MarketDataClient) (j : InstrumentId)
      → elem j (perform call stamps wakes c).1.subscriptions
        ≡ after_sent
            (request to_vec stamps wakes (message_of call) c).0
            (wanted_after call j (elem j c.subscriptions))
            (elem j c.subscriptions)
  unfolding perform request send_envelope
  elem-perform (subscribe is) stamps wakes c j =
      let sent = request to_vec stamps wakes (subscribe_market_data is) c in
      settled (insert_all is) stamps wakes sent j
      ∙ ap (λ now. after_sent sent.0 now (elem j c.subscriptions))
          (elem-insert_all is j c.subscriptions)
  elem-perform (unsubscribe is) stamps wakes c j =
      let sent = request to_vec stamps wakes (unsubscribe_market_data is) c in
      settled (remove_all is) stamps wakes sent j
      ∙ ap (λ now. after_sent sent.0 now (elem j c.subscriptions))
          (elem-remove_all is j c.subscriptions)

  elem-run :
      (turns : List Turn) (c : MarketDataClient) (j : InstrumentId)
      → elem j (run turns c).subscriptions ≡ wanted turns c j (elem j c.subscriptions)
  unfolding run
  elem-run [] c j = refl
  elem-run (turn ∷ turns) c j =
      let c' = (perform turn.call turn.stamps turn.wakes c).1 in
      elem-run turns c' j
      ∙ ap (wanted turns c' j) (elem-perform turn.call turn.stamps turn.wakes c j)

-- What the envelopes of a market-data connection ask the server's subscriptions for.
requests_of : Option ClientId → Message → List Request
requests_of (some client_id) (subscribe_market_data is) = subscribes client_id is ∷ []
requests_of (some client_id) (unsubscribe_market_data is) = unsubscribes client_id is ∷ []
requests_of client_id message = []

unfoldable pub arriving : List Envelope → List Request
unfolding requests_of
arriving [] = []
arriving (e ∷ envelopes) = requests_of e.client_id e.payload ++ arriving envelopes

wants-subscribe_envelopes :
    (stamp : RequestId × DateTime) (m : InstrumentMap) (client_id : ClientId) (j : InstrumentId)
    → wants (arriving (subscribe_envelopes stamp m client_id)) client_id j false ≡ elem j m
unfolding arriving subscribe_envelopes
wants-subscribe_envelopes stamp [] client_id j = refl
wants-subscribe_envelopes stamp (i ∷ m) client_id j = ground (arith, beq_refl client_id)

wants-reconnect_envelopes :
    (stamps : Stamps) (c : MarketDataClient) (j : InstrumentId) (before : Bool)
    → wants (disconnects c.client_id ∷ arriving (reconnect_envelopes stamps c)) c.client_id j before
      ≡ elem j c.subscriptions
unfolding arriving reconnect_envelopes hello_envelope envelope
wants-reconnect_envelopes stamps c j before =
    let gone : (before && not (c.client_id == c.client_id)) ≡ false =
      ground (arith, beq_refl c.client_id) in
    ap (wants (arriving (subscribe_envelopes (stamps 2) c.subscriptions c.client_id)) c.client_id j)
      gone
    ∙ wants-subscribe_envelopes (stamps 2) c.subscriptions c.client_id j

-- After any calls of a market-data client, and the cleanup of its connection on the server: the
-- envelopes that `reconnect_envelopes` makes subscribe it there to what it wants.
pub subscribed-reconnect_envelopes :
    (to_vec : Encoder) (stamps : Stamps) (turns : List Turn) (c : MarketDataClient)
    (subs : Subscriptions) (j : InstrumentId)
    → IsTidy subs
    → let c' = run to_vec turns c in
      subscribed c'.client_id j
        (Exchange.run (disconnects c'.client_id ∷ arriving (reconnect_envelopes stamps c')) subs)
      ≡ wanted to_vec turns c j (elem j c.subscriptions)
subscribed-reconnect_envelopes to_vec stamps turns c subs j h =
    let c' = run to_vec turns c in
    subscribed-run (disconnects c'.client_id ∷ arriving (reconnect_envelopes stamps c')) subs
      c'.client_id j h
    ∙ wants-reconnect_envelopes stamps c' j _
    ∙ elem-run to_vec turns c j

-- ===== src/Gateway/Connection/Cleanup.antt =====
-- What the end of a market-data connection in crates/server/src/adapter/internal/tcp_server.rs leaves
-- of its client.
use ctp_system.Prelude.{
  ◌≡◌, refl, beq_refl, sym, subst, ap, ◌∙◌, not, ◌&&◌, Option, none, some, Option-cases, inl, inr,
  List, [], ◌∷◌, ◌++◌, Result, ok, err, ◌==◌, string_eq, arith, if◌then◌else◌,
}
use ctp_system.HashMap
use ctp_system.HashMap.{get}
use ctp_system.Model.Types.{ClientId, InstrumentId}
use ctp_system.Protocol.{Failure, Message, market_data_hello}
use ctp_system.Server.{Server, EnvelopeTx, SocketAddr}
use ctp_system.MarketData
use ctp_system.MarketData.{Subscriptions, remove_market_data_client_subscriptions}
use ctp_system.MarketData.Subscriptions.{subscribed, IsTidy}
use ctp_system.MarketData.Cleanup.{subscribed-remove_client}
use ctp_system.Gateway.{market_data}
use ctp_system.Gateway.Connection.{
  Read, unexpected_eof, broken, frame, Arrival, remember, clean_up, round, read_loop,
}

-- The client of the latest hello among the frames.
abbrev pub named : Message → Option ClientId → Option ClientId
named (market_data_hello client_id) before = some client_id
named _ before = before

abbrev pub greeted : Read → Option ClientId → Option ClientId
greeted (frame len now (ok envelope)) before = named envelope.payload before
greeted _ before = before

abbrev pub last_hello : List Arrival → Option ClientId → Option ClientId
last_hello [] before = before
last_hello (arrival ∷ arrivals) before = last_hello arrivals (greeted arrival.read before)

module _ (peer : SocketAddr) (tx : EnvelopeTx) where
  remember-named :
      (message : Message) (connected : Option ClientId)
      → remember market_data message connected ≡ named message connected
  unfolding remember
  remember-named message connected = ground arith

  -- A round after which the loop goes on.
  round-greeted :
      (read : Read) (connected : Option ClientId) (w : Server)
      → (round market_data peer tx read connected w).0 ≡ none
      → (round market_data peer tx read connected w).1.0 ≡ greeted read connected
  unfolding round
  round-greeted unexpected_eof connected w n = absurd (ground (arith, n))
  round-greeted (broken e) connected w n = absurd (ground (arith, n))
  round-greeted (frame len now (err e)) connected w n = absurd (ground (arith, n))
  round-greeted (frame len now (ok envelope)) connected w n =
      ground (arith, n, remember-named envelope.payload connected)

  read_loop-again :
      (arrival : Arrival) (arrivals : List Arrival) (connected : Option ClientId) (w : Server)
      → let r = round market_data peer tx arrival.read connected (arrival.others w) in
        r.0 ≡ none
        → read_loop market_data peer tx (arrival ∷ arrivals) connected w
          ≡ read_loop market_data peer tx arrivals r.1.0 r.1.1
  unfolding read_loop
  read_loop-again arrival arrivals connected w n =
      let r = round market_data peer tx arrival.read connected (arrival.others w) in
      ap
        (λ (x : Option (Result Failure (Unit {0}))).
          elim x as (λ y. Option (Result Failure (Unit {0})) × Server) [
            | some e ↦ (some e, r.1.1)
            | none ↦ read_loop market_data peer tx arrivals r.1.0 r.1.1
          ])
        n

  read_loop-stops :
      (arrival : Arrival) (arrivals : List Arrival) (connected : Option ClientId) (w : Server)
      (e : Result Failure (Unit {0}))
      → let r = round market_data peer tx arrival.read connected (arrival.others w) in
        r.0 ≡ some e
        → read_loop market_data peer tx (arrival ∷ arrivals) connected w ≡ (some e, r.1.1)
  unfolding read_loop
  read_loop-stops arrival arrivals connected w e n =
      let r = round market_data peer tx arrival.read connected (arrival.others w) in
      ap
        (λ (x : Option (Result Failure (Unit {0}))).
          elim x as (λ y. Option (Result Failure (Unit {0})) × Server) [
            | some e ↦ (some e, r.1.1)
            | none ↦ read_loop market_data peer tx arrivals r.1.0 r.1.1
          ])
        n

  read_loop-append :
      (before rest : List Arrival) (connected : Option ClientId) (w : Server)
      → (read_loop market_data peer tx before connected w).0 ≡ none
      → read_loop market_data peer tx (before ++ rest) connected w
        ≡ read_loop market_data peer tx rest
            (last_hello before connected)
            (read_loop market_data peer tx before connected w).1
  unfolding read_loop
  read_loop-append [] rest connected w n = refl
  read_loop-append (arrival ∷ before) rest connected w n =
      let r = round market_data peer tx arrival.read connected (arrival.others w) in
      elim (Option-cases r.0) [
        | inl go ↦
            let same = read_loop-again arrival before connected w go in
            let named_now = round-greeted arrival.read connected (arrival.others w) go in
            read_loop-again arrival (before ++ rest) connected w go
            ∙ read_loop-append before rest r.1.0 r.1.1 (sym (ap (λ x. x.0) same) ∙ n)
            ∙ ap
                (λ x.
                  read_loop market_data peer tx rest (last_hello before x)
                    (read_loop market_data peer tx before r.1.0 r.1.1).1)
                named_now
            ∙ ap
                (λ (x : Option (Result Failure (Unit {0})) × Server).
                  read_loop market_data peer tx rest (last_hello (arrival ∷ before) connected) x.1)
                (sym same)
        | inr (e, stop) ↦ absurd (
            ground (
              arith,
              n,
              ap (λ (x : Option (Result Failure (Unit {0})) × Server). x.0)
                  (read_loop-stops arrival before connected w e stop),
            ))
      ]

abbrev subs_of : Server → Subscriptions
subs_of w = w.state.market_data_subscriptions

subs_of-remove :
    (client : ClientId) (w : Server)
    → subs_of (MarketData.remove_exchange_market_data_client client w).1
      ≡ (remove_market_data_client_subscriptions client (subs_of w)).1
unfolding MarketData.remove_exchange_market_data_client
subs_of-remove client w = ground arith

clients-remove :
    (client : ClientId) (w : Server)
    → (MarketData.remove_exchange_market_data_client client w).1.state.market_data_clients
      ≡ HashMap.remove client w.state.market_data_clients
unfolding MarketData.remove_exchange_market_data_client
clients-remove client w = ground arith

-- The client is gone, and the subscriptions of the others are as they were.
pub record IsCleaned (client : ClientId) (v w : Server) : Type 0 where
  pub unregistered : get client w.state.market_data_clients ≡ none
  pub unsubscribed :
      (d : ClientId) (j : InstrumentId)
      → subscribed d j (subs_of w) ≡ (subscribed d j (subs_of v) && not (client == d))

remove-IsCleaned :
    (client : ClientId) (w : Server)
    → IsTidy (subs_of w)
    → IsCleaned client w (MarketData.remove_exchange_market_data_client client w).1
remove-IsCleaned client w tidy = record {
  unregistered =
      ap (get client) (clients-remove client w)
      ∙ HashMap.get-remove client client w.state.market_data_clients
      ∙ ap (λ same. if same then none else get client w.state.market_data_clients)
          (beq_refl client);
  unsubscribed = λ d j.
      ap (subscribed d j) (subs_of-remove client w)
      ∙ subscribed-remove_client client d j (subs_of w) tidy;
}

-- A market-data connection whose frames so far were all handled, with whatever other tasks and
-- connections did between them, and the latest hello of which named a client. When the connection then
-- ends before a length, with a tidy map of subscriptions, the read loop returns with success: the
-- client is not registered any more, it has no subscription left, and all other clients keep theirs.
pub read_loop-IsCleaned :
    (peer : SocketAddr) (tx : EnvelopeTx) (before rest : List Arrival) (others : Server → Server)
    (w : Server) (client : ClientId)
    → (read_loop market_data peer tx before none w).0 ≡ none
    → last_hello before none ≡ some client
    → IsTidy (subs_of (others (read_loop market_data peer tx before none w).1))
    → let r =
        read_loop market_data peer tx
          (before ++ record { others = others; read = unexpected_eof } ∷ rest)
          none
          w in
      (r.0 ≡ some (ok tt))
      × IsCleaned client (others (read_loop market_data peer tx before none w).1) r.1
unfolding read_loop round clean_up
read_loop-IsCleaned peer tx before rest others w client n hello tidy =
    let v = (read_loop market_data peer tx before none w).1 in
    let ending : Arrival = record { others = others; read = unexpected_eof } in
    let whole : read_loop market_data peer tx (before ++ ending ∷ rest) none w
        ≡ (some (ok tt), (MarketData.remove_exchange_market_data_client client (others v)).1) =
      read_loop-append peer tx before (ending ∷ rest) none w n
      ∙ ap (λ x. read_loop market_data peer tx (ending ∷ rest) x v) hello in
    subst
      (λ (r : Option (Result Failure (Unit {0})) × Server).
        (r.0 ≡ some (ok tt)) × IsCleaned client (others v) r.1)
      (sym whole) (refl, remove-IsCleaned client (others v) tidy)

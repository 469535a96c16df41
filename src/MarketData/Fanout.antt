-- ===== src/MarketData/Fanout.antt =====
-- Who gets a tick in `fanout_market_data_tick` of crates/server/src/actor/data.rs.
use ctp_system.Prelude.{
  ℕ, suc, ◌+◌, ◌≡◌, refl, sym, All, All-append, Bool, Option, none, some, List, [], ◌∷◌, ◌++◌,
  arith, ◌==◌, string_eq, nat_eq, if◌then◌else◌, Bool-cases, inl, inr, Option-cases,
}
use mathlib.Core.List.{append-nil, append_assoc}
use ctp_system.HashMap.{get}
use ctp_system.Model.Types.{ClientId}
use ctp_system.Protocol.{Message}
use ctp_system.Server.{Server, EnvelopeTx, send}
use ctp_system.MarketData.{
  MarketDataTick, tick_message, outbounds, send_all, fanout_market_data_tick,
}
use ctp_system.MarketData.Subscriptions.{subscribers}

-- The channel of a registered market-data client.
abbrev pub outbound_of : ClientId → Server → Option EnvelopeTx
outbound_of c w = elim (get c w.state.market_data_clients) [
  | none ↦ none
  | some actor ↦ some actor.outbound
]

-- How many of the subscribers listed have this channel.
abbrev pub holders : (ClientId → Option EnvelopeTx) → EnvelopeTx → List ClientId → ℕ
holders of tx [] = 0
holders of tx (c ∷ cs) =
    let rest = holders of tx cs in
    elim (of c) [ none ↦ rest | some out ↦ if out == tx then suc rest else rest ]

-- How many of these messages went into the channel.
abbrev pub sent_to : EnvelopeTx → List (EnvelopeTx × Message) → ℕ
sent_to tx [] = 0
sent_to tx ((out, message) ∷ rest) = let n = sent_to tx rest in if out == tx then suc n else n

-- What `send_all` puts into channels, newest first.
delivered : (EnvelopeTx → Bool) → List EnvelopeTx → Message → List (EnvelopeTx × Message)
delivered is_open [] message = []
delivered is_open (tx ∷ txs) message =
    delivered is_open txs message ++ (if is_open tx then (tx, message) ∷ [] else [])

envelopes-send_all :
    (txs : List EnvelopeTx) (message : Message) (w : Server)
    → (send_all txs message w).envelopes ≡ delivered w.is_open txs message ++ w.envelopes
unfolding send_all delivered send
envelopes-send_all [] message w = refl
envelopes-send_all (tx ∷ txs) message w = elim (Bool-cases (w.is_open tx)) [
  | inl e ↦
      rw (envelopes-send_all txs message (send tx message w)) (
        rw e
          (sym (append_assoc (delivered w.is_open txs message) ((tx, message) ∷ []) w.envelopes)))
  | inr e ↦
      rw (envelopes-send_all txs message (send tx message w))
        (rw (e, append-nil (delivered w.is_open txs message)))
]

state-send_all :
    (txs : List EnvelopeTx) (message : Message) (w : Server)
    → (send_all txs message w).state ≡ w.state
unfolding send_all send
state-send_all [] message w = refl
state-send_all (tx ∷ txs) message w = ground (arith, state-send_all txs message (send tx message w))

delivered-All :
    (is_open : EnvelopeTx → Bool) (txs : List EnvelopeTx) (message : Message)
    → All (λ e. e.1 ≡ message) (delivered is_open txs message)
unfolding delivered
delivered-All is_open [] message = tt
delivered-All is_open (tx ∷ txs) message =
    All-append (λ (e : EnvelopeTx × Message). e.1 ≡ message) (delivered is_open txs message) _
      (delivered-All is_open txs message) (ground arith)

sent_to-append :
    (tx : EnvelopeTx) (xs ys : List (EnvelopeTx × Message))
    → sent_to tx (xs ++ ys) ≡ sent_to tx xs + sent_to tx ys
sent_to-append tx [] ys = omega arith
sent_to-append tx ((out, message) ∷ xs) ys = ground (arith, sent_to-append tx xs ys)

sent_to-delivered :
    (w : Server) (tx : EnvelopeTx) (cs : List ClientId) (message : Message)
    → sent_to tx (delivered w.is_open (outbounds w.state.market_data_clients cs) message)
      ≡ (if w.is_open tx then holders (λ c. outbound_of c w) tx cs else 0)
unfolding outbounds delivered
sent_to-delivered w tx [] message = ground arith
sent_to-delivered w tx (c ∷ cs) message = elim (Option-cases (get c w.state.market_data_clients)) [
  | inl e ↦ rw (e, outbounds, outbound_of, holders) (sent_to-delivered w tx cs message)
  | inr (actor, e) ↦
      rw (e, outbounds)
        (ground (
          arith,
          sent_to-append tx (delivered w.is_open (outbounds w.state.market_data_clients cs) message)
              (if w.is_open actor.outbound then (actor.outbound, message) ∷ [] else []),
          sent_to-delivered w tx cs message,
        ))
]

-- A tick adds only its own message to the channels: to each channel with a receiver once for each
-- registered subscriber of the instrument that holds it, and to a channel without receiver none.
-- The shared state stays as it was.
pub fanout_lem :
    (tick : MarketDataTick) (w : Server)
    → (new : List (EnvelopeTx × Message)) × ((fanout_market_data_tick tick w).envelopes
        ≡ new ++ w.envelopes)
      × All (λ e. e.1 ≡ tick_message tick) new
      × ((tx : EnvelopeTx)
          → sent_to tx new ≡ (
              if w.is_open tx
              then holders
                  (λ c. outbound_of c w)
                  tx
                  (subscribers tick.instrument_id w.state.market_data_subscriptions)
              else 0))
      × ((fanout_market_data_tick tick w).state ≡ w.state)
unfolding fanout_market_data_tick
fanout_lem tick w =
    let cs = subscribers tick.instrument_id w.state.market_data_subscriptions in
    let txs = outbounds w.state.market_data_clients cs in
    (
      delivered w.is_open txs (tick_message tick),
      envelopes-send_all txs (tick_message tick) w,
      delivered-All w.is_open txs (tick_message tick),
      (λ tx. sent_to-delivered w tx cs (tick_message tick)),
      state-send_all txs (tick_message tick) w,
    )

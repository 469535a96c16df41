-- ===== src/MarketData.antt =====
-- crates/server/src/actor/data.rs: who is subscribed to which instrument, what of that the shared
-- exchange session is asked for, and the fan-out of ticks.
pub mod Subscriptions
pub mod Tidy
pub mod Unsubscribe
pub mod Cleanup
pub mod Exchange
pub mod Fanout
pub mod Task
use ctp_system.Prelude.{
  ℕ, suc, ◌+◌, String, Bool, true, false, ◌&&◌, Option, none, some, List, [], ◌∷◌, Result, ok, err,
  if◌then◌else◌, string_eq, is_empty, is_some,
}
use ctp_system.HashMap
use ctp_system.HashMap.{HashMap, get, insert, get_or, keys}
use ctp_system.HashSet
use ctp_system.HashSet.{HashSet}
use ctp_system.Model.Types.{I32, F64, ClientId, InstrumentId}
use ctp_system.Protocol.{Failure, channel_closed, Message, MarketDataTickMessage}
use ctp_system.Server.{
  ServerActorState, Server, Sender, EnvelopeTx, MarketDataClientActor, MarketDataSessionActor,
  MarketDataSessionCommand, subscribe, unsubscribe, send,
}

abbrev pub Subscriptions : Type 0
Subscriptions = HashMap String (HashSet String)

-- The loop of `subscribe_market_data`: the instruments to ask the exchange for, and the new map.
unfoldable pub subscribe_market_data :
    ClientId → List InstrumentId → Subscriptions → List InstrumentId × Subscriptions
unfolding HashSet.insert
subscribe_market_data client_id [] subs = ([], subs)
subscribe_market_data client_id (instrument ∷ instruments) subs =
    let clients = get_or instrument [] subs in
    let (with_client, inserted) = HashSet.insert client_id clients in
    let (rest, subs') =
      subscribe_market_data client_id instruments (insert instrument with_client subs) in
    (if is_empty clients && inserted then instrument ∷ rest else rest, subs')

-- One instrument of `unsubscribe_market_data`: whether its last subscriber is gone, and the map.
leave : ClientId → InstrumentId → Option (HashSet String) → Subscriptions → Bool × Subscriptions
leave client_id instrument none subs = (false, subs)
leave client_id instrument (some clients) subs =
    let rest = HashSet.remove client_id clients in
    if is_empty rest
    then (true, HashMap.remove instrument subs)
    else (false, insert instrument rest subs)

unfoldable pub unsubscribe_market_data :
    ClientId → List InstrumentId → Subscriptions → List InstrumentId × Subscriptions
unfolding leave
unsubscribe_market_data client_id [] subs = ([], subs)
unsubscribe_market_data client_id (instrument ∷ instruments) subs =
    let (should_remove, left) = leave client_id instrument (get instrument subs) subs in
    let (rest, subs') = unsubscribe_market_data client_id instruments left in
    (if should_remove then instrument ∷ rest else rest, subs')

-- The first loop of `remove_market_data_client_subscriptions`: the instruments that the client
-- leaves empty, and the map with the client taken out.
unfoldable pub sweep : ClientId → Subscriptions → List InstrumentId × Subscriptions
sweep client_id [] = ([], [])
sweep client_id ((instrument, clients) ∷ subs) =
    let (empty, swept) = sweep client_id subs in
    let rest = HashSet.remove client_id clients in
    (if is_empty rest then instrument ∷ empty else empty, (instrument, rest) ∷ swept)

-- Its second loop.
unfoldable pub remove_all : List InstrumentId → Subscriptions → Subscriptions
remove_all [] subs = subs
remove_all (instrument ∷ instruments) subs = remove_all instruments (HashMap.remove instrument subs)

unfoldable pub remove_market_data_client_subscriptions :
    ClientId → Subscriptions → List InstrumentId × Subscriptions
unfolding sweep remove_all
remove_market_data_client_subscriptions client_id subs =
    let (empty, swept) = sweep client_id subs in (empty, remove_all empty swept)

unfoldable pub current_market_data_subscriptions : Subscriptions → List InstrumentId
current_market_data_subscriptions subs = keys subs

unfoldable pub with_subscriptions : Subscriptions → Server → Server
with_subscriptions subs w = record w { state = record w.state { market_data_subscriptions = subs } }

-- `actor.subscribe` and `actor.unsubscribe`: a command into the session actor's channel.
unfoldable pub send_market_data_command :
    MarketDataSessionActor → MarketDataSessionCommand → Server → Result Failure (Unit {0}) × Server
send_market_data_command actor command w =
    if w.is_open actor.command_tx
    then (
      ok tt,
      record w { market_data_commands = (actor.command_tx, command) ∷ w.market_data_commands },
    )
    else (err (channel_closed "market-data command channel closed"), w)

-- The actor of the shared session, spawned where there is none: its task holds the receiver of a
-- new channel.
ensure_session : Option MarketDataSessionActor → Server → MarketDataSessionActor × Server
ensure_session (some actor) w = (actor, w)
ensure_session none w =
    let actor : MarketDataSessionActor = record { command_tx = w.next_channel } in
    (
      actor,
      record w {
        state = record w.state { market_data_session = some actor };
        next_channel = suc w.next_channel;
      },
    )

unfoldable pub subscribe_exchange_market_data :
    ClientId → List InstrumentId → Server → Result Failure (Unit {0}) × Server
unfolding ensure_session with_subscriptions send_market_data_command
subscribe_exchange_market_data client_id instruments w =
    let (exchange_instruments, subs) =
      subscribe_market_data client_id instruments w.state.market_data_subscriptions in
    let (actor, w') = ensure_session w.state.market_data_session (with_subscriptions subs w) in
    if is_empty exchange_instruments
    then (ok tt, w')
    else send_market_data_command actor (subscribe exchange_instruments) w'

-- The end of `unsubscribe_exchange_market_data` and of `remove_exchange_market_data_client`.
unsubscribe_from :
    Option MarketDataSessionActor → List InstrumentId → Server → Result Failure (Unit {0}) × Server
unfolding send_market_data_command
unsubscribe_from none exchange_instruments w = (ok tt, w)
unsubscribe_from (some actor) exchange_instruments w =
    if is_empty exchange_instruments
    then (ok tt, w)
    else send_market_data_command actor (unsubscribe exchange_instruments) w

unfoldable pub unsubscribe_exchange_market_data :
    ClientId → List InstrumentId → Server → Result Failure (Unit {0}) × Server
unfolding unsubscribe_from with_subscriptions
unsubscribe_exchange_market_data client_id instruments w =
    let (exchange_instruments, subs) =
      unsubscribe_market_data client_id instruments w.state.market_data_subscriptions in
    unsubscribe_from w.state.market_data_session exchange_instruments (with_subscriptions subs w)

unfoldable pub remove_exchange_market_data_client :
    ClientId → Server → Result Failure (Unit {0}) × Server
unfolding unsubscribe_from with_subscriptions
remove_exchange_market_data_client client_id w =
    let (exchange_instruments, subs) =
      remove_market_data_client_subscriptions client_id w.state.market_data_subscriptions in
    let gone = record w {
      state = record w.state {
        market_data_clients = HashMap.remove client_id w.state.market_data_clients;
      };
    } in
    unsubscribe_from w.state.market_data_session exchange_instruments (with_subscriptions subs gone)

-- crates/common/src/network/ctp_client/types.rs
pub record MarketDataTick : Type 0 where
  pub instrument_id : String
  pub exchange_id : String
  pub last_price : F64
  pub volume : I32
  pub turnover : F64
  pub open_interest : F64
  pub bid_price1 : F64
  pub bid_volume1 : I32
  pub ask_price1 : F64
  pub ask_volume1 : I32
  pub update_time : String
  pub update_millisec : I32
  pub trading_day : String

unfoldable pub tick_message : MarketDataTick → Message
tick_message tick = Message.market_data_tick (record {
  instrument_id = tick.instrument_id;
  exchange_id = tick.exchange_id;
  last_price = tick.last_price;
  volume = tick.volume;
  turnover = tick.turnover;
  open_interest = tick.open_interest;
  bid_price1 = tick.bid_price1;
  bid_volume1 = tick.bid_volume1;
  ask_price1 = tick.ask_price1;
  ask_volume1 = tick.ask_volume1;
  update_time = tick.update_time;
  update_millisec = tick.update_millisec;
  trading_day = tick.trading_day;
})

-- The `filter_map` of `fanout_market_data_tick`.
unfoldable pub outbounds : HashMap String MarketDataClientActor → List ClientId → List EnvelopeTx
outbounds clients [] = []
outbounds clients (client_id ∷ client_ids) =
    let rest = outbounds clients client_ids in
    elim (get client_id clients) [ none ↦ rest | some actor ↦ actor.outbound ∷ rest ]

unfoldable pub send_all : List EnvelopeTx → Message → Server → Server
unfolding send
send_all [] message w = w
send_all (tx ∷ txs) message w = send_all txs message (send tx message w)

unfoldable pub fanout_market_data_tick : MarketDataTick → Server → Server
unfolding outbounds send_all
fanout_market_data_tick tick w =
    send_all
      (outbounds w.state.market_data_clients
        (get_or tick.instrument_id [] w.state.market_data_subscriptions))
      (tick_message tick) w

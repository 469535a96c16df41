-- ===== src/MarketData/Exchange.antt =====
-- Histories of the three operations of crates/server/src/actor/data.rs that change subscriptions:
-- the relation of clients and instruments that they implement, and the instruments that they return
-- for the exchange session.
use ctp_system.Prelude.{
  ◌≡◌, refl, Bool, not, ◌&&◌, ◌||◌, List, [], ◌∷◌, ap, ◌∙◌, arith, ◌==◌, string_eq, elem,
}
use ctp_system.Model.Types.{ClientId, InstrumentId}
use ctp_system.MarketData.Subscriptions.{
  subscribed, active, IsTidy, subscribed-subscribe, elem-subscribe_market_data,
}
use ctp_system.MarketData.Tidy.{subscribe-IsTidy}
use ctp_system.MarketData.Unsubscribe.{
  subscribed-unsubscribe, unsubscribe-IsTidy, elem-unsubscribe_market_data,
}
use ctp_system.MarketData.Cleanup.{
  subscribed-remove_client, elem-remove_client, remove_client-IsTidy,
}
use ctp_system.MarketData.{
  Subscriptions, subscribe_market_data, unsubscribe_market_data,
  remove_market_data_client_subscriptions,
}

pub data Request : Type 0 where
  subscribes unsubscribes : ClientId → List InstrumentId → Request
  disconnects : ClientId → Request

-- A request at the map, with the instruments that it returns: those to ask the exchange for, or to
-- ask it to stop.
unfoldable pub step : Request → Subscriptions → List InstrumentId × Subscriptions
step (subscribes c is) subs = subscribe_market_data c is subs
step (unsubscribes c is) subs = unsubscribe_market_data c is subs
step (disconnects c) subs = remove_market_data_client_subscriptions c subs

unfoldable pub run : List Request → Subscriptions → Subscriptions
unfolding step
run [] subs = subs
run (r ∷ rs) subs = run rs (step r subs).1

-- The abstract contract: a relation that each request changes for its own client only.
abbrev pub wants_after : Request → ClientId → InstrumentId → Bool → Bool
wants_after (subscribes c is) d j before = before || ((c == d) && elem j is)
wants_after (unsubscribes c is) d j before = before && not ((c == d) && elem j is)
wants_after (disconnects c) d j before = before && not (c == d)

abbrev pub wants : List Request → ClientId → InstrumentId → Bool → Bool
wants [] d j before = before
wants (r ∷ rs) d j before = wants rs d j (wants_after r d j before)

-- Whether a request has to reach the exchange, by whether the instrument had a subscriber before it
-- and has one after it.
abbrev pub changes : Request → Bool → Bool → Bool
changes (subscribes c is) before after = not before && after
changes (unsubscribes c is) before after = before && not after
changes (disconnects c) before after = before && not after

step-IsTidy : (r : Request) (subs : Subscriptions) → IsTidy subs → IsTidy (step r subs).1
unfolding step
step-IsTidy (subscribes c is) subs h = subscribe-IsTidy c is subs h
step-IsTidy (unsubscribes c is) subs h = unsubscribe-IsTidy c is subs h
step-IsTidy (disconnects c) subs h = remove_client-IsTidy c subs h

elem-step :
    (r : Request) (subs : Subscriptions) (j : InstrumentId)
    → IsTidy subs
    → elem j (step r subs).0 ≡ changes r (active j subs) (active j (step r subs).1)
unfolding step
elem-step (subscribes c is) subs j h = ground (arith, elem-subscribe_market_data c j is subs)
elem-step (unsubscribes c is) subs j h = elem-unsubscribe_market_data c j is subs h
elem-step (disconnects c) subs j h = elem-remove_client c j subs h

step-subscribed :
    (r : Request) (subs : Subscriptions) (d : ClientId) (j : InstrumentId)
    → IsTidy subs
    → subscribed d j (step r subs).1 ≡ wants_after r d j (subscribed d j subs)
unfolding step
step-subscribed (subscribes c is) subs d j h = subscribed-subscribe c d j is subs
step-subscribed (unsubscribes c is) subs d j h = subscribed-unsubscribe c d j is subs
step-subscribed (disconnects c) subs d j h = subscribed-remove_client c d j subs h

pub run-IsTidy : (rs : List Request) (subs : Subscriptions) → IsTidy subs → IsTidy (run rs subs)
unfolding run
run-IsTidy [] subs h = h
run-IsTidy (r ∷ rs) subs h = run-IsTidy rs (step r subs).1 (step-IsTidy r subs h)

-- From a tidy map, after whatever requests: the next one, of whatever kind, returns exactly the
-- instruments that it gives their first subscriber (a subscribe), or takes the last one from (an
-- unsubscribe or a disconnect).
pub elem-run :
    (rs : List Request) (r : Request) (subs : Subscriptions) (j : InstrumentId)
    → IsTidy subs
    → elem j (step r (run rs subs)).0
      ≡ changes r (active j (run rs subs)) (active j (step r (run rs subs)).1)
elem-run rs r subs j h = elem-step r (run rs subs) j (run-IsTidy rs subs h)

-- From a tidy map, whatever the requests: a client is subscribed to an instrument exactly if the
-- relation says so.
pub subscribed-run :
    (rs : List Request) (subs : Subscriptions) (d : ClientId) (j : InstrumentId)
    → IsTidy subs
    → subscribed d j (run rs subs) ≡ wants rs d j (subscribed d j subs)
unfolding run
subscribed-run [] subs d j h = refl
subscribed-run (r ∷ rs) subs d j h =
    subscribed-run rs (step r subs).1 d j (step-IsTidy r subs h)
    ∙ ap (wants rs d j) (step-subscribed r subs d j h)

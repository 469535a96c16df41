-- ===== src/MarketData/Subscriptions.antt =====
-- The subscription map of crates/server/src/actor/data.rs against the relation of clients and
-- instruments, and against the set of instruments that the exchange is asked for.
use text.Mathlib.TextEquality.{eq_iff}
use ctp_system.Prelude.{
  String, ◌≡◌, refl, Bool, true, false, not, ◌&&◌, ◌||◌, none, List, [], ◌∷◌, arith, ◌==◌,
  string_eq, elem, is_empty,
}
use ctp_system.HashMap.{get, insert, get_or, get-insert}
use ctp_system.HashSet
use ctp_system.HashSet.{HashSet, elem-insert, elem-remove}
use ctp_system.Model.Types.{ClientId, InstrumentId}
use ctp_system.MarketData.{Subscriptions, subscribe_market_data}

abbrev pub subscribers : InstrumentId → Subscriptions → HashSet String
subscribers i subs = get_or i [] subs

-- The abstract view: is the client subscribed to the instrument?
abbrev pub subscribed : ClientId → InstrumentId → Subscriptions → Bool
subscribed c i subs = elem c (subscribers i subs)

-- Does the instrument have a subscriber, so that the exchange has to send it?
abbrev pub active : InstrumentId → Subscriptions → Bool
active i subs = not (is_empty (subscribers i subs))

-- Every instrument stands once, with at least one subscriber.
abbrev pub IsTidy : Subscriptions → Type 0
IsTidy [] = Unit
IsTidy ((i, clients) ∷ subs) = (get i subs ≡ none) × (is_empty clients ≡ false) × IsTidy subs

pub insert_not_empty : (c : String) (s : HashSet String) → is_empty (HashSet.insert c s).0 ≡ false
unfolding HashSet.insert
insert_not_empty c [] = refl
insert_not_empty c (x ∷ s) = ground arith

inserted_of_empty :
    (c : String) (s : HashSet String) → is_empty s ≡ true → (HashSet.insert c s).1 ≡ true
unfolding HashSet.insert
inserted_of_empty c [] h = refl
inserted_of_empty c (x ∷ s) h = cc

-- After a subscribe request the client is subscribed to what it named beside what it had, and
-- nothing changes for others.
pub subscribed-subscribe :
    (c d : ClientId) (j : InstrumentId) (is : List InstrumentId) (subs : Subscriptions)
    → subscribed d j (subscribe_market_data c is subs).1
      ≡ (subscribed d j subs || ((c == d) && elem j is))
unfolding subscribe_market_data
subscribed-subscribe c d j [] subs = ground arith
subscribed-subscribe c d j (i ∷ is) subs =
    let clients = get_or i [] subs in
    ground (
      arith,
      subscribed-subscribe c d j is (insert i (HashSet.insert c clients).0 subs),
      get-insert i j (HashSet.insert c clients).0 subs,
      elem-insert c d clients,
      eq_iff i j,
    )

pub active-subscribe :
    (c : ClientId) (j : InstrumentId) (is : List InstrumentId) (subs : Subscriptions)
    → active j subs ≡ true
    → active j (subscribe_market_data c is subs).1 ≡ true
unfolding subscribe_market_data
active-subscribe c j [] subs h = h
active-subscribe c j (i ∷ is) subs h =
    let joined = (HashSet.insert c (get_or i [] subs)).0 in
    ground (
      arith,
      active-subscribe c j is (insert i joined subs),
      get-insert i j joined subs,
      insert_not_empty c (get_or i [] subs),
    )

-- The exchange is asked for exactly the instruments that had no subscriber and now have one.
pub elem-subscribe_market_data :
    (c : ClientId) (j : InstrumentId) (is : List InstrumentId) (subs : Subscriptions)
    → elem j (subscribe_market_data c is subs).0
      ≡ (active j (subscribe_market_data c is subs).1 && not (active j subs))
unfolding subscribe_market_data
elem-subscribe_market_data c j [] subs = ground arith
elem-subscribe_market_data c j (i ∷ is) subs =
    let clients = get_or i [] subs in
    let joined = (HashSet.insert c clients).0 in
    ground (
      arith,
      elem-subscribe_market_data c j is (insert i joined subs),
      active-subscribe c j is (insert i joined subs),
      get-insert i j joined subs,
      insert_not_empty c clients,
      inserted_of_empty c clients,
      eq_iff i j,
    )

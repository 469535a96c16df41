-- ===== src/MarketData/Tidy.antt =====
-- The subscription map of crates/server/src/actor/data.rs stays tidy: each instrument stands once,
-- with a subscriber.
use text.Mathlib.TextEquality.{eq_iff}
use ctp_system.Prelude.{String, ◌≡◌, false, none, some, List, [], ◌∷◌, arith, string_eq, is_empty}
use ctp_system.HashMap
use ctp_system.HashMap.{get, insert, get_or, get-insert, get-remove, get-empty}
use ctp_system.HashSet
use ctp_system.HashSet.{HashSet, elem-insert, elem-remove}
use ctp_system.Model.Types.{ClientId, InstrumentId}
use ctp_system.MarketData.Subscriptions.{IsTidy, insert_not_empty}
use ctp_system.MarketData.{Subscriptions, subscribe_market_data}

pub get-none-remove :
    (i j : InstrumentId) (subs : Subscriptions)
    → get i subs ≡ none
    → get i (HashMap.remove j subs) ≡ none
get-none-remove i j subs h = rw (get-remove j i subs) (ground arith)

pub remove-IsTidy :
    (i : InstrumentId) (subs : Subscriptions) → IsTidy subs → IsTidy (HashMap.remove i subs)
unfolding HashMap.remove
remove-IsTidy i [] h = tt
remove-IsTidy i ((j, clients) ∷ subs) h =
    ground (arith, remove-IsTidy i subs h.2, get-none-remove j i subs h.0)

pub insert-IsTidy :
    (i : InstrumentId) (clients : HashSet String) (subs : Subscriptions)
    → is_empty clients ≡ false
    → IsTidy subs
    → IsTidy (insert i clients subs)
unfolding insert
insert-IsTidy i clients subs full h =
    (rw (get-remove i i subs) (ground (arith, eq_iff i i)), full, remove-IsTidy i subs h)

pub subscribe-IsTidy :
    (c : ClientId) (is : List InstrumentId) (subs : Subscriptions)
    → IsTidy subs
    → IsTidy (subscribe_market_data c is subs).1
unfolding subscribe_market_data
subscribe-IsTidy c [] subs h = h
subscribe-IsTidy c (i ∷ is) subs h =
    let clients = get_or i [] subs in
    subscribe-IsTidy c is (insert i (HashSet.insert c clients).0 subs)
      (insert-IsTidy i (HashSet.insert c clients).0 subs (insert_not_empty c clients) h)

-- In a tidy map an instrument with an entry has a subscriber.
pub not_empty_of_IsTidy :
    (i : InstrumentId) (clients : HashSet String) (subs : Subscriptions)
    → IsTidy subs
    → get i subs ≡ some clients
    → is_empty clients ≡ false
unfolding get
not_empty_of_IsTidy i clients [] h e = cc
not_empty_of_IsTidy i clients ((j, members) ∷ subs) h e =
    ground (arith, not_empty_of_IsTidy i clients subs h.2)

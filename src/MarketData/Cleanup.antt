-- ===== src/MarketData/Cleanup.antt =====
-- `remove_market_data_client_subscriptions` of crates/server/src/actor/data.rs: what a client that
-- goes away leaves behind.
use text.Mathlib.TextEquality.{eq_iff}
use ctp_system.Prelude.{
  String, ◌≡◌, refl, Bool, true, false, not, ◌&&◌, Option, none, some, List, [], ◌∷◌, arith, ◌==◌,
  string_eq, if◌then◌else◌, elem, is_empty, inl, inr, Option-cases,
}
use ctp_system.HashMap
use ctp_system.HashMap.{HashMap, get, get-remove}
use ctp_system.HashSet
use ctp_system.HashSet.{HashSet, elem-remove}
use ctp_system.Model.Types.{ClientId, InstrumentId}
use ctp_system.MarketData.Subscriptions.{subscribed, active, IsTidy}
use ctp_system.MarketData.Tidy.{get-none-remove, not_empty_of_IsTidy}
use ctp_system.MarketData.{
  Subscriptions, sweep, remove_all, remove_market_data_client_subscriptions,
}

abbrev without : ClientId → Option (HashSet String) → Option (HashSet String)
without c none = none
without c (some clients) = some (HashSet.remove c clients)

abbrev emptied : ClientId → Option (HashSet String) → Bool
emptied c none = false
emptied c (some clients) = is_empty (HashSet.remove c clients)

get-sweep :
    (c : ClientId) (j : InstrumentId) (subs : Subscriptions)
    → get j (sweep c subs).1 ≡ without c (get j subs)
unfolding get sweep
get-sweep c j [] = refl
get-sweep c j ((i, clients) ∷ subs) = ground (arith, get-sweep c j subs)

elem-sweep :
    (c : ClientId) (j : InstrumentId) (subs : Subscriptions)
    → IsTidy subs
    → elem j (sweep c subs).0 ≡ emptied c (get j subs)
unfolding get sweep
elem-sweep c j [] h = refl
elem-sweep c j ((i, clients) ∷ subs) h = ground (arith, elem-sweep c j subs h.2, eq_iff i j)

get-remove_all :
    (j : InstrumentId) (is : List InstrumentId) (subs : Subscriptions)
    → get j (remove_all is subs) ≡ (if elem j is then none else get j subs)
unfolding remove_all
get-remove_all j [] subs = refl
get-remove_all j (i ∷ is) subs =
    ground (arith, get-remove_all j is (HashMap.remove i subs), get-remove i j subs)

get-remove_client :
    (c : ClientId) (j : InstrumentId) (subs : Subscriptions)
    → IsTidy subs
    → get j (remove_market_data_client_subscriptions c subs).1
      ≡ (if emptied c (get j subs) then none else without c (get j subs))
unfolding remove_market_data_client_subscriptions
get-remove_client c j subs h = ground (
  arith,
  get-remove_all j (sweep c subs).0 (sweep c subs).1,
  get-sweep c j subs,
  elem-sweep c j subs h,
)

elem_of_empty : (c : String) (s : HashSet String) → is_empty s ≡ true → elem c s ≡ false
elem_of_empty c [] h = refl
elem_of_empty c (x ∷ s) h = cc

-- On a tidy map the client is subscribed to nothing any more; the other clients keep what they had.
pub subscribed-remove_client :
    (c d : ClientId) (j : InstrumentId) (subs : Subscriptions)
    → IsTidy subs
    → subscribed d j (remove_market_data_client_subscriptions c subs).1
      ≡ (subscribed d j subs && not (c == d))
subscribed-remove_client c d j subs h = elim (Option-cases (get j subs)) [
  | inl e ↦ ground (arith, get-remove_client c j subs h, e)
  | inr (clients, e) ↦ ground (
    arith,
    get-remove_client c j subs h,
    e,
    elem-remove c d clients,
    elem_of_empty d (HashSet.remove c clients),
  )
]

-- On a tidy map the exchange is asked to stop exactly the instruments that had a subscriber and now
-- have none.
pub elem-remove_client :
    (c : ClientId) (j : InstrumentId) (subs : Subscriptions)
    → IsTidy subs
    → elem j (remove_market_data_client_subscriptions c subs).0
      ≡ (active j subs && not (active j (remove_market_data_client_subscriptions c subs).1))
unfolding remove_market_data_client_subscriptions
elem-remove_client c j subs h = elim (Option-cases (get j subs)) [
  | inl e ↦ ground (
    arith,
    elem-sweep c j subs h,
    e,
    get-remove_all j (sweep c subs).0 (sweep c subs).1,
    get-sweep c j subs,
  )
  | inr (clients, e) ↦ ground (
    arith,
    elem-sweep c j subs h,
    e,
    get-remove_all j (sweep c subs).0 (sweep c subs).1,
    get-sweep c j subs,
    not_empty_of_IsTidy j clients subs h e,
  )
]

-- No instrument gains its first subscriber.
pub active-remove_client :
    (c : ClientId) (j : InstrumentId) (subs : Subscriptions)
    → IsTidy subs
    → active j subs ≡ false
    → active j (remove_market_data_client_subscriptions c subs).1 ≡ false
active-remove_client c j subs h e = elim (Option-cases (get j subs)) [
  | inl p ↦ ground (arith, get-remove_client c j subs h, p)
  | inr (clients, p) ↦ absurd (ground (arith, e, p, not_empty_of_IsTidy j clients subs h p))
]

abbrev IsDistinct : Subscriptions → Type 0
IsDistinct [] = Unit
IsDistinct ((i, clients) ∷ subs) = (get i subs ≡ none) × IsDistinct subs

remove-IsDistinct :
    (i : InstrumentId) (subs : Subscriptions) → IsDistinct subs → IsDistinct (HashMap.remove i subs)
unfolding HashMap.remove
remove-IsDistinct i [] h = tt
remove-IsDistinct i ((j, clients) ∷ subs) h =
    ground (arith, remove-IsDistinct i subs h.1, get-none-remove j i subs h.0)

remove_all-IsDistinct :
    (is : List InstrumentId) (subs : Subscriptions)
    → IsDistinct subs
    → IsDistinct (remove_all is subs)
unfolding remove_all
remove_all-IsDistinct [] subs h = h
remove_all-IsDistinct (i ∷ is) subs h =
    remove_all-IsDistinct is (HashMap.remove i subs) (remove-IsDistinct i subs h)

sweep-IsDistinct : (c : ClientId) (subs : Subscriptions) → IsTidy subs → IsDistinct (sweep c subs).1
unfolding sweep
sweep-IsDistinct c [] h = tt
sweep-IsDistinct c ((i, clients) ∷ subs) h =
    (ground (arith, get-sweep c i subs), sweep-IsDistinct c subs h.2)

IsTidy-of_distinct :
    (subs : Subscriptions)
    → IsDistinct subs
    → ((i : InstrumentId) (clients : HashSet String)
        → get i subs ≡ some clients
        → is_empty clients ≡ false)
    → IsTidy subs
unfolding get
IsTidy-of_distinct [] d h = tt
IsTidy-of_distinct ((i, clients) ∷ subs) d h = (
  d.0,
  ground (arith, h i clients, eq_iff i i),
  IsTidy-of_distinct subs d.1 λ j members e. ground (arith, h j members, e, eq_iff i j, d.0),
)

pub remove_client-IsTidy :
    (c : ClientId) (subs : Subscriptions)
    → IsTidy subs
    → IsTidy (remove_market_data_client_subscriptions c subs).1
unfolding remove_market_data_client_subscriptions
remove_client-IsTidy c subs h =
    IsTidy-of_distinct (remove_all (sweep c subs).0 (sweep c subs).1)
      (remove_all-IsDistinct (sweep c subs).0 (sweep c subs).1 (sweep-IsDistinct c subs h))
      λ j members e. ground (
        arith,
        e,
        get-remove_all j (sweep c subs).0 (sweep c subs).1,
        get-sweep c j subs,
        elem-sweep c j subs h,
      )

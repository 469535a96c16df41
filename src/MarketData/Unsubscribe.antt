-- ===== src/MarketData/Unsubscribe.antt =====
-- `unsubscribe_market_data` of crates/server/src/actor/data.rs against the relation of clients and
-- instruments.
use text.Mathlib.TextEquality.{eq_iff}
use ctp_system.Prelude.{
  String, ◌≡◌, refl, true, false, not, ◌&&◌, Option, none, some, List, [], ◌∷◌, arith, ◌==◌,
  string_eq, elem, is_empty, Bool-cases, inl, inr, Option-cases,
}
use ctp_system.HashMap.{get, get-insert, get-remove}
use ctp_system.HashSet
use ctp_system.HashSet.{HashSet, elem-insert, elem-remove}
use ctp_system.Model.Types.{ClientId, InstrumentId}
use ctp_system.MarketData.Subscriptions.{subscribed, active, IsTidy}
use ctp_system.MarketData.Tidy.{remove-IsTidy, insert-IsTidy, not_empty_of_IsTidy}
use ctp_system.MarketData.{Subscriptions, unsubscribe_market_data, leave}

elem_of_empty : (c : String) (s : HashSet String) → is_empty s ≡ true → elem c s ≡ false
elem_of_empty c [] h = refl
elem_of_empty c (x ∷ s) h = cc

module _ (c : ClientId) (i : InstrumentId) (subs : Subscriptions) where
  leave-IsTidy : (entry : Option (HashSet String)) → IsTidy subs → IsTidy (leave c i entry subs).1
  unfolding leave
  leave-IsTidy none h = h
  leave-IsTidy (some clients) h = elim (Bool-cases (is_empty (HashSet.remove c clients))) [
    | inl e ↦ rw e (remove-IsTidy i subs h)
    | inr e ↦ rw e (insert-IsTidy i (HashSet.remove c clients) subs e h)
  ]

  subscribed-leave :
      (d : ClientId) (j : InstrumentId)
      → subscribed d j (leave c i (get i subs) subs).1
        ≡ (subscribed d j subs && not ((c == d) && (i == j)))
  unfolding leave
  subscribed-leave d j = elim (Option-cases (get i subs)) [
    | inl e ↦ rw (e, leave) (ground (arith, eq_iff i j, e))
    | inr (clients, e) ↦
        rw (e, leave)
          (ground (
            arith,
            e,
            get-remove i j subs,
            get-insert i j (HashSet.remove c clients) subs,
            elem-remove c d clients,
            elem_of_empty d (HashSet.remove c clients),
            eq_iff i j,
          ))
  ]

  -- The flag is set when the instrument loses its last subscriber, and only then; no other
  -- instrument gains or loses all of them.
  active-leave :
      (j : InstrumentId)
      → IsTidy subs
      → active j (leave c i (get i subs) subs).1
        ≡ (active j subs && not ((i == j) && (leave c i (get i subs) subs).0))
  unfolding leave
  active-leave j h = elim (Option-cases (get i subs)) [
    | inl e ↦ rw (e, leave) (ground (arith, eq_iff i j, e))
    | inr (clients, e) ↦
        rw (e, leave)
          (ground (
            arith,
            e,
            not_empty_of_IsTidy i clients subs h e,
            get-remove i j subs,
            get-insert i j (HashSet.remove c clients) subs,
            eq_iff i j,
          ))
  ]

  active_of_leave : IsTidy subs → (leave c i (get i subs) subs).0 ≡ true → active i subs ≡ true
  unfolding leave
  active_of_leave h = elim (Option-cases (get i subs)) [
    | inl e ↦ rw (e, leave) (λ p. cc)
    | inr (clients, e) ↦
        rw (e, leave) (λ p. ground (arith, e, not_empty_of_IsTidy i clients subs h e))
  ]

-- After an unsubscribe request the client has lost what it named, and nothing else changes.
pub subscribed-unsubscribe :
    (c d : ClientId) (j : InstrumentId) (is : List InstrumentId) (subs : Subscriptions)
    → subscribed d j (unsubscribe_market_data c is subs).1
      ≡ (subscribed d j subs && not ((c == d) && elem j is))
unfolding unsubscribe_market_data
subscribed-unsubscribe c d j [] subs = ground arith
subscribed-unsubscribe c d j (i ∷ is) subs = ground (
  arith,
  subscribed-unsubscribe c d j is (leave c i (get i subs) subs).1,
  subscribed-leave c i subs d j,
)

pub unsubscribe-IsTidy :
    (c : ClientId) (is : List InstrumentId) (subs : Subscriptions)
    → IsTidy subs
    → IsTidy (unsubscribe_market_data c is subs).1
unfolding unsubscribe_market_data
unsubscribe-IsTidy c [] subs h = h
unsubscribe-IsTidy c (i ∷ is) subs h =
    unsubscribe-IsTidy c is (leave c i (get i subs) subs).1 (leave-IsTidy c i subs (get i subs) h)

pub active-unsubscribe :
    (c : ClientId) (j : InstrumentId) (is : List InstrumentId) (subs : Subscriptions)
    → IsTidy subs
    → active j subs ≡ false
    → active j (unsubscribe_market_data c is subs).1 ≡ false
unfolding unsubscribe_market_data
active-unsubscribe c j [] subs h e = e
active-unsubscribe c j (i ∷ is) subs h e =
    active-unsubscribe c j is (leave c i (get i subs) subs).1 (leave-IsTidy c i subs (get i subs) h)
      (ground (arith, active-leave c i subs j h))

-- On a tidy map the exchange is asked to stop exactly the instruments that had a subscriber and now
-- have none.
pub elem-unsubscribe_market_data :
    (c : ClientId) (j : InstrumentId) (is : List InstrumentId) (subs : Subscriptions)
    → IsTidy subs
    → elem j (unsubscribe_market_data c is subs).0
      ≡ (active j subs && not (active j (unsubscribe_market_data c is subs).1))
unfolding unsubscribe_market_data
elem-unsubscribe_market_data c j [] subs h = ground arith
elem-unsubscribe_market_data c j (i ∷ is) subs h =
    let left = (leave c i (get i subs) subs).1 in
    let tidy = leave-IsTidy c i subs (get i subs) h in
    ground (
      arith,
      elem-unsubscribe_market_data c j is left tidy,
      active-unsubscribe c j is left tidy,
      active-leave c i subs j h,
      active_of_leave c i subs h,
      eq_iff i j,
    )

-- ===== src/MarketData/Task/Login.antt =====
-- What the market-data task of crates/server/src/actor/data.rs asks the exchange for around a login.
use ctp_system.Prelude.{
  ◌+◌, ◌%◌, ◌^◌, String, ◌≡◌, refl, sym, ap, ◌∙◌, Bool, true, false, Option, none, some, List, [],
  ◌∷◌, ◌++◌, Result, ok, err, arith, nat_eq, string_eq, if◌then◌else◌, is_empty, elem, All,
  All-append, Bool-cases, inl, inr,
}
use package.text.Mathlib.TextEquality.{eq_iff}
use ctp_system.HashMap.{get, keys}
use ctp_system.Model.Types.{I32, InstrumentId}
use ctp_system.MarketData.{Subscriptions}
use ctp_system.MarketData.Subscriptions.{IsTidy, active}
use ctp_system.MarketData.Task.{
  MdRequest, req_user_login, subscribe_market_data, unsubscribe_market_data, MdTask, MdDelivery,
  MdStatus, CtpEvent, front_connected, login_ok, login_event, wait_market_data_login, returned,
  waiting, handle_market_data_command, handle_market_data_event, resubscribe_market_data,
}
use ctp_system.Protocol.{Failure, text}
use ctp_system.MarketData.Task.{then_request, request_command}
use ctp_system.Server.{MarketDataSessionCommand, subscribe, unsubscribe}
use mathlib.Core.List.{append_assoc}

-- On a tidy map the keys are the instruments that have a subscriber.
elem-keys :
    (j : InstrumentId) (subs : Subscriptions) → IsTidy subs → elem j (keys subs) ≡ active j subs
unfolding get
elem-keys j [] h = refl
elem-keys j ((i, clients) ∷ subs) h = ground (arith, elem-keys j subs h.2, eq_iff i j, h.1, h.0)

-- The request that a login answer leads to.
abbrev pub resubscription : MdTask → List MdRequest
resubscription t =
    let instruments = keys t.server.state.market_data_subscriptions in
    if is_empty instruments then [] else subscribe_market_data instruments ∷ []

abbrev pub is_login : MdRequest → Bool
is_login (req_user_login rid) = true
is_login _ = false

abbrev pub IsLogin : MdRequest → Type 0
IsLogin r = is_login r ≡ true

module _ (answers : MdRequest → I32) where
  resubscribed :
      (t : MdTask)
      → ((resubscribe_market_data answers t).1.md.requests ≡ resubscription t ++ t.md.requests)
        × ((resubscribe_market_data answers t).1.logged_in ≡ t.logged_in)
  unfolding resubscribe_market_data
  resubscribed t = elim (Bool-cases (is_empty (keys t.server.state.market_data_subscriptions))) [
    | inl e ↦ ground (arith, e)
    | inr e ↦ ground (arith, e)
  ]

  -- When the task, while not busy with a command, hears that it is logged in, it asks the exchange
  -- with one request for every instrument of the subscription map, and with none where the map is
  -- empty; on a tidy map these are exactly the instruments that have a subscriber. The task is
  -- logged in, also where the request fails.
  pub login_ok-resubscribes :
      (day : String) (t : MdTask) (j : InstrumentId)
      → IsTidy t.server.state.market_data_subscriptions
      → ((handle_market_data_event answers (login_ok day) t).1.md.requests
          ≡ resubscription t ++ t.md.requests)
        × ((handle_market_data_event answers (login_ok day) t).1.logged_in ≡ true)
        × (elem j (keys t.server.state.market_data_subscriptions)
            ≡ active j t.server.state.market_data_subscriptions)
  unfolding handle_market_data_event
  login_ok-resubscribes day t j h =
      let after = resubscribed (record t { logged_in = true }) in
      (after.0, after.1, elem-keys j t.server.state.market_data_subscriptions h)

  -- Every request since is a login.
  abbrev pub OnlyLogins : MdTask → MdTask → Type 0
  OnlyLogins t t' =
      (new : List MdRequest) × (t'.md.requests ≡ new ++ t.md.requests) × All IsLogin new

  login_event-OnlyLogins : (e : CtpEvent) (t : MdTask) → OnlyLogins t (login_event answers e t).1
  unfolding login_event
  login_event-OnlyLogins front_connected t =
      (req_user_login ((t.md.request_id + 1) % 2 ^ 32) ∷ [], refl, (refl, tt))
  login_event-OnlyLogins _ t = ([], refl, tt)

  OnlyLogins-trans : (a b c : MdTask) → OnlyLogins a b → OnlyLogins b c → OnlyLogins a c
  OnlyLogins-trans a b c (xs, p, h) (ys, q, k) = (
    ys ++ xs,
    q ∙ ap (λ r. ys ++ r) p ∙ sym (append_assoc ys xs a.md.requests),
    All-append IsLogin ys xs k h,
  )

  -- How the wait ends: with success only while logged in.
  abbrev pub LoggedInIfOk : MdStatus × MdTask → Type 0
  LoggedInIfOk (returned (ok r) ds, t) = t.logged_in ≡ true
  LoggedInIfOk _ = Unit

  abbrev Good : MdTask → MdStatus × MdTask → Type 0
  Good t r = LoggedInIfOk r × OnlyLogins t r.1

  none_made : (t : MdTask) → OnlyLogins t t
  none_made t = ([], refl, tt)

  entered :
      (b : Bool) (ds : List MdDelivery) (t : MdTask) (r : MdStatus × MdTask)
      → t.logged_in ≡ b
      → Good t r
      → Good t (if b then (returned (ok tt) ds, t) else r)
  entered true ds t r h g = (h, none_made t)
  entered false ds t r h g = g

  module _ (ds : List MdDelivery) (rest : MdTask → MdStatus × MdTask)
      (goes_on : (t : MdTask) → Good t (rest t)) where
    resumed :
        (t : MdTask) (result : Result Failure (Unit {0})) (next : MdTask)
        → OnlyLogins t next
        → Good t (elim result as (λ x. MdStatus × MdTask) [
          | err e ↦ (returned (err e) ds, next)
          | ok _ ↦ rest next
        ])
    resumed t (err e) next h = (tt, h)
    resumed t (ok _) next h =
        ((goes_on next).0, OnlyLogins-trans t next (rest next).1 h (goes_on next).1)

    received :
        (t now : MdTask) (event : Option CtpEvent)
        → OnlyLogins t now
        → Good t (elim event as (λ x. MdStatus × MdTask) [
          | none ↦ (returned (err (text "market-data event channel closed")) ds, now)
          | some e ↦ elim (login_event answers e now).0 as (λ x. MdStatus × MdTask) [
            | err e' ↦ (returned (err e') ds, (login_event answers e now).1)
            | ok _ ↦ rest (login_event answers e now).1
          ]
        ])
    received t now none h = (tt, h)
    received t now (some e) h =
        let next = login_event answers e now in
        resumed t next.0 next.1 (OnlyLogins-trans t now next.1 h (login_event-OnlyLogins e now))

  -- Waiting for the login, the task makes no request but logins, and it goes on to its command only
  -- once it is logged in.
  pub wait_market_data_login_lem :
      (ds : List MdDelivery) (t : MdTask)
      → LoggedInIfOk (wait_market_data_login answers ds t)
        × OnlyLogins t (wait_market_data_login answers ds t).1
  unfolding wait_market_data_login
  wait_market_data_login_lem [] t = entered t.logged_in [] t (waiting, t) refl (tt, none_made t)
  wait_market_data_login_lem (d ∷ ds) t =
      let now = record t { server = d.others t.server } in
      entered t.logged_in (d ∷ ds) t _ refl (
        received ds (wait_market_data_login answers ds) (wait_market_data_login_lem ds) t now
          d.event (none_made t))

  abbrev pub request_of : MarketDataSessionCommand → MdRequest
  request_of (subscribe instruments) = subscribe_market_data instruments
  request_of (unsubscribe instruments) = unsubscribe_market_data instruments

  -- With success the task is logged in and has made the command's request, after logins only; while
  -- it waits it has made logins only.
  abbrev pub CommandOutcome : MarketDataSessionCommand → MdTask → MdStatus × MdTask → Type 0
  CommandOutcome command t (returned (ok r) ds, t') =
      (t'.logged_in ≡ true)
      × (new : List MdRequest) × (t'.md.requests ≡ request_of command ∷ new ++ t.md.requests)
      × All IsLogin new
  CommandOutcome command t (returned (err e) ds, t') = Unit
  CommandOutcome command t (waiting, t') = OnlyLogins t t'

  requested :
      (command : MarketDataSessionCommand) (t t' t'' : MdTask) (r : Result Failure (Unit {0}))
      (ds : List MdDelivery)
      → t'.logged_in ≡ true
      → OnlyLogins t t'
      → t''.logged_in ≡ t'.logged_in
      → t''.md.requests ≡ request_of command ∷ t'.md.requests
      → CommandOutcome command t (returned r ds, t'')
  requested command t t' t'' (err e) ds h o k m = tt
  requested command t t' t'' (ok r) ds h (new, p, a) k m =
      (k ∙ h, new, m ∙ ap (λ rs. request_of command ∷ rs) p, a)

  then_request-CommandOutcome :
      (command : MarketDataSessionCommand) (t t' : MdTask) (s : MdStatus)
      → Good t (s, t')
      → CommandOutcome command t (then_request answers command (s, t'))
  unfolding then_request
  then_request-CommandOutcome command t t' waiting g = g.1
  then_request-CommandOutcome command t t' (returned (err e) ds) g = tt
  then_request-CommandOutcome (subscribe is) t t' (returned (ok _) ds) g =
      let r = request_command answers (subscribe is) t' in
      requested (subscribe is) t t' r.1 r.0 ds g.0 g.1 (unfold request_command in refl)
        (unfold request_command in refl)
  then_request-CommandOutcome (unsubscribe is) t t' (returned (ok _) ds) g =
      let r = request_command answers (unsubscribe is) t' in
      requested (unsubscribe is) t t' r.1 r.0 ds g.0 g.1 (unfold request_command in refl)
        (unfold request_command in refl)

  -- A command that the task has handled with success has been asked of the exchange once, while
  -- logged in, and before it nothing but logins was asked; while the command waits, nothing but
  -- logins has been asked.
  pub handle_market_data_command-CommandOutcome :
      (command : MarketDataSessionCommand) (ds : List MdDelivery) (t : MdTask)
      → CommandOutcome command t (handle_market_data_command answers command ds t)
  unfolding handle_market_data_command
  handle_market_data_command-CommandOutcome command ds t =
      let r = wait_market_data_login answers ds t in
      then_request-CommandOutcome command t r.1 r.0 (wait_market_data_login_lem ds t)

-- ===== src/TradeActor/Login/Success.antt =====
-- When `drive_trade_login` of crates/server/src/actor/trade.rs succeeds, and what it has done then.
use ctp_system.Prelude.{
  ◌≡◌, refl, sym, subst, ap, true, none, some, is_some, inl, inr, Option-cases, List, Result, ok,
  err, arith, nat_eq, unwrap_or,
}
use ctp_system.Model.Enums.{connecting}
use ctp_system.Model.Types.{I32, AccountCredentials}
use ctp_system.Protocol.{Failure}
use ctp_system.Server.{EnvelopeTx}
use ctp_system.TradeSession.{Ctp, TradeSession}
use ctp_system.TradeSession.Events.{TradeSessionEvent}
use ctp_system.TradeActor.{
  Actor, Delivery, Status, returned, waiting, arrive, on_session, send_state, send_logged_in,
}
use ctp_system.TradeActor.Loop.{Leaves, Settles, drive-Settles}
use ctp_system.TradeActor.Login.{
  Surroundings, LoginLoop, login_event, login_loop, drive_trade_login, login_on, open_session,
}

-- The task has the ids of a login exactly where the handler has returned with success.
abbrev pub LoggedInIffOk : Status × Actor → Type 0
LoggedInIffOk (returned (ok r) ds, a) = is_some a.logged_in_ids ≡ true
LoggedInIffOk (returned (err e) ds, a) = a.logged_in_ids ≡ none
LoggedInIffOk (waiting, a) = a.logged_in_ids ≡ none

abbrev LoggedOut : LoginLoop → Type 0
LoggedOut l = l.actor.logged_in_ids ≡ none

-- The ids are those of the last login, and 0 where none was answered.
abbrev WithIds : Result Failure (Unit {0}) → LoginLoop → Type 0
WithIds (ok r) l = l.actor.logged_in_ids ≡ some (unwrap_or l.login_ids (0, 0))
WithIds (err e) l = l.actor.logged_in_ids ≡ none

module _ (ctp : Ctp) (credentials : AccountCredentials) (tx : EnvelopeTx) where
  login_event-Leaves :
      (e : TradeSessionEvent) (l : LoginLoop)
      → LoggedOut l
      → Leaves LoggedOut WithIds
          (login_event ctp credentials tx e l).0
          (login_event ctp credentials tx e l).1
  unfolding login_event on_session
  login_event-Leaves e l h = ground (arith, h)

  login_loop-Settles :
      (ds : List Delivery) (l : LoginLoop)
      → LoggedOut l
      → Settles LoggedOut WithIds (login_loop ctp credentials tx ds l)
  unfolding login_loop arrive
  login_loop-Settles ds l h =
      drive-Settles (λ d l. record l { actor = arrive d l.actor }) (login_event ctp credentials tx)
        LoggedOut WithIds (λ d l h. h) (λ l h. h) login_event-Leaves ds l h

  settled :
      (status : Status) (l : LoginLoop)
      → Settles LoggedOut WithIds (status, l)
      → LoggedInIffOk (status, l.actor)
  settled waiting l h = h
  settled (returned (ok r) ds) l h = rw h refl
  settled (returned (err e) ds) l h = h

  login_on-LoggedInIffOk :
      (r : Result Failure TradeSession) (ds : List Delivery) (a : Actor)
      → a.logged_in_ids ≡ none
      → LoggedInIffOk (login_on ctp credentials tx r ds a)
  unfolding login_on send_state
  login_on-LoggedInIffOk (err e) ds a h = h
  login_on-LoggedInIffOk (ok s) ds a h =
      let l : LoginLoop = record {
        actor = send_state tx credentials.account_id connecting (record a { session = some s });
        login_ids = none;
      } in
      let end = login_loop ctp credentials tx ds l in
      settled end.0 end.1 (login_loop-Settles ds l h)

  drive_trade_login_out :
      (env : Surroundings) (ds : List Delivery) (a : Actor)
      → a.logged_in_ids ≡ none
      → drive_trade_login ctp credentials tx env ds a
        ≡ login_on ctp credentials tx (open_session env credentials a.session) ds a
  unfolding drive_trade_login
  drive_trade_login_out env ds a n = simp (n, drive_trade_login)

  drive_trade_login_in :
      (env : Surroundings) (ds : List Delivery) (a : Actor) (ids : I32 × I32)
      → a.logged_in_ids ≡ some ids
      → drive_trade_login ctp credentials tx env ds a
        ≡ (returned (ok tt) ds, send_logged_in tx credentials.account_id ids a)
  unfolding drive_trade_login
  drive_trade_login_in env ds a ids n = simp (n, drive_trade_login)

  -- The handler succeeds exactly where the task is logged in afterwards; while it waits, and after
  -- every error, the task is not logged in.
  pub drive_trade_login_lem :
      (env : Surroundings) (ds : List Delivery) (a : Actor)
      → LoggedInIffOk (drive_trade_login ctp credentials tx env ds a)
  unfolding send_logged_in
  drive_trade_login_lem env ds a = elim (Option-cases a.logged_in_ids) [
    | inl n ↦
        subst LoggedInIffOk (sym (drive_trade_login_out env ds a n))
          (login_on-LoggedInIffOk (open_session env credentials a.session) ds a n)
    | inr (ids, n) ↦ subst LoggedInIffOk (sym (drive_trade_login_in env ds a ids n)) (ap is_some n)
  ]

-- ===== src/TradeActor/Login/Requests.antt =====
-- The requests that a login makes in `drive_trade_login` of crates/server/src/actor/trade.rs.
use ctp_system.Prelude.{
  ◌+◌, ◌%◌, ◌^◌, String, ◌≡◌, refl, ap, ◌∙◌, Option, none, some, List, ◌∷◌, Result, ok, err, nat_eq,
}
use ctp_system.Model.Enums.{authenticating}
use ctp_system.Model.Types.{I32, DateTime, AccountCredentials}
use ctp_system.Protocol.{Failure}
use ctp_system.Server.{Server, EnvelopeTx}
use ctp_system.TradeSession
use ctp_system.TradeSession.{
  Ctp, TradeSession, TradeSessionConfig, CtpRequest, req_authenticate, req_user_login,
  req_settlement_info_confirm,
}
use ctp_system.TradeSession.Events.{
  TradeSessionEvent, front_connected, authenticate_ok, login_ok, settlement_confirmed,
}
use ctp_system.TradeSession.Spi.{SharedState}
use ctp_system.TradeActor.{
  Actor, Delivery, returned, arrive, on_session, send_state, send_logged_in,
}
use ctp_system.TradeActor.Loop.{drive-round, drive-return}
use ctp_system.TradeActor.Login.{request, LoginLoop, login_event, login_loop}

abbrev pub after : I32 → I32
after rid = (rid + 1) % 2 ^ 32

abbrev pub session_of : TradeSessionConfig → SharedState → I32 → List CtpRequest → TradeSession
session_of c sh rid rs = record { config = c; shared = some sh; request_id = rid; requests = rs }

abbrev pub auth_request : TradeSessionConfig → I32 → CtpRequest
auth_request c rid =
    req_authenticate c.broker_id c.account_id "quantSystem" c.auth_code c.app_id rid

abbrev pub login_request : TradeSessionConfig → I32 → CtpRequest
login_request c rid = req_user_login c.broker_id c.account_id c.password "quantSystem" rid

abbrev pub settlement_request : TradeSessionConfig → I32 → CtpRequest
settlement_request c rid = req_settlement_info_confirm c.broker_id c.account_id c.account_id rid

abbrev pub deliver :
    TradeSessionEvent → (SharedState → SharedState) → (Server → Server) → DateTime → Delivery
deliver e callbacks others at = record {
  event = some e;
  callbacks = callbacks;
  others = others;
  at = at;
}

-- The loop's variables on a connection.
abbrev pub with_session : Actor → TradeSession → Option (I32 × I32) → LoginLoop
with_session a s ids = record { actor = record a { session = some s }; login_ids = ids }

module _ (ctp : Ctp) (credentials : AccountCredentials) (tx : EnvelopeTx) where
  request_ok :
      (m : Ctp → TradeSession → Result Failure I32 × TradeSession) (ids : Option (I32 × I32))
      (a : Actor) (s s' : TradeSession) (rid : I32)
      → m ctp s ≡ (ok rid, s')
      → request ctp credentials tx m ids (record a { session = some s })
        ≡ (none, with_session a s' ids)
  unfolding request on_session
  request_ok m ids a s s' rid h =
      ap
        (λ p. elim p.0 [
          | ok _ ↦ (none, with_session a p.1 ids)
          | err e ↦ (some (err e), with_session a p.1 ids)
        ])
        h

  module _ (accepts : (r : CtpRequest) → ctp.answer r ≡ 0) (c : TradeSessionConfig)
      (sh : SharedState) (rid : I32) (rs : List CtpRequest) where
    call_ok :
        (name : String) (r : CtpRequest) (id n : I32)
        → TradeSession.call ctp name r id (session_of c sh n rs)
          ≡ (ok id, session_of c sh n (r ∷ rs))
    unfolding TradeSession.call
    call_ok name r id n = rw (accepts r, TradeSession.call) refl

    authenticate_lem :
        TradeSession.authenticate ctp (session_of c sh rid rs)
        ≡ (ok (after rid), session_of c sh (after rid) (auth_request c (after rid) ∷ rs))
    unfolding TradeSession.authenticate TradeSession.next_request_id
    authenticate_lem =
        call_ok "req_authenticate" (auth_request c (after rid)) (after rid) (after rid)

    login_lem :
        TradeSession.login ctp (session_of c sh rid rs)
        ≡ (ok (after rid), session_of c sh (after rid) (login_request c (after rid) ∷ rs))
    unfolding TradeSession.login TradeSession.next_request_id
    login_lem = call_ok "req_user_login" (login_request c (after rid)) (after rid) (after rid)

    confirm_settlement_lem :
        TradeSession.confirm_settlement ctp (session_of c sh rid rs)
        ≡ (ok (after rid), session_of c sh (after rid) (settlement_request c (after rid) ∷ rs))
    unfolding TradeSession.confirm_settlement TradeSession.next_request_id
    confirm_settlement_lem =
        call_ok "req_settlement_info_confirm" (settlement_request c (after rid)) (after rid)
          (after rid)

  -- Where CTP takes every request, the four answers of a login, in their order and with anything
  -- that other tasks and the CTP thread do meanwhile, let the loop return with success: the task has the ids of the
  -- login's answer, and the session has asked to authenticate, to log in and to confirm the
  -- settlement, in this order and with consecutive request ids.
  pub login_loop_complete :
      (accepts : (r : CtpRequest) → ctp.answer r ≡ 0) (p q m n : SharedState → SharedState)
      (f g h k : Server → Server) (t u v w : DateTime) (day : String) (front session : I32)
      (c : TradeSessionConfig) (sh : SharedState) (rid : I32) (rs : List CtpRequest) (a : Actor)
      (rest : List Delivery)
      → let r =
          login_loop ctp credentials tx
            (deliver front_connected p f t
              ∷ deliver authenticate_ok q g u
              ∷ deliver (login_ok day front session) m h v
              ∷ deliver settlement_confirmed n k w
              ∷ rest)
            (with_session a (session_of c sh rid rs) none) in
        (r.0 ≡ returned (ok tt) rest)
        × (r.1.actor.logged_in_ids ≡ some (front, session))
        × (r.1.actor.session
            ≡ some (
                session_of c (n (m (q (p sh)))) (after (after (after rid))) (
                  settlement_request c (after (after (after rid)))
                  ∷ login_request c (after (after rid))
                  ∷ auth_request c (after rid)
                  ∷ rs)))
  unfolding login_loop login_event send_state send_logged_in arrive
  login_loop_complete accepts p q m n f g h k t u v w day front session c sh rid rs a rest =
      let arrives = λ (d : Delivery) (l : LoginLoop). record l { actor = arrive d l.actor } in
      let body = login_event ctp credentials tx in
      let d1 = deliver front_connected p f t in
      let d2 = deliver authenticate_ok q g u in
      let d3 = deliver (login_ok day front session) m h v in
      let d4 = deliver settlement_confirmed n k w in
      let a1 = send_state tx credentials.account_id authenticating (arrive d1 a) in
      let a2 = arrive d2 a1 in
      let a3 = arrive d3 a2 in
      let s1 = session_of c (p sh) (after rid) (auth_request c (after rid) ∷ rs) in
      let h1 = session_of c (q (p sh)) (after rid) s1.requests in
      let s2 =
        session_of c (q (p sh)) (after (after rid))
          (login_request c (after (after rid)) ∷ s1.requests) in
      let h2 = session_of c (m (q (p sh))) (after (after rid)) s2.requests in
      let s3 =
        session_of c (m (q (p sh))) (after (after (after rid)))
          (settlement_request c (after (after (after rid))) ∷ s2.requests) in
      let l3 = with_session a3 s3 (some (front, session)) in
      let h0 = session_of c (p sh) rid rs in
      let whole =
        drive-round arrives body d1 (d2 ∷ d3 ∷ d4 ∷ rest)
          (with_session a (session_of c sh rid rs) none) (with_session a1 s1 none) front_connected
          refl
          (request_ok TradeSession.authenticate none a1 h0 s1 (after rid)
            (authenticate_lem accepts c (p sh) rid rs))
        ∙ drive-round arrives body d2 (d3 ∷ d4 ∷ rest) (with_session a1 s1 none)
            (with_session a2 s2 none) authenticate_ok refl
            (request_ok TradeSession.login none a2 h1 s2 (after (after rid))
              (login_lem accepts c (q (p sh)) (after rid) s1.requests))
        ∙ drive-round arrives body d3 (d4 ∷ rest) (with_session a2 s2 none) l3
            (login_ok day front session) refl
            (request_ok TradeSession.confirm_settlement (some (front, session)) a3 h2 s3
              (after (after (after rid)))
              (confirm_settlement_lem accepts c (m (q (p sh))) (after (after rid)) s2.requests))
        ∙ drive-return arrives body d4 rest l3 settlement_confirmed (ok tt) refl refl in
      (
        ap (λ r. r.0) whole,
        ap (λ r. r.1.actor.logged_in_ids) whole,
        ap (λ r. r.1.actor.session) whole,
      )

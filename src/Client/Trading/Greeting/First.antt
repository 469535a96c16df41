-- ===== src/Client/Trading/Greeting/First.antt =====
-- The first frame on a connection that replaced another.
use ctp_system.Prelude.{
  ℕ, ◌≡◌, refl, ap, ◌∙◌, subst, sym, Option, none, some, List, [], ◌∷◌, ◌++◌, Result, ok, err, ◌⊎◌,
  inl, inr, continue, modify, arith,
}
use mathlib.Core.List.{append_assoc}
use ctp_system.Model.Types.{F64, ClientId, AccountCredentials}
use ctp_system.Protocol.{Message}
use ctp_system.Network.SendError.{SendError}
use ctp_system.Network.Frame.{Bytes}
use ctp_system.Network.Backoff.{ExponentialBackoff}
use ctp_system.Network.TcpClient.{Stream, TcpClient, Event, start}
use ctp_system.Network.TcpClient.Run.{Action}
use ctp_system.Network.TcpClient.Replay.{Frames, on, stream_of, replayed, since, in_flight}
use ctp_system.Network.TcpClient.Replay.Steps.{IsSound-IsInitial}
use ctp_system.Network.TcpClient.Replay.History.{act-Sound, start-Sound}
use ctp_system.Network.TcpClient.Log.{Renews, replays, act-Keeps}
use ctp_system.Client
use ctp_system.Client.{ClientConnection, Encoder, encode_all, set_reconnect_envelopes, update_on}
use ctp_system.Client.Trading.{
  TradingClient, Stamps, envelope, reconnect_envelopes, hello_envelope, send_envelope,
  update_reconnect_envelopes, request, from_sending, connect, send_hello,
}
use ctp_system.Client.Trading.Calls.{
  Call, login_account, logout_account, place_order, cancel_order, query_account, query_position,
  query_orders, query_trades, perform,
}
use ctp_system.Client.Trading.Greeting.{
  Happening, calls, acts, with_payloads, replays-with_payloads, act_on, step, run, IsHello, Greets,
  Greeted, IsCarrying, IsCarried, IsGreeting, Greeting,
}
use ctp_system.Client.Trading.Greeting.Carry.{
  Greeted-Law, Greets-Renews, send_on-IsGreeting, send_on-IsCarried, encode_all-Greets,
  set_payloads_ok, update-IsGreeting,
}

module _ (to_vec : Encoder) where
  -- A login or a logout after its message was sent, or not.
  settled :
      (credentials : Option AccountCredentials) (stamps : Stamps)
      (sent : Result SendError (Unit {0}) × TradingClient)
      → Greeting to_vec sent.1
      → Greeting to_vec
          (continue
            (continue sent (λ _. modify (λ c. record c { login_credentials = credentials })))
            (λ _. update_reconnect_envelopes to_vec stamps [])).1
  unfolding update_reconnect_envelopes
  settled credentials stamps (ok _, c) h =
      update-IsGreeting to_vec stamps (record c { login_credentials = credentials }) h
  settled credentials stamps (err e, c) h = h

  request-Greeting :
      (stamps : Stamps) (message : Message) (c : TradingClient)
      → Greeting to_vec c
      → Greeting to_vec (request to_vec stamps [] message c).1
  unfolding request send_envelope
  request-Greeting stamps message c h =
      send_on-IsGreeting to_vec c.client_id (envelope (stamps 0) message c.client_id) c.connection h

  perform-Greeting :
      (call : Call) (stamps : Stamps) (c : TradingClient)
      → Greeting to_vec c
      → Greeting to_vec (perform to_vec call stamps [] c).1
  unfolding perform
  perform-Greeting (login_account credentials) stamps c h =
      settled (some credentials) stamps
        (request to_vec stamps [] (Message.account_login credentials) c)
        (request-Greeting stamps (Message.account_login credentials) c h)
  perform-Greeting (logout_account account_id) stamps c h =
      settled none stamps (request to_vec stamps [] (Message.account_logout account_id) c)
        (request-Greeting stamps (Message.account_logout account_id) c h)
  perform-Greeting (place_order order) stamps c h =
      request-Greeting stamps (Message.place_order order) c h
  perform-Greeting (cancel_order cancel) stamps c h =
      request-Greeting stamps (Message.cancel_order cancel) c h
  perform-Greeting (query_account account_id) stamps c h =
      request-Greeting stamps (Message.query_account account_id) c h
  perform-Greeting (query_position account_id instrument_id) stamps c h =
      request-Greeting stamps (Message.query_position account_id instrument_id) c h
  perform-Greeting (query_orders account_id) stamps c h =
      request-Greeting stamps (Message.query_orders account_id) c h
  perform-Greeting (query_trades account_id) stamps c h =
      request-Greeting stamps (Message.query_trades account_id) c h

  module _ (grow : ℕ → F64 → ℕ) where
    Renews-with_payloads :
        (client_id : ClientId) (payloads : List Bytes) (action : Action)
        → Greets to_vec client_id payloads
        → Renews (Greeted to_vec client_id) (replays (with_payloads payloads action) payloads)
    Renews-with_payloads client_id payloads action g =
        subst (Renews (Greeted to_vec client_id)) (sym (replays-with_payloads payloads action))
          (Greets-Renews to_vec client_id payloads g)

    act_on-IsGreeting :
        (client_id : ClientId) (action : Action) (c : Option ClientConnection)
        → IsGreeting to_vec client_id c
        → IsGreeting to_vec client_id (act_on grow to_vec action c)
    unfolding act_on
    act_on-IsGreeting client_id action none h = h
    act_on-IsGreeting client_id action (some c) ((h, k), g) =
        let happens = with_payloads c.reconnect_payloads action in
        (
          (
            (_, act-Sound grow h.0 happens c.transport h.1),
            act-Keeps (Greeted to_vec client_id) (Greeted-Law to_vec client_id) grow happens
                c.transport c.reconnect_payloads
                (Renews-with_payloads client_id c.reconnect_payloads action g) k,
          ),
          g,
        )

    run-Greeting :
        (happenings : List Happening) (c : TradingClient)
        → Greeting to_vec c
        → Greeting to_vec (run grow to_vec happenings c)
    unfolding run
    run-Greeting [] c h = h
    run-Greeting (calls stamps call ∷ happenings) c h =
        run-Greeting happenings (perform to_vec call stamps [] c).1
          (perform-Greeting call stamps c h)
    run-Greeting (acts action ∷ happenings) c h =
        run-Greeting happenings (step grow to_vec (acts action) c)
          (act_on-IsGreeting c.client_id action c.connection h)

  update_ok :
      (stamps : Stamps) (c : TradingClient) (connection : Option ClientConnection)
      → IsCarried to_vec c.client_id connection
      → (update_on to_vec (reconnect_envelopes stamps c) connection).0 ≡ ok tt
      → IsGreeting to_vec c.client_id (update_on to_vec (reconnect_envelopes stamps c) connection).1
  unfolding update_on set_reconnect_envelopes reconnect_envelopes hello_envelope
  update_ok stamps c none h e = absurd (ground (arith, e))
  update_ok stamps c (some connection) h e =
      set_payloads_ok to_vec c.client_id (encode_all to_vec (reconnect_envelopes stamps c))
        connection (λ payloads. encode_all-Greets to_vec c.client_id (stamps 1) _ payloads) h e

  from_sent :
      (result : Result SendError (Unit {0})) (c : TradingClient)
      → (result ≡ ok tt → Greeting to_vec c)
      → (from_sending (result, c)).0 ≡ ok tt
      → Greeting to_vec (from_sending (result, c)).1
  unfolding from_sending
  from_sent (ok _) c h e = h refl
  from_sent (err error) c h e = absurd (ground (arith, e))

  hello_sent :
      (stamps : Stamps) (sent : Result SendError (Unit {0}) × TradingClient)
      → IsCarried to_vec sent.1.client_id sent.1.connection
      → (from_sending (continue sent (λ _. update_reconnect_envelopes to_vec stamps []))).0 ≡ ok tt
      → Greeting to_vec
          (from_sending (continue sent (λ _. update_reconnect_envelopes to_vec stamps []))).1
  unfolding update_reconnect_envelopes from_sending
  hello_sent stamps (ok _, c) h e =
      from_sent (update_on to_vec (reconnect_envelopes stamps c) c.connection).0
        (update_reconnect_envelopes to_vec stamps [] c).1 (update_ok stamps c c.connection h) e
  hello_sent stamps (err error, c) h e = absurd (ground (arith, e))

  -- What is written begins with what stands first among what is to be written.
  first_frame :
      (written more rest : Frames) (frame : Stream × Bytes)
      → written ++ more ≡ frame ∷ rest
      → (written ≡ []) ⊎ ((frames : Frames) × (written ≡ frame ∷ frames))
  first_frame [] more rest frame e = inl refl
  first_frame (f ∷ frames) more rest frame e = inr (frames, ground (arith, e))

  -- The first frame on the latest connection, if there is one.
  abbrev pub BeginsWithHello : ClientId → List Event → Type 0
  BeginsWithHello client_id log =
      (since log ≡ [])
      ⊎ ((payload : Bytes) × (frames : Frames) × IsHello to_vec client_id payload
          × (since log ≡ (stream_of log, payload) ∷ frames))

  carried_first :
      (client_id : ClientId) (t : TcpClient)
      → IsCarrying to_vec client_id t
      → (replayed t.log ≡ []) ⊎ BeginsWithHello client_id t.log
  unfolding on
  carried_first client_id t (h, inl e) = inl e
  carried_first client_id t (h, inr (payload, rest, is_hello, e)) =
      let stream = stream_of t.log in
      let later = h.0 in
      let (more, q) = IsSound-IsInitial later t.controller t.mode t.write_task t.queue t.log h.1 in
      let all =
        sym (append_assoc (since t.log) (in_flight t.write_task) more)
        ∙ q
        ∙ ap (λ (ps : List Bytes). on stream (ps ++ later)) e in
      inr (elim (first_frame (since t.log) _ (on stream (rest ++ later)) (stream, payload) all) [
        | inl none_yet ↦ inl none_yet
        | inr (frames, p) ↦ inr (payload, frames, is_hello, p)
      ])

  connect-Greeting :
      (heartbeat : Option Bytes) (limit : Option ℕ) (backoff : ExponentialBackoff) (stream : Stream)
      (stamps : Stamps) (c : TradingClient)
      → (connect to_vec stamps [] (ok (start heartbeat limit backoff stream)) c).0 ≡ ok tt
      → Greeting to_vec (connect to_vec stamps [] (ok (start heartbeat limit backoff stream)) c).1
  unfolding connect send_hello send_envelope start Client.new replayed
  connect-Greeting heartbeat limit backoff stream stamps c e =
      let transport = start heartbeat limit backoff stream in
      hello_sent stamps _
        (send_on-IsCarried to_vec c.client_id _ (some (Client.new transport))
          (([], start-Sound (λ current factor. 0) heartbeat limit backoff stream), inl refl))
        e

  greeted :
      (client_id : ClientId) (c : Option ClientConnection) (connection : ClientConnection)
      → c ≡ some connection
      → IsGreeting to_vec client_id c
      → IsCarrying to_vec client_id connection.transport
  greeted client_id c connection e h = (subst (IsGreeting to_vec client_id) e h).0

  -- A trading client that connected with success, with the tasks of its connection, its callers and
  -- the network in any order, each step between two awaits taken as one, and each reconnect
  -- replaying what the client has put there: either no
  -- reconnect has replayed anything yet, or the first frame that was written on the latest
  -- connection, if there is one, is a hello of the client.
  pub run-connect-BeginsWithHello :
      (grow : ℕ → F64 → ℕ) (heartbeat : Option Bytes) (limit : Option ℕ)
      (backoff : ExponentialBackoff) (stream : Stream) (stamps : Stamps)
      (happenings : List Happening) (c : TradingClient) (connection : ClientConnection)
      → (connect to_vec stamps [] (ok (start heartbeat limit backoff stream)) c).0 ≡ ok tt
      → (run grow to_vec happenings
          (connect to_vec stamps [] (ok (start heartbeat limit backoff stream)) c).1).connection
        ≡ some connection
      → let connected =
          (connect to_vec stamps [] (ok (start heartbeat limit backoff stream)) c).1 in
        (replayed connection.transport.log ≡ [])
        ⊎ BeginsWithHello (run grow to_vec happenings connected).client_id connection.transport.log
  run-connect-BeginsWithHello grow heartbeat limit backoff stream stamps happenings c connection h
        e =
      let connected = (connect to_vec stamps [] (ok (start heartbeat limit backoff stream)) c).1 in
      let last = run grow to_vec happenings connected in
      carried_first last.client_id connection.transport (
        greeted last.client_id last.connection connection e (
          run-Greeting grow happenings connected
            (connect-Greeting heartbeat limit backoff stream stamps c h)))

-- ===== src/Client/Trading/Greeting/Carry.antt =====
-- What sends and updates of the replayed payloads keep.
use ctp_system.Prelude.{
  ◌≡◌, refl, Option, none, some, List, [], ◌∷◌, Result, ok, err, inr, arith, String,
}
use ctp_system.Model.Types.{ClientId, RequestId, DateTime}
use ctp_system.Protocol.{Envelope, Message}
use ctp_system.Network.Frame.{Bytes}
use ctp_system.Network.TcpClient.{TcpClient}
use ctp_system.Network.TcpClient.Send
use ctp_system.Network.TcpClient.Send.{send_encoded}
use ctp_system.Network.TcpClient.Replay.{replayed}
use ctp_system.Network.TcpClient.Replay.History.{send_bytes-Sound}
use ctp_system.Network.TcpClient.Log.{Law, Renews, send_bytes-Keeps}
use ctp_system.Client.{
  ClientConnection, Encoder, cons_payload, encode_all, set_payloads, set_reconnect_envelopes,
  as_other, send_on, update_on,
}
use ctp_system.Client.Trading.{TradingClient, Stamps, envelope, reconnect_envelopes, hello_envelope}
use ctp_system.Client.Trading.Greeting.{IsHello, Greets, Greeted, IsCarrying, IsCarried, IsGreeting}

module _ (to_vec : Encoder) where
  pub Greeted-Law : (client_id : ClientId) → Law (Greeted to_vec client_id)
  unfolding replayed
  Greeted-Law client_id = record {
    over_receive = λ mode task queue log h. h;
    over_wrote = λ stream payload log h. h;
    over_ended = λ task log h. h;
    over_disconnected = λ log h. h;
  }

  pub Greets-Renews :
      (client_id : ClientId) (payloads : List Bytes)
      → Greets to_vec client_id payloads
      → Renews (Greeted to_vec client_id) payloads
  unfolding replayed
  Greets-Renews client_id payloads g = λ task stream log h. inr g

  send_encoded-IsCarrying :
      (client_id : ClientId) (payload : Result String Bytes) (t : TcpClient)
      → IsCarrying to_vec client_id t
      → IsCarrying to_vec client_id (send_encoded [] payload t).1
  unfolding send_encoded
  send_encoded-IsCarrying client_id (ok payload) t (h, k) = (
    (_, send_bytes-Sound h.0 payload t h.1),
    send_bytes-Keeps (Greeted to_vec client_id) (Greeted-Law client_id) payload t k,
  )
  send_encoded-IsCarrying client_id (err e) t h = h

  pub send_on-IsGreeting :
      (client_id : ClientId) (e : Envelope) (c : Option ClientConnection)
      → IsGreeting to_vec client_id c
      → IsGreeting to_vec client_id (send_on to_vec [] e c).1
  unfolding send_on Send.send_envelope
  send_on-IsGreeting client_id e none h = h
  send_on-IsGreeting client_id e (some c) (h, k) =
      (send_encoded-IsCarrying client_id (to_vec e) c.transport h, k)

  pub send_on-IsCarried :
      (client_id : ClientId) (e : Envelope) (c : Option ClientConnection)
      → IsCarried to_vec client_id c
      → IsCarried to_vec client_id (send_on to_vec [] e c).1
  unfolding send_on Send.send_envelope
  send_on-IsCarried client_id e none h = h
  send_on-IsCarried client_id e (some c) h =
      send_encoded-IsCarrying client_id (to_vec e) c.transport h

  cons_payload-Greets :
      (client_id : ClientId) (hello : Result String Bytes) (others : Result String (List Bytes))
      (payloads : List Bytes)
      → ((payload : Bytes) → hello ≡ ok payload → IsHello to_vec client_id payload)
      → cons_payload hello others ≡ ok payloads
      → Greets to_vec client_id payloads
  unfolding cons_payload
  cons_payload-Greets client_id (err e) others payloads is_hello h = absurd (ground (arith, h))
  cons_payload-Greets client_id (ok p) (err e) payloads is_hello h = absurd (ground (arith, h))
  cons_payload-Greets client_id (ok p) (ok ps) payloads is_hello h =
      (p, ps, is_hello p refl, ground (arith, h))

  pub encode_all-Greets :
      (client_id : ClientId) (stamp : RequestId × DateTime) (envelopes : List Envelope)
      (payloads : List Bytes)
      → encode_all to_vec (envelope stamp (Message.hello client_id) client_id ∷ envelopes)
        ≡ ok payloads
      → Greets to_vec client_id payloads
  unfolding encode_all
  encode_all-Greets client_id stamp envelopes payloads =
      cons_payload-Greets client_id _ (encode_all to_vec envelopes) payloads λ p e. (stamp, e)

  set_payloads-IsGreeting :
      (client_id : ClientId) (result : Result String (List Bytes)) (c : ClientConnection)
      → ((payloads : List Bytes) → result ≡ ok payloads → Greets to_vec client_id payloads)
      → IsGreeting to_vec client_id (some c)
      → IsGreeting to_vec client_id (some (set_payloads result c).1)
  unfolding set_payloads
  set_payloads-IsGreeting client_id (ok payloads) c greets (h, k) = (h, greets payloads refl)
  set_payloads-IsGreeting client_id (err e) c greets h = h

  -- `update_reconnect_envelopes`: it keeps a hello, and puts one where it succeeds.
  pub update-IsGreeting :
      (stamps : Stamps) (c : TradingClient)
      → IsGreeting to_vec c.client_id c.connection
      → IsGreeting to_vec c.client_id
          (update_on to_vec (reconnect_envelopes stamps c) c.connection).1
  unfolding update_on set_reconnect_envelopes reconnect_envelopes hello_envelope
  update-IsGreeting stamps c h = go c.connection h
    where
      go :
          (connection : Option ClientConnection)
          → IsGreeting to_vec c.client_id connection
          → IsGreeting to_vec c.client_id
              (update_on to_vec (reconnect_envelopes stamps c) connection).1
      go none h = h
      go (some connection) h =
          set_payloads-IsGreeting c.client_id (encode_all to_vec (reconnect_envelopes stamps c))
            connection (λ payloads. encode_all-Greets c.client_id (stamps 1) _ payloads) h

  pub set_payloads_ok :
      (client_id : ClientId) (result : Result String (List Bytes)) (c : ClientConnection)
      → ((payloads : List Bytes) → result ≡ ok payloads → Greets to_vec client_id payloads)
      → IsCarried to_vec client_id (some c)
      → as_other (set_payloads result c).0 ≡ ok tt
      → IsGreeting to_vec client_id (some (set_payloads result c).1)
  unfolding set_payloads as_other
  set_payloads_ok client_id (ok payloads) c greets h e = (h, greets payloads refl)
  set_payloads_ok client_id (err error) c greets h e = absurd (ground (arith, e))

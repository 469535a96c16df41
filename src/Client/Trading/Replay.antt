-- ===== src/Client/Trading/Replay.antt =====
-- What a trading client lets its connection send again after a reconnect.
use ctp_system.Prelude.{◌≡◌, refl, ap, Option, some, List, [], ◌∷◌, Result, ok, continue, modify}
use ctp_system.Model.Types.{AccountCredentials}
use ctp_system.Protocol.{Envelope}
use ctp_system.Network.SendError.{SendError}
use ctp_system.Network.Frame.{Bytes}
use ctp_system.Network.TcpClient.{TcpClient}
use ctp_system.Client.{
  ClientConnection, Encoder, Wakes, encode_all, set_payloads, set_reconnect_envelopes, as_other,
  update_on,
}
use ctp_system.Client.Trading.{
  TradingClient, Stamps, reconnect_envelopes, update_reconnect_envelopes,
}
use ctp_system.Client.Trading.Calls.{Call, perform, login_after}

module _ (to_vec : Encoder) where
  -- The payloads that are replayed are those of `reconnect_envelopes`, made at some moment.
  pub record IsReplaying (c : TradingClient) : Type 0 where
    pub connection : ClientConnection
    pub stamps : Stamps
    pub connected : c.connection ≡ some connection
    pub in_sync :
        encode_all to_vec (reconnect_envelopes stamps c) ≡ ok connection.reconnect_payloads

  abbrev pub IsTotal : Type 0
  IsTotal = (e : Envelope) → (payload : Bytes) × (to_vec e ≡ ok payload)

  pub encode_all_total :
      (envelopes : List Envelope)
      → IsTotal
      → (payloads : List Bytes) × (encode_all to_vec envelopes ≡ ok payloads)
  unfolding encode_all
  encode_all_total [] total = ([], refl)
  encode_all_total (e ∷ envelopes) total =
      let (payload, p) = total e in
      let (payloads, q) = encode_all_total envelopes total in
      (payload ∷ payloads, simp (p, q, encode_all))

  pub update_on-some :
      (envelopes : List Envelope) (connection : ClientConnection) (payloads : List Bytes)
      → encode_all to_vec envelopes ≡ ok payloads
      → update_on to_vec envelopes (some connection)
        ≡ (ok tt, some (record connection { reconnect_payloads = payloads }))
  unfolding update_on set_reconnect_envelopes set_payloads as_other
  update_on-some envelopes connection payloads e =
      ap (λ r. (as_other (set_payloads r connection).0, some (set_payloads r connection).1)) e

  -- A login or a logout after its message was sent, or not.
  abbrev settle :
      Option AccountCredentials
      → Stamps
      → Wakes
      → Result SendError (Unit {0}) × TradingClient
      → Result SendError (Unit {0}) × TradingClient
  settle credentials stamps wakes sent =
      continue (continue sent (λ _. modify (λ c. record c { login_credentials = credentials })))
        (λ _. update_reconnect_envelopes to_vec stamps wakes)

  -- What a call leaves.
  abbrev IsKept : Call → Stamps → Wakes → TradingClient → Type 0
  IsKept call stamps wakes c =
      let r = perform to_vec call stamps wakes c in
      IsReplaying r.1 × (r.1.login_credentials ≡ login_after call r.0 c.login_credentials)

-- ===== src/Client/Inbound.antt =====
-- From the write loop of the server to the inbound channel of a client.
use ctp_system.Prelude.{
  suc, ◌≤◌, ◌≡◌, refl, sym, subst, ap, ◌∙◌, String, Option, none, some, List, [], ◌∷◌, ◌++◌, Result,
  ok, All, length,
}
use mathlib.Core.List.{append-nil, append_assoc}
use ctp_system.Protocol.{Failure, Envelope}
use ctp_system.Network.Frame.{Bytes, frames, max_frame, ReadEnd, run_read_loop}
use ctp_system.Network.Frame.RoundTrip.{whole_frames}
use ctp_system.Gateway.Writer.{write_loop}
use ctp_system.Client.{ClientConnection, receive}

-- The handler over the payloads that the read loop hands to it.
unfoldable pub receive_all :
    (Bytes → Result String Envelope) → List Bytes → ClientConnection → ClientConnection
unfolding receive
receive_all from_slice [] c = c
receive_all from_slice (payload ∷ payloads) c =
    receive_all from_slice payloads (receive (from_slice payload) c)

payloads_of : Option (List Bytes × ReadEnd) → List Bytes
payloads_of none = []
payloads_of (some (payloads, e)) = payloads

-- The client's connection once it has read so many bytes.
unfoldable pub read_all :
    (Bytes → Result String Envelope) → Bytes → ClientConnection → ClientConnection
unfolding receive_all payloads_of run_read_loop
read_all from_slice bytes c =
    receive_all from_slice (payloads_of (run_read_loop (suc (length bytes)) bytes)) c

module _ (to_vec : Envelope → Result Failure Bytes)
    (from_slice : Bytes → Result String Envelope) where
  -- An envelope that JSON carries over, in a frame that the client reads.
  abbrev Fits : Envelope → Type 0
  Fits envelope =
      (payload : Bytes) × (to_vec envelope ≡ ok payload)
      × (from_slice payload ≡ ok envelope)
      × (length payload ≤ max_frame)

  abbrev payloads : (envelopes : List Envelope) → All Fits envelopes → List Bytes
  payloads [] fits = []
  payloads (envelope ∷ envelopes) (fit, fits) = fit.0 ∷ payloads envelopes fits

  write_loop-frames :
      (envelopes : List Envelope) (fits : All Fits envelopes)
      → write_loop to_vec envelopes ≡ (frames (payloads envelopes fits), ok tt)
  unfolding write_loop frames
  write_loop-frames [] fits = refl
  write_loop-frames (envelope ∷ envelopes) ((payload, e, d, h), fits) =
      simp (e, write_loop-frames envelopes fits, write_loop)

  payloads_fit :
      (envelopes : List Envelope) (fits : All Fits envelopes)
      → All (λ p. length p ≤ max_frame) (payloads envelopes fits)
  payloads_fit [] fits = tt
  payloads_fit (envelope ∷ envelopes) ((payload, e, d, h), fits) = (h, payloads_fit envelopes fits)

  receive_all-payloads :
      (envelopes : List Envelope) (fits : All Fits envelopes) (c : ClientConnection)
      → (receive_all from_slice (payloads envelopes fits) c).inbound ≡ c.inbound ++ envelopes
  unfolding receive_all receive
  receive_all-payloads [] fits c = sym (append-nil c.inbound)
  receive_all-payloads (envelope ∷ envelopes) ((payload, e, d, h), fits) c =
      let received = record c { inbound = c.inbound ++ envelope ∷ [] } in
      subst
        (λ r.
          (receive_all from_slice (payloads envelopes fits) (receive r c)).inbound
          ≡ c.inbound ++ envelope ∷ envelopes)
        (sym d)
        (receive_all-payloads envelopes fits received
          ∙ append_assoc c.inbound (envelope ∷ []) envelopes)

  -- The envelopes that the server's write loop writes, if each is carried over by JSON and is at most
  -- 16 MiB long: it writes all of them with success, and once the client has read what was written
  -- they stand behind what it had received, all of them and in order.
  pub read_all-write_loop :
      (envelopes : List Envelope) (c : ClientConnection)
      → All Fits envelopes
      → ((write_loop to_vec envelopes).1 ≡ ok tt)
        × ((read_all from_slice (write_loop to_vec envelopes).0 c).inbound ≡ c.inbound ++ envelopes)
  unfolding read_all payloads_of
  read_all-write_loop envelopes c fits =
      let read : read_all from_slice (frames (payloads envelopes fits)) c
          ≡ receive_all from_slice (payloads envelopes fits) c =
        ap (λ r. receive_all from_slice (payloads_of r) c)
          (whole_frames (payloads envelopes fits) (payloads_fit envelopes fits)) in
      let e = write_loop-frames envelopes fits in
      (
        ap (λ r. r.1) e,
        ap (λ w. (read_all from_slice w.0 c).inbound) e
            ∙ ap (λ (r : ClientConnection). r.inbound) read
            ∙ receive_all-payloads envelopes fits c,
      )

-- ===== src/Client.antt =====
-- crates/client/src/connection.rs: envelopes over the reconnecting TCP client. serde_json is a
-- parameter, the lock of the payloads is never poisoned.
pub mod Inbound
pub mod Trading
pub mod MarketData
pub mod Credentials
pub mod Main
use ctp_system.Prelude.{String, Option, none, some, List, [], ◌∷◌, ◌++◌, Result, ok, err}
use ctp_system.Protocol.{Envelope}
use ctp_system.Network.SendError.{SendError, closed, other}
use ctp_system.Network.Frame.{Bytes}
use ctp_system.Network.TcpClient.{TcpClient, close_starts, close_ends}
use ctp_system.Network.TcpClient.Send.{send_envelope}

-- The channel of inbound envelopes is oldest first.
pub record ClientConnection : Type 0 where
  pub transport : TcpClient
  pub inbound : List Envelope
  pub reconnect_payloads : List Bytes

-- The end of `connect`.
unfoldable pub new : TcpClient → ClientConnection
new transport = record { transport = transport; inbound = []; reconnect_payloads = [] }

-- The message handler of `connect`: a payload that is no envelope is skipped.
unfoldable pub receive : Result String Envelope → ClientConnection → ClientConnection
receive (ok envelope) c = record c { inbound = c.inbound ++ envelope ∷ [] }
receive (err e) c = c

first : List Envelope → Option Envelope × List Envelope
first [] = (none, [])
first (envelope ∷ envelopes) = (some envelope, envelopes)

-- `try_recv`, and `recv` where an envelope is there.
unfoldable pub try_recv : ClientConnection → Option Envelope × ClientConnection
unfolding first
try_recv c = let (envelope, rest) = first c.inbound in (envelope, record c { inbound = rest })

abbrev pub Encoder : Type 0
Encoder = Envelope → Result String Bytes

abbrev pub Wakes : Type 0
Wakes = List (TcpClient → TcpClient)

-- .map(serde_json::to_vec).collect::<Result<Vec<_>, _>>()
unfoldable pub cons_payload :
    Result String Bytes → Result String (List Bytes) → Result String (List Bytes)
cons_payload (err e) payloads = err e
cons_payload (ok payload) (err e) = err e
cons_payload (ok payload) (ok payloads) = ok (payload ∷ payloads)

unfoldable pub encode_all : Encoder → List Envelope → Result String (List Bytes)
unfolding cons_payload
encode_all to_vec [] = ok []
encode_all to_vec (envelope ∷ envelopes) =
    cons_payload (to_vec envelope) (encode_all to_vec envelopes)

unfoldable pub set_payloads :
    Result String (List Bytes) → ClientConnection → Result String (Unit {0}) × ClientConnection
set_payloads (ok payloads) c = (ok tt, record c { reconnect_payloads = payloads })
set_payloads (err e) c = (err e, c)

unfoldable pub set_reconnect_envelopes :
    Encoder → List Envelope → ClientConnection → Result String (Unit {0}) × ClientConnection
unfolding encode_all set_payloads
set_reconnect_envelopes to_vec envelopes c = set_payloads (encode_all to_vec envelopes) c

-- `send_envelope` of both clients: `self.connection()?.send(envelope).await`
unfoldable pub send_on :
    Encoder
    → Wakes
    → Envelope
    → Option ClientConnection
    → Result SendError (Unit {0}) × Option ClientConnection
unfolding send_envelope
send_on to_vec wakes envelope none = (err closed, none)
send_on to_vec wakes envelope (some c) =
    let (result, transport) = send_envelope to_vec wakes envelope c.transport in
    (result, some (record c { transport = transport }))

unfoldable pub as_other : Result String (Unit {0}) → Result SendError (Unit {0})
as_other (ok _) = ok tt
as_other (err e) = err (other e)

-- The end of `update_reconnect_envelopes` of both clients.
unfoldable pub update_on :
    Encoder
    → List Envelope
    → Option ClientConnection
    → Result SendError (Unit {0}) × Option ClientConnection
unfolding as_other set_reconnect_envelopes
update_on to_vec envelopes none = (err closed, none)
update_on to_vec envelopes (some c) =
    let (result, connection) = set_reconnect_envelopes to_vec envelopes c in
    (as_other result, some connection)

-- `recv` and `try_recv` of both clients.
unfoldable pub received : Option ClientConnection → Option Envelope × Option ClientConnection
unfolding try_recv
received none = (none, none)
received (some connection) =
    let (envelope, connection') = try_recv connection in (envelope, some connection')

-- `close` of the connection and of both clients, with what the other tasks do while it waits.
unfoldable pub close : (TcpClient → TcpClient) → ClientConnection → ClientConnection
unfolding close_starts close_ends
close others c = record c { transport = close_ends (others (close_starts c.transport)) }

unfoldable pub close_on :
    (TcpClient → TcpClient) → Option ClientConnection → Option ClientConnection
unfolding close
close_on others none = none
close_on others (some connection) = some (close others connection)

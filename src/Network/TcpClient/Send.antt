-- ===== src/Network/TcpClient/Send.antt =====
-- The sending methods of `TcpClient` in crates/common/src/network/tcp_client/client.rs.
use ctp_system.Prelude.{String, List, [], ◌∷◌, Result, ok, err, Exec, ◌>>◌, if◌then◌else◌}
use ctp_system.Network.Mode.{is_active, is_terminal}
use ctp_system.Network.SendError.{SendError, closed, timeout, broken_pipe, other}
use ctp_system.Protocol.{Envelope}
use ctp_system.Network.Frame.{Bytes}
use ctp_system.Network.TcpClient.{TcpClient, WriterCommand, send, enqueue}

abbrev pub Sending : Type 0
Sending = Exec SendError TcpClient (Unit {0})

unfoldable pub check_not_terminal : Sending
unfolding is_terminal
check_not_terminal c = (if is_terminal c.mode then err closed else ok tt, c)

-- The list is the wake-ups before the reconnect timeout elapses, each with what the other tasks have
-- done until then.
unfoldable pub wait_for_active : List (TcpClient → TcpClient) → Sending
unfolding is_active is_terminal
wait_for_active [] c =
    if is_active c.mode
    then (ok tt, c)
    else if is_terminal c.mode
    then (err closed, c)
    else (err timeout, c)
wait_for_active (others ∷ wakes) c =
    let later = wait_for_active wakes (others c) in
    if is_active c.mode then (ok tt, c) else if is_terminal c.mode then (err closed, c) else later

-- writer_tx.send(..).map_err(SendError::BrokenPipe)
unfoldable pub pushed : Result String (List WriterCommand) → Sending
pushed (ok queue) c = (ok tt, record c { queue = queue })
pushed (err e) c = (err (broken_pipe e), c)

unfoldable pub push : Bytes → Sending
unfolding enqueue pushed
push payload c = pushed (enqueue c.write_task (send payload) c.queue) c

unfoldable pub send_bytes : List (TcpClient → TcpClient) → Bytes → Sending
unfolding check_not_terminal wait_for_active push
send_bytes wakes payload = check_not_terminal >> wait_for_active wakes >> push payload

-- let data = serde_json::to_vec(envelope).map_err(..)?; self.send_bytes(data).await
unfoldable pub send_encoded : List (TcpClient → TcpClient) → Result String Bytes → Sending
unfolding send_bytes
send_encoded wakes (ok payload) c = send_bytes wakes payload c
send_encoded wakes (err e) c = (err (other e), c)

-- With `serde_json::to_vec` as a parameter.
unfoldable pub send_envelope :
    (Envelope → Result String Bytes) → List (TcpClient → TcpClient) → Envelope → Sending
unfolding send_encoded
send_envelope to_vec wakes envelope = send_encoded wakes (to_vec envelope)

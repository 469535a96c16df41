-- ===== src/Gateway/Writer.antt =====
-- `write_loop` of crates/server/src/adapter/internal/tcp_server.rs, with `serde_json::to_vec` as a
-- parameter: what it writes for the envelopes of its channel.
use ctp_system.Prelude.{List, [], ◌∷◌, ◌++◌, Result, ok, err}
use ctp_system.Protocol.{Failure, Envelope}
use ctp_system.Network.Frame.{Bytes, frame}

-- The bytes written, and the error that ends the loop.
unfoldable pub write_loop :
    (Envelope → Result Failure Bytes) → List Envelope → Bytes × Result Failure (Unit {0})
unfolding frame
write_loop to_vec [] = ([], ok tt)
write_loop to_vec (envelope ∷ envelopes) =
    let (rest, result) = write_loop to_vec envelopes in
    elim (to_vec envelope) [ ok payload ↦ (frame payload ++ rest, result) | err e ↦ ([], err e) ]

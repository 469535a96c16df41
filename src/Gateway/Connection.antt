-- ===== src/Gateway/Connection.antt =====
-- `read_loop` of crates/server/src/adapter/internal/tcp_server.rs over what is read from the socket.
pub mod Cleanup
use ctp_system.Prelude.{
  ℕ, ◌*◌, String, Bool, true, false, Option, none, some, List, [], ◌∷◌, Result, ok, err, ltb,
  if◌then◌else◌,
}
use ctp_system.Model.Types.{ClientId, DateTime}
use ctp_system.Protocol.{Failure, text, Envelope, Message, market_data_hello}
use ctp_system.Server.{Server, EnvelopeTx, SocketAddr}
use ctp_system.MarketData
use ctp_system.Gateway.{TcpEndpointKind, trading, market_data, handle_envelope}

-- One attempt to read a frame: the connection ends before a length, or its reading fails, or there
-- is a length, and what the bytes after it are (or why they cannot be read or parsed). `Arrival` has
-- it with what other tasks and connections did to the server until then.
pub data Read : Type 0 where
  unexpected_eof : Read
  broken : Failure → Read
  frame : ℕ → DateTime → Result Failure Envelope → Read

pub record Arrival : Type 0 where
  pub others : Server → Server
  pub read : Read

-- if let Message::MarketDataHello(req) = &envelope.payload { connected_client_id = Some(..) }
remember : TcpEndpointKind → Message → Option ClientId → Option ClientId
remember market_data (market_data_hello client_id) connected = some client_id
remember kind message connected = connected

clean_up : TcpEndpointKind → Option ClientId → Server → Server
clean_up market_data (some client_id) w =
    (MarketData.remove_exchange_market_data_client client_id w).1
clean_up kind connected w = w

-- `none` while the loop waits for the next frame.
module _ (kind : TcpEndpointKind) (peer : SocketAddr) (tx : EnvelopeTx) where
  -- One round: the result where the loop ends, and the variables.
  unfoldable pub round :
      Read
      → Option ClientId
      → Server
      → Option (Result Failure (Unit {0})) × (Option ClientId × Server)
  unfolding remember clean_up handle_envelope
  round unexpected_eof connected w = (some (ok tt), (connected, clean_up kind connected w))
  round (broken e) connected w = (some (err e), (connected, w))
  round (frame len now (err e)) connected w = (
    some (err (if ltb (16 * 1024 * 1024) len then text "frame too large" else e)),
    (connected, w),
  )
  round (frame len now (ok envelope)) connected w =
      let (result, w') = handle_envelope peer now tx kind envelope w in
      if ltb (16 * 1024 * 1024) len
      then (some (err (text "frame too large")), (connected, w))
      else (
        elim result [ err e ↦ some (err e) | ok _ ↦ none ],
        (remember kind envelope.payload connected, w'),
      )

  unfoldable pub read_loop :
      List Arrival → Option ClientId → Server → Option (Result Failure (Unit {0})) × Server
  unfolding round
  read_loop [] connected w = (none, w)
  read_loop (arrival ∷ arrivals) connected w =
      let (result, (connected', w')) = round arrival.read connected (arrival.others w) in
      elim result [ some r ↦ (some r, w') | none ↦ read_loop arrivals connected' w' ]

-- ===== src/Scenarios/Access.antt =====
-- The theorems on permissions and keys at concrete inputs.
use ctp_system.Prelude.{string_eq, refl, ◌≡◌, ◌↔◌, ◌⊎◌, true, none, some, List, [], ◌∷◌, ◌++◌, ok}
use ctp_system.Model.Enums.{full, query_only}
use ctp_system.Model.Ctp.{normalize_order_ref}
use ctp_system.Model.Ctp.Normalize.{normalize-IsOrderRef, IsOrderRef}
use ctp_system.Protocol.{Envelope, place_order, market_data_hello}
use ctp_system.HashMap.{get}
use ctp_system.Server.{register_market_data_client}
use ctp_system.Session.{permission_for}
use ctp_system.Session.Access.{write_access, allows, ensure, ensure_iff}
use ctp_system.Server.Config.{
  ClientAccessConfig, from_config, last_entry, permission_for-from_config,
}
use ctp_system.Gateway.{trading, market_data, handle_envelope}
use ctp_system.Gateway.Connection.{Arrival, frame, unexpected_eof, read_loop}
use ctp_system.Gateway.Connection.Cleanup.{IsCleaned, read_loop-IsCleaned}
use ctp_system.Gateway.Authorised.{IsAuthorised, handle_envelope-IsAuthorised}
use ctp_system.Scenarios.Data.{sessions, server, order}

abbrev placing : Envelope
placing = record {
  request_id = "r1";
  client_id = some "client-1";
  ts = 1000;
  payload = place_order order;
}

handle_envelope-IsAuthorised_example :
    ((handle_envelope 40001 1000 1 trading placing server).1.trade_commands ≡ server.trade_commands)
    ⊎ ((trading ≡ trading)
        × IsAuthorised
            (some "client-1")
            (place_order order)
            1
            server
            (handle_envelope 40001 1000 1 trading placing server).1)
handle_envelope-IsAuthorised_example =
    handle_envelope-IsAuthorised 40001 1000 1 trading placing server

abbrev lines : List ClientAccessConfig
lines =
    record { client_id = "client-1"; accounts = "268508" ∷ "268809" ∷ []; permission = query_only }
    ∷ record { client_id = "client-1"; accounts = "268508" ∷ []; permission = full }
    ∷ []

permission_for-from_config_example :
    permission_for "client-1" "268508" (from_config (λ s. s) lines)
    ≡ last_entry (λ s. s) "client-1" "268508" lines
permission_for-from_config_example = permission_for-from_config (λ s. s) lines "client-1" "268508"

ensure_iff_example :
    (ensure write_access "client-2" "268508" "place order" sessions ≡ ok tt)
    ↔ (allows (permission_for "client-2" "268508" sessions) write_access ≡ true)
ensure_iff_example = ensure_iff write_access "client-2" "268508" "place order" sessions

normalize-IsOrderRef_example : IsOrderRef (normalize_order_ref "order-2026-0001")
normalize-IsOrderRef_example = normalize-IsOrderRef "order-2026-0001"

-- The client places an order and leaves.
-- A hello of the first client.
abbrev greeting : Envelope
greeting = record {
  request_id = "r2";
  client_id = some "client-1";
  ts = 1000;
  payload = market_data_hello "client-1";
}

abbrev arrivals : List Arrival
arrivals = record { others = λ w. w; read = frame 200 1000 (ok greeting) } ∷ []

read_loop-IsCleaned_example :
    let r =
      read_loop market_data 40001 1
        (arrivals ++ record { others = λ w. w; read = unexpected_eof } ∷ [])
        none
        server in
    (r.0 ≡ some (ok tt))
    × IsCleaned "client-1" (read_loop market_data 40001 1 arrivals none server).1 r.1
unfolding read_loop handle_envelope register_market_data_client get
read_loop-IsCleaned_example =
    read_loop-IsCleaned 40001 1 arrivals [] (λ w. w) server "client-1" refl refl (refl, refl, tt)

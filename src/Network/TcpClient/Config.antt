-- ===== src/Network/TcpClient/Config.antt =====
-- crates/common/src/network/tcp_client/config.rs. Closures and shared cells are numbers.
use ctp_system.Prelude.{ℕ, String, Option, none, some}
use ctp_system.Model.Types.{F64}
use ctp_system.Network.Frame.{Bytes}

abbrev pub Handler : Type 0
Handler = ℕ

abbrev pub Shared : Type 0
Shared = ℕ

pub record TcpClientConfig : Type 0 where
  pub url : String
  pub message_handler : Option Handler
  pub heartbeat : Option (ℕ × Bytes)
  pub reconnect_timeout_ms : Option ℕ
  pub reconnect_delay_initial_ms : Option ℕ
  pub reconnect_delay_max_ms : Option ℕ
  pub reconnect_backoff_factor : Option F64
  pub reconnect_jitter_ms : Option ℕ
  pub connection_max_retries : Option ℕ
  pub reconnect_max_attempts : Option ℕ
  pub reconnect_payloads : Option Shared

-- The bits of 2.0.
abbrev pub two : F64
two = 0x4000000000000000

-- `TcpClientConfig::default` with another url.
unfoldable pub new : String → TcpClientConfig
new url = record {
  url = url;
  message_handler = none;
  heartbeat = none;
  reconnect_timeout_ms = some 10000;
  reconnect_delay_initial_ms = some 500;
  reconnect_delay_max_ms = some 30000;
  reconnect_backoff_factor = some two;
  reconnect_jitter_ms = some 250;
  connection_max_retries = some 5;
  reconnect_max_attempts = none;
  reconnect_payloads = none;
}

unfoldable pub with_handler : Handler → TcpClientConfig → TcpClientConfig
with_handler handler config = record config { message_handler = some handler }

unfoldable pub with_reconnect_payloads : Shared → TcpClientConfig → TcpClientConfig
with_reconnect_payloads payloads config = record config { reconnect_payloads = some payloads }

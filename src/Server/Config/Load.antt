-- ===== src/Server/Config/Load.antt =====
-- Loading in crates/server/src/config.rs. The environment, the file system, the toml parser and
-- `str::trim` are parameters.
use ctp_system.Prelude.{
  String, Bool, ◌||◌, Option, none, some, unwrap_or, List, [], Result, ok, err, ◌==◌, string_eq,
  if◌then◌else◌,
}
use ctp_system.Server.Config.{ClientAccessConfig}

pub record AccountConfig : Type 0 where
  pub account_id : String
  pub broker_id : String
  pub password : String
  pub app_id : String
  pub auth_code : String
  pub trade_front : String

pub record ServerConfig : Type 0 where
  pub listen_addr : String
  pub market_data_listen_addr : String
  pub md_front : String
  pub dynlib_dir : String
  pub accounts : List AccountConfig
  pub clients : List ClientAccessConfig

-- var.or_else(|_| other)
or_else : Option String → Option String → Option String
or_else none other = other
or_else (some value) other = some value

module _ (var : String → Option String) where
  unfoldable pub default : ServerConfig
  default = record {
    listen_addr = unwrap_or (var "CTP_TRADING_LISTEN_ADDR") "0.0.0.0:9000";
    market_data_listen_addr = unwrap_or (var "CTP_MARKET_DATA_LISTEN_ADDR") "0.0.0.0:9001";
    md_front = unwrap_or (var "CTP_MD_FRONT") "tcp://182.254.243.31:30011";
    dynlib_dir = "crates/server/src/adapter/exchange/ctp";
    accounts = [];
    clients = [];
  }

  -- Reading a file, and parsing its text.
  module _ (read_to_string : String → Result String String)
      (from_str : String → Result String ServerConfig) where
    unfoldable pub load_from_path : String → Result String ServerConfig
    load_from_path path = elim (read_to_string path) [
      | err e ↦ err e
      | ok content ↦ from_str content
    ]

    unfoldable pub load : (String → Bool) → Result String ServerConfig
    unfolding load_from_path default
    load exists =
        let path = unwrap_or (var "CTP_SERVER_CONFIG") "config/server.toml" in
        if exists path then load_from_path path else ok default

  unfoldable pub server_md_credentials : (String → String) → Result String (String × String)
  unfolding or_else
  server_md_credentials trim = elim (or_else (var "CTP_SERVER_USER_ID") (var "CTP_USER_ID")) [
    | none ↦ err "missing CTP_SERVER_USER_ID for market-data session"
    | some user_id ↦ elim (or_else (var "CTP_SERVER_PASSWORD") (var "CTP_PASSWORD")) [
      | none ↦ err "missing CTP_SERVER_PASSWORD for market-data session"
      | some password ↦
          if trim user_id == "" || trim password == ""
          then err "CTP_SERVER_USER_ID / CTP_SERVER_PASSWORD must not be empty"
          else ok (user_id, password)
    ]
  ]

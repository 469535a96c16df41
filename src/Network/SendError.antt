-- ===== src/Network/SendError.antt =====
-- crates/common/src/network/error.rs
use ctp_system.Prelude.{String}

pub data SendError : Type 0 where
  closed timeout : SendError
  broken_pipe other : String → SendError

-- ===== src/Network.antt =====
-- crates/common/src/network: the reconnecting client's connection modes and delays.
pub mod Mode
pub mod Backoff
pub mod Frame
pub mod SendError
pub mod TcpClient
pub mod QuoteClient

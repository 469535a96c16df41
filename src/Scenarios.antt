-- ===== src/Scenarios.antt =====
-- The theorems at concrete inputs: two clients, one account, and what the exchange sends.
pub mod Data
mod Access
mod Market
mod Task
mod Session
mod Network
mod Transport
mod Clients

-- ===== src/Model.antt =====
-- crates/model/src: the domain types, the mapping of CTP characters and the exchange reports.
pub mod Enums
pub mod Types
pub mod Ctp
pub mod Reports

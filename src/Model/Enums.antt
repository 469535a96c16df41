-- ===== src/Model/Enums.antt =====
-- crates/model/src/enums.rs
pub data Direction : Type 0 where
  buy sell : Direction

pub data OffsetFlag : Type 0 where
  opening close close_today close_yesterday : OffsetFlag

pub data OrderType : Type 0 where
  limit market fak fok : OrderType

pub data OrderStatus : Type 0 where
  submitted accepted partially_filled filled cancelled rejected unknown : OrderStatus

pub data ConnectionState : Type 0 where
  disconnected connecting connected authenticating logged_in error : ConnectionState

pub data ClientPermission : Type 0 where
  full query_only trade_only : ClientPermission

-- ===== src/Model/Ctp.antt =====
-- crates/model/src/ctp.rs: the lookup key of an order and the mapping of CTP characters. A
-- character is its code point, an `i8` that is read as one its 8-bit pattern.
pub mod Normalize
pub use Normalize.{normalize_order_ref-idempotent, IsOrderRef, normalize-IsOrderRef}
unfoldable pub use Normalize.{normalize_order_ref}
use ctp_system.Prelude.{ℕ, Option, none, some, ◌||◌, ◌==◌, nat_eq, if◌then◌else◌}
use ctp_system.Model.Enums.{
  Direction, buy, sell, OffsetFlag, opening, close, close_today, close_yesterday, OrderStatus,
  submitted, accepted, partially_filled, filled, cancelled, unknown,
}

unfoldable pub direction_from_ctp : ℕ → Option Direction
direction_from_ctp value =
    if value == b'0' then some buy else if value == b'1' then some sell else none

unfoldable pub offset_from_ctp : ℕ → OffsetFlag
offset_from_ctp flag =
    if flag == b'0'
    then opening
    else if flag == b'1'
    then close
    else if flag == b'3'
    then close_today
    else if flag == b'4'
    then close_yesterday
    else opening

unfoldable pub order_status_from_ctp : ℕ → OrderStatus
order_status_from_ctp status =
    if status == b'0'
    then filled
    else if status == b'1' || status == b'2'
    then partially_filled
    else if status == b'3' || status == b'4'
    then accepted
    else if status == b'5'
    then cancelled
    else if status == b'a' || status == b'b' || status == b'c'
    then submitted
    else unknown

unfoldable pub posi_direction_from_ctp : ℕ → Option Direction
posi_direction_from_ctp flag =
    if flag == b'2' then some buy else if flag == b'3' then some sell else none

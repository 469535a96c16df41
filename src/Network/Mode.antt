-- ===== src/Network/Mode.antt =====
-- crates/common/src/network/mode.rs
use ctp_system.Prelude.{
  ℕ, ◌≡◌, refl, Bool, true, false, Option, none, some, ◌==◌, nat_eq, if◌then◌else◌,
}

pub data ConnectionMode : Type 0 where
  active reconnect disconnect closed : ConnectionMode

-- `none` where the source panics.
unfoldable pub from_u8 : ℕ → Option ConnectionMode
from_u8 value =
    if value == 0
    then some active
    else if value == 1
    then some reconnect
    else if value == 2
    then some disconnect
    else if value == 3
    then some closed
    else none

unfoldable pub as_u8 : ConnectionMode → ℕ
as_u8 active = 0
as_u8 reconnect = 1
as_u8 disconnect = 2
as_u8 closed = 3

-- The byte of a mode is read back as that mode: no panic.
pub from_u8-as_u8 : (mode : ConnectionMode) → from_u8 (as_u8 mode) ≡ some mode
unfolding from_u8 as_u8
from_u8-as_u8 active = refl
from_u8-as_u8 reconnect = refl
from_u8-as_u8 disconnect = refl
from_u8-as_u8 closed = refl

unfoldable pub is_active : ConnectionMode → Bool
is_active active = true
is_active mode = false

unfoldable pub is_terminal : ConnectionMode → Bool
is_terminal disconnect = true
is_terminal closed = true
is_terminal mode = false

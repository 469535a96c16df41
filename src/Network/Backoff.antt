-- ===== src/Network/Backoff.antt =====
-- crates/common/src/network/backoff.rs. A Duration is its nanoseconds. The arithmetic of f64 is a
-- parameter: whether a factor is in [1, 100], and the milliseconds that a delay grows to.
pub mod Bounds
use ctp_system.Prelude.{
  ℕ, ◌+◌, ◌*◌, ◌%◌, Bool, true, false, ◌&&◌, Result, ok, err, ltb, ◌==◌, nat_eq, if◌then◌else◌,
}
use ctp_system.Model.Types.{F64}
use ctp_system.Protocol.{Failure, text}

pub record ExponentialBackoff : Type 0 where
  pub delay_initial : ℕ
  pub delay_max : ℕ
  pub delay_current : ℕ
  pub factor : F64
  pub jitter_ms : ℕ
  pub immediate_reconnect : Bool

unfoldable pub from_millis : ℕ → ℕ
from_millis ms = ms * 1000000

abbrev pub min : ℕ → ℕ → ℕ
min a b = if ltb b a then b else a

abbrev pub max : ℕ → ℕ → ℕ
max a b = if ltb a b then b else a

unfoldable pub new : (F64 → Bool) → ℕ → ℕ → F64 → ℕ → Bool → Result Failure ExponentialBackoff
new in_range delay_initial delay_max factor jitter_ms immediate_first =
    if delay_initial == 0
    then err (text "delay_initial must be non-zero")
    else if ltb delay_max delay_initial
    then err (text "delay_max must be >= delay_initial")
    else if in_range factor
    then ok (record {
      delay_initial = delay_initial;
      delay_max = delay_max;
      delay_current = delay_initial;
      factor = factor;
      jitter_ms = jitter_ms;
      immediate_reconnect = immediate_first;
    })
    else err (text "factor must be in [1.0, 100.0]")

-- The jitter in milliseconds, from the nanoseconds of the clock.
unfoldable pub jitter : ℕ → ℕ → ℕ
jitter jitter_ms subsec_nanos = if jitter_ms == 0 then 0 else subsec_nanos % (jitter_ms + 1)

unfoldable pub next_duration : (ℕ → F64 → ℕ) → ℕ → ExponentialBackoff → ℕ × ExponentialBackoff
unfolding from_millis jitter
next_duration grow subsec_nanos b =
    if b.immediate_reconnect && b.delay_current == b.delay_initial
    then (0, record b { immediate_reconnect = false })
    else (
      b.delay_current + from_millis (jitter b.jitter_ms subsec_nanos),
      record b {
        delay_current =
            max (min (from_millis (grow b.delay_current b.factor)) b.delay_max) b.delay_initial;
      },
    )

unfoldable pub reset : ExponentialBackoff → ExponentialBackoff
reset b = record b { delay_current = b.delay_initial; immediate_reconnect = false }

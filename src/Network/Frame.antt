-- ===== src/Network/Frame.antt =====
-- The frames of crates/common/src/network/tcp_client/client.rs: the length as four bytes, then the
-- payload. A byte stream is the list of what arrives before the connection ends.
pub mod RoundTrip
use ctp_system.Prelude.{
  ℕ, zero, suc, ◌+◌, ◌*◌, ◌/◌, ◌%◌, ◌^◌, Option, none, some, List, [], ◌∷◌, ◌++◌, ltb, length,
  if◌then◌else◌,
}

abbrev pub Bytes : Type 0
Bytes = List ℕ

unfoldable pub to_be_bytes : ℕ → Bytes
to_be_bytes n = n / 2 ^ 24 % 256 ∷ n / 2 ^ 16 % 256 ∷ n / 2 ^ 8 % 256 ∷ n % 256 ∷ []

unfoldable pub from_be_bytes : Bytes → ℕ
from_be_bytes (a ∷ b ∷ c ∷ d ∷ []) = a * 2 ^ 24 + b * 2 ^ 16 + c * 2 ^ 8 + d
from_be_bytes bytes = 0

-- What the writer puts on the wire for one payload; `payload.len() as u32` wraps.
unfoldable pub frame : Bytes → Bytes
frame payload = to_be_bytes (length payload % 2 ^ 32) ++ payload

-- `read_exact`: `none` where the connection ends before so many bytes.
unfoldable pub read_exact : ℕ → Bytes → Option (Bytes × Bytes)
read_exact zero bytes = some ([], bytes)
read_exact (suc n) [] = none
read_exact (suc n) (b ∷ bytes) = elim (read_exact n bytes) [
  | none ↦ none
  | some (front, rest) ↦ some (b ∷ front, rest)
]

-- Why the read loop ends.
pub data ReadEnd : Type 0 where
  read_length_failed : ReadEnd
  frame_too_large : ℕ → ReadEnd
  read_payload_failed : ReadEnd

abbrev pub max_frame : ℕ
max_frame = 16 * 1024 * 1024

-- One round: the end of the loop, or the payload for the handler and the bytes after it.
pub data Round : Type 0 where
  ends : ReadEnd → Round
  payload : Bytes → Bytes → Round

unfoldable pub read_payload : ℕ → Bytes → Round
unfolding read_exact
read_payload len bytes =
    if ltb max_frame len then ends (frame_too_large len) else elim (read_exact len bytes) [
      | none ↦ ends read_payload_failed
      | some (buf, rest) ↦ payload buf rest
    ]

unfoldable pub read_frame : Bytes → Round
unfolding read_exact read_payload from_be_bytes
read_frame bytes = elim (read_exact 4 bytes) [
  | none ↦ ends read_length_failed
  | some (len_buf, rest) ↦ read_payload (from_be_bytes len_buf) rest
]

-- The payloads that the handler is called with, in order, and why the loop ends; `none` where the
-- fuel is spent.
unfoldable pub run_read_loop : ℕ → Bytes → Option (List Bytes × ReadEnd)
unfolding read_frame
run_read_loop zero bytes = none
run_read_loop (suc fuel) bytes = elim (read_frame bytes) [
  | ends e ↦ some ([], e)
  | payload buf rest ↦ elim (run_read_loop fuel rest) [
    | none ↦ none
    | some (handled, e) ↦ some (buf ∷ handled, e)
  ]
]

-- The frames of several payloads, one after the other.
unfoldable pub frames : List Bytes → Bytes
unfolding frame
frames [] = []
frames (p ∷ payloads) = frame p ++ frames payloads

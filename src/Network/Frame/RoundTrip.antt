-- ===== src/Network/Frame/RoundTrip.antt =====
-- What is read from frames, whole or cut short.
use ctp_system.Prelude.{
  ℕ, zero, suc, ◌+◌, ◌%◌, ◌^◌, ◌≤◌, ◌<◌, ◌≡◌, refl, ◌⊎◌, inl, inr, Option-cases, sym, ap, ◌∙◌,
  subst, none, some, List, [], ◌∷◌, ◌++◌, ltb, length, length-append, All, arith, if◌then◌else◌,
}
use mathlib.Core.List.{append-nil, append_assoc}
use ctp_system.Network.Frame.{
  Bytes, to_be_bytes, from_be_bytes, frame, frames, read_exact, ReadEnd, read_length_failed,
  read_payload_failed, max_frame, Round, ends, payload, read_payload, read_frame, run_read_loop,
}

Round-cases :
    (r : Round) → ((e : ReadEnd) × (r ≡ ends e)) ⊎ ((p : Bytes × Bytes) × (r ≡ payload p.0 p.1))
Round-cases (ends e) = inl (e, refl)
Round-cases (payload buf rest) = inr ((buf, rest), refl)

from_be_bytes-to_be_bytes : (n : ℕ) → n < 2 ^ 32 → from_be_bytes (to_be_bytes n) ≡ n
unfolding from_be_bytes to_be_bytes
from_be_bytes-to_be_bytes n h = omega arith

read_exact-append :
    (front rest : Bytes) → read_exact (length front) (front ++ rest) ≡ some (front, rest)
unfolding read_exact
read_exact-append [] rest = refl
read_exact-append (b ∷ front) rest = rw (read_exact-append front rest) refl

read_exact_short : (n : ℕ) (bytes : Bytes) → length bytes < n → read_exact n bytes ≡ none
unfolding read_exact
read_exact_short zero bytes h = absurd (omega arith)
read_exact_short (suc n) [] h = refl
read_exact_short (suc n) (b ∷ bytes) h = rw (read_exact_short n bytes (omega arith)) refl

read_exact_shorter :
    (n : ℕ) (bytes front rest : Bytes)
    → read_exact n bytes ≡ some (front, rest)
    → length rest + n ≡ length bytes
unfolding read_exact
read_exact_shorter zero bytes front rest h = ground (arith, h)
read_exact_shorter (suc n) [] front rest h = ground (arith, h)
read_exact_shorter (suc n) (b ∷ bytes) front rest h = elim (Option-cases (read_exact n bytes)) [
  | inl e ↦ ground (arith, h, e)
  | inr ((front', rest'), e) ↦ ground (arith, h, e, read_exact_shorter n bytes front' rest' e)
]

read_frame_shorter :
    (bytes buf rest : Bytes) → read_frame bytes ≡ payload buf rest → length rest < length bytes
unfolding read_frame read_payload
read_frame_shorter bytes buf rest h = elim (Option-cases (read_exact 4 bytes)) [
  | inl e ↦ ground (arith, h, e)
  | inr ((len_buf, after), e) ↦ elim (Option-cases (read_exact (from_be_bytes len_buf) after)) [
    | inl e' ↦ ground (arith, h, e, e')
    | inr ((buf', rest'), e') ↦ ground (
      arith,
      h,
      e,
      e',
      read_exact_shorter 4 bytes len_buf after e,
      read_exact_shorter (from_be_bytes len_buf) after buf' rest' e',
    )
  ]
]

-- The read loop of any bytes that arrive ends within one round for each byte and one more: it never
-- waits for bytes that are already there, and every round takes at least one of them.
pub run_read_loop_ends :
    (fuel : ℕ) (bytes : Bytes)
    → length bytes < fuel
    → (r : List Bytes × ReadEnd) × (run_read_loop fuel bytes ≡ some r)
unfolding run_read_loop
run_read_loop_ends zero bytes h = absurd (omega arith)
run_read_loop_ends (suc fuel) bytes h = elim (Round-cases (read_frame bytes)) [
  | inl (e, q) ↦ (([], e), simp (q, run_read_loop))
  | inr ((buf, rest), q) ↦
      let shorter : length rest < fuel = omega (arith, read_frame_shorter bytes buf rest q) in
      let (r, p) = run_read_loop_ends fuel rest shorter in
      ((buf ∷ r.0, r.1), simp (q, p, run_read_loop))
]

read_payload-append :
    (buf rest : Bytes)
    → length buf ≤ max_frame
    → read_payload (length buf) (buf ++ rest) ≡ payload buf rest
unfolding read_payload
read_payload-append buf rest h = ground (arith, read_exact-append buf rest)

length_back :
    (buf : Bytes)
    → length buf ≤ max_frame
    → from_be_bytes (to_be_bytes (length buf % 2 ^ 32)) ≡ length buf
length_back buf h = from_be_bytes-to_be_bytes (length buf % 2 ^ 32) (omega arith) ∙ omega (arith, h)

read_frame-frame :
    (buf rest : Bytes) → length buf ≤ max_frame → read_frame (frame buf ++ rest) ≡ payload buf rest
unfolding read_frame frame to_be_bytes read_exact
read_frame-frame buf rest h =
    subst (λ len. read_payload len (buf ++ rest) ≡ payload buf rest) (sym (length_back buf h))
      (read_payload-append buf rest h)

-- A frame that is cut short.
frame_cut :
    (buf partial missing : Bytes) (x : ℕ)
    → length buf ≤ max_frame
    → frame buf ≡ partial ++ (x ∷ missing)
    → read_frame partial
      ≡ ends (if ltb (length partial) 4 then read_length_failed else read_payload_failed)
unfolding read_frame read_payload frame to_be_bytes from_be_bytes read_exact
frame_cut buf [] missing x h e = refl
frame_cut buf (a ∷ []) missing x h e = refl
frame_cut buf (a ∷ b ∷ []) missing x h e = refl
frame_cut buf (a ∷ b ∷ c ∷ []) missing x h e = refl
frame_cut buf (a ∷ b ∷ c ∷ d ∷ rest) missing x h e =
    let len : from_be_bytes (a ∷ b ∷ c ∷ d ∷ []) ≡ length buf =
      ground (arith, e, length_back buf h) in
    let short : length rest < length buf =
      ground (arith, e, ap length e, length-append rest (x ∷ missing)) in
    let fails : read_payload (length buf) rest ≡ ends read_payload_failed =
      ground (arith, h, read_exact_short (length buf) rest) in
    let cut : read_payload (from_be_bytes (a ∷ b ∷ c ∷ d ∷ [])) rest ≡ ends read_payload_failed =
      subst (λ n. read_payload n rest ≡ ends read_payload_failed) (sym len) fails in
    ground (arith, cut)

length-frame : (p : Bytes) → length (frame p) ≡ 4 + length p
unfolding frame to_be_bytes
length-frame p = omega arith

-- A sound peer: frames of payloads that each have at most 16 MiB, and of the next frame a part at
-- most. The handler gets exactly the payloads that arrived whole, in order, and the loop ends at the
-- part of a length or of a payload that is left.
pub run_read_loop-frames :
    (payloads : List Bytes) (next partial missing : Bytes) (x fuel : ℕ)
    → All (λ p. length p ≤ max_frame) payloads
    → length next ≤ max_frame
    → frame next ≡ partial ++ (x ∷ missing)
    → length (frames payloads ++ partial) < fuel
    → run_read_loop fuel (frames payloads ++ partial)
      ≡ some (payloads, if ltb (length partial) 4 then read_length_failed else read_payload_failed)
unfolding run_read_loop frames
run_read_loop-frames payloads next partial missing x zero fits h e enough = absurd (omega arith)
run_read_loop-frames [] next partial missing x (suc fuel) fits h e enough =
    simp (frame_cut next partial missing x h e, run_read_loop)
run_read_loop-frames (p ∷ payloads) next partial missing x (suc fuel) fits h e enough =
    let shorter : length (frames payloads ++ partial) < fuel = omega (
      arith,
      enough,
      ap length (append_assoc (frame p) (frames payloads) partial),
      length-append (frame p) (frames payloads ++ partial),
      length-frame p,
    ) in
    let rest = run_read_loop-frames payloads next partial missing x fuel fits.1 h e shorter in
    simp (
      append_assoc (frame p) (frames payloads) partial,
      read_frame-frame p (frames payloads ++ partial) fits.0,
      rest,
      run_read_loop,
    )

pub whole_frames :
    (payloads : List Bytes)
    → All (λ p. length p ≤ max_frame) payloads
    → run_read_loop (suc (length (frames payloads))) (frames payloads)
      ≡ some (payloads, read_length_failed)
unfolding frame to_be_bytes
whole_frames payloads fits =
    let whole : frames payloads ++ [] ≡ frames payloads = append-nil (frames payloads) in
    subst (λ bytes. run_read_loop (suc (length bytes)) bytes ≡ some (payloads, read_length_failed))
      whole
      (run_read_loop-frames payloads [] [] (0 ∷ 0 ∷ 0 ∷ []) 0 (suc (length (frames payloads ++ [])))
        fits (omega arith) refl (omega arith))

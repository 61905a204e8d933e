-- ===== src/Pgwire/Frames/Bounds.antt =====
-- Which length fields are accepted, and the body length that each of them gives.
use dbsec.Prelude.{
  ℕ, ℤ, pos, negsuc, Bytes, ◌+◌, ◌≤◌, ◌<◌, ◌^◌, ◌≡◌, ◌↔◌, [], ◌∷◌, arith, ok, IsBytes, from_be,
  i32_of,
}
use dbsec.Pgwire.{max_message_len, max_startup_message_len}
use dbsec.Pgwire.Frames.{startup_body_len, frame_body_len, startup_len, frame_len}

frame_len-eq-ok :
    (kind kind' v n : ℕ)
    → v < 2 ^ 32
    → (frame_len kind (i32_of v) ≡ ok (kind', n))
      ↔ ((kind' ≡ kind) × (v ≡ n + 4) × (n + 4 ≤ max_message_len))
unfolding frame_len
frame_len-eq-ok kind kind' v n h = ground arith

startup_len-eq-ok :
    (v n : ℕ)
    → v < 2 ^ 32
    → (startup_len (i32_of v) ≡ ok n) ↔ ((v ≡ n + 4) × (8 ≤ v) × (v ≤ max_startup_message_len))
unfolding startup_len
startup_len-eq-ok v n h = ground arith

from_be-lt : (a b c d : ℕ) → IsBytes (a ∷ b ∷ c ∷ d ∷ []) → from_be (a ∷ b ∷ c ∷ d ∷ []) < 2 ^ 32
from_be-lt a b c d h = omega arith

-- A frame header is accepted exactly when its four length bytes stand for a length that counts
-- itself and is at most 1 GiB; the result is then the type byte and the length without the field.
pub frame_body_len-eq-ok :
    (kind kind' a b c d n : ℕ)
    → IsBytes (a ∷ b ∷ c ∷ d ∷ [])
    → (frame_body_len kind (a ∷ b ∷ c ∷ d ∷ []) ≡ ok (kind', n))
      ↔ ((kind' ≡ kind) × (from_be (a ∷ b ∷ c ∷ d ∷ []) ≡ n + 4) × (n + 4 ≤ max_message_len))
unfolding frame_body_len
frame_body_len-eq-ok kind kind' a b c d n h =
    frame_len-eq-ok kind kind' (from_be (a ∷ b ∷ c ∷ d ∷ [])) n (from_be-lt a b c d h)

-- A startup length field is accepted exactly when it covers the eight header bytes and is at most
-- the pre-authentication limit.
pub startup_body_len-eq-ok :
    (a b c d n : ℕ)
    → IsBytes (a ∷ b ∷ c ∷ d ∷ [])
    → (startup_body_len (a ∷ b ∷ c ∷ d ∷ []) ≡ ok n) ↔ (
        (from_be (a ∷ b ∷ c ∷ d ∷ []) ≡ n + 4)
        × (8 ≤ from_be (a ∷ b ∷ c ∷ d ∷ []))
        × (from_be (a ∷ b ∷ c ∷ d ∷ []) ≤ max_startup_message_len))
unfolding startup_body_len
startup_body_len-eq-ok a b c d n h =
    startup_len-eq-ok (from_be (a ∷ b ∷ c ∷ d ∷ [])) n (from_be-lt a b c d h)

frame_len_kind : (t : ℕ) (len : ℤ) {kind n : ℕ} → frame_len t len ≡ ok (kind, n) → kind ≡ t
unfolding frame_len
frame_len_kind t (negsuc m) h = absurd (cc)
frame_len_kind t (pos m) h = ground (arith, h)

-- The type that is read is the header's.
pub frame_body_len_kind :
    (t : ℕ) (len_field : Bytes) {kind n : ℕ} → frame_body_len t len_field ≡ ok (kind, n) → kind ≡ t
unfolding frame_body_len
frame_body_len_kind t len_field h = frame_len_kind t (i32_of (from_be len_field)) h

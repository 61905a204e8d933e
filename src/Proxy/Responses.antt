-- ===== src/Proxy/Responses.antt =====
-- The frames that the proxy answers with itself: `error_response` and `frame` of
-- crates/proxy/src/encrypt/unprotected.rs.
pub mod Framed
mod Tests
use dbsec.Prelude.{
  ℕ, zero, suc, ◌+◌, ◌-◌, ◌^◌, Bool, true, ◌||◌, none, some, [], ◌∷◌, ◌++◌, leb, ltb, if◌then◌else◌,
  length, get_elem?, take, min, Bytes, codes, be32,
}
use dbsec.Pgwire.{frame_header_len}

abbrev pub max_error_message : ℕ
max_error_message = 512

abbrev pub refused_sqlstate : Bytes
refused_sqlstate = codes "42501"

-- `i32::try_from(len).unwrap_or(i32::MAX)`
unfoldable pub frame_length : ℕ → ℕ
frame_length len = if ltb len (2 ^ 31) then len else 2 ^ 31 - 1

unfoldable pub frame : ℕ → Bytes → Bytes
unfolding frame_length
frame msg_type body = msg_type ∷ (be32 (frame_length (frame_header_len - 1 + length body)) ++ body)

-- `str::is_char_boundary`: an index at the end, or at a byte that does not continue a character
unfoldable pub is_char_boundary : Bytes → ℕ → Bool
is_char_boundary message end = elim (get_elem? message end) [
  | none ↦ true
  | some b ↦ ltb b 128 || leb 192 b
]

-- `while !message.is_char_boundary(end) { end -= 1; }`, where index 0 is a boundary
unfoldable pub boundary_below : Bytes → ℕ → ℕ
unfolding is_char_boundary
boundary_below message zero = zero
boundary_below message (suc end) =
    let below = boundary_below message end in
    if is_char_boundary message (suc end) then suc end else below

unfoldable pub truncated : Bytes → Bytes
unfolding boundary_below
truncated message = take (boundary_below message (min max_error_message (length message))) message

-- a field's letter, its value and a terminator
unfoldable pub response_field : ℕ → Bytes → Bytes
response_field field value = field ∷ (value ++ 0 ∷ [])

unfoldable pub error_body : Bytes → Bytes
unfolding response_field truncated
error_body message =
    response_field b'S' (codes "ERROR")
    ++ (response_field b'V' (codes "ERROR")
        ++ (response_field b'C' refused_sqlstate
            ++ (response_field b'M' (truncated message) ++ 0 ∷ [])))

unfoldable pub error_response : Bytes → Bytes
unfolding frame error_body
error_response message = frame b'E' (error_body message)

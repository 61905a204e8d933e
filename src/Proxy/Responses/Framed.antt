-- ===== src/Proxy/Responses/Framed.antt =====
-- `error_response` of crates/proxy/src/encrypt/unprotected.rs: how long its frame is, and where its
-- message is cut.
use dbsec.Prelude.{
  ℕ, zero, suc, ◌+◌, ◌-◌, ◌/◌, ◌%◌, ◌^◌, ◌<◌, ◌≤◌, ◌≡◌, refl, ap, ◌∙◌, true, none, [], ◌∷◌, ◌++◌,
  ltb, length, length-append, length-take, get_elem?, take, min, ok, Bytes, IsBytes, be32,
  from_be-be32, ◌⊎◌, inl, inr, Bool-cases, arith,
}
use dbsec.Pgwire.{frame_header_len, max_message_len}
use dbsec.Pgwire.Frames.{frame_body_len}
use dbsec.Pgwire.Frames.Bounds.{frame_body_len-eq-ok}
use dbsec.Proxy.Responses.{
  max_error_message, frame, frame_length, is_char_boundary, boundary_below, truncated,
  response_field, error_body, error_response,
}

be32-IsBytes : (n : ℕ) → IsBytes (be32 n)
be32-IsBytes n = omega arith

-- A frame whose body is short enough for the protocol is read back as it was made.
pub frame-read :
    (kind : ℕ) (body : Bytes)
    → length body + 4 ≤ max_message_len
    → (frame kind body ≡ kind ∷ (be32 (length body + 4) ++ body))
      × (frame_body_len kind (be32 (length body + 4)) ≡ ok (kind, length body))
unfolding frame frame_length
frame-read kind body l =
    let size : frame_header_len - 1 + length body ≡ length body + 4 = omega arith in
    let small : ltb (length body + 4) (2 ^ 31) ≡ true = ground (arith, l) in
    let n = length body + 4 in
    (
      rw (frame, size, frame_length, small) refl,
      (frame_body_len-eq-ok kind kind (n / 2 ^ 24 % 256) (n / 2 ^ 16 % 256) (n / 2 ^ 8 % 256)
            (n % 256) (length body) (be32-IsBytes n)).1
          (refl, from_be-be32 n (omega (arith, l)), l),
    )

boundary_below-le : (message : Bytes) (n : ℕ) → boundary_below message n ≤ n
unfolding boundary_below
boundary_below-le message zero = omega arith
boundary_below-le message (suc n) = ground (arith, boundary_below-le message n)

boundary_below-boundary :
    (message : Bytes) (n : ℕ)
    → (is_char_boundary message (boundary_below message n) ≡ true) ⊎ (boundary_below message n ≡ 0)
unfolding boundary_below
boundary_below-boundary message zero = inr refl
boundary_below-boundary message (suc n) = elim (Bool-cases (is_char_boundary message (suc n))) [
  | inl e ↦ inl (rw (boundary_below, e) e)
  | inr e ↦ rw (boundary_below, e) (boundary_below-boundary message n)
]

get_elem?-length : (message : Bytes) → get_elem? message (length message) ≡ none
get_elem?-length [] = refl
get_elem?-length (b ∷ message) = get_elem?-length message

boundary_below-length : (message : Bytes) → boundary_below message (length message) ≡ length message
unfolding boundary_below is_char_boundary
boundary_below-length [] = refl
boundary_below-length (b ∷ message) =
    let whole : is_char_boundary (b ∷ message) (suc (length message)) ≡ true =
      rw (is_char_boundary, get_elem?-length message) refl in
    rw (boundary_below, whole) refl

length-truncated : (message : Bytes) → length (truncated message) ≤ max_error_message
unfolding truncated
length-truncated message =
    let n = min max_error_message (length message) in
    omega (arith, length-take (boundary_below message n) message, boundary_below-le message n)

pub length-error_body : (message : Bytes) → length (error_body message) + 4 ≤ max_message_len
unfolding error_body response_field
length-error_body message = omega (
  arith,
  length-truncated message,
  length-append (truncated message ++ 0 ∷ []) (0 ∷ []),
  length-append (truncated message) (0 ∷ []),
)

cut_or_whole :
    (message : Bytes)
    → (boundary_below message (min max_error_message (length message)) ≡ length message)
      ⊎ (max_error_message < length message)
cut_or_whole message = elim (Bool-cases (ltb max_error_message (length message))) [
  | inl e ↦ inr (ground (arith, e))
  | inr e ↦
      let fits : min max_error_message (length message) ≡ length message = ground (arith, e) in
      inl (ap (boundary_below message) fits ∙ boundary_below-length message)
]

-- An error response, whatever its message, is one frame of type E that a reader of frames accepts
-- with exactly the body behind its length field. Its message takes at most 512 bytes: it is cut in
-- front of a character, or to nothing, and one of at most 512 bytes is not cut.
pub error_response-framed :
    (message : Bytes)
    → (n : ℕ) × (error_response message
        ≡ b'E' ∷ (be32 (length (error_body message) + 4) ++ error_body message))
      × (frame_body_len b'E' (be32 (length (error_body message) + 4))
          ≡ ok (b'E', length (error_body message)))
      × (truncated message ≡ take n message)
      × (n ≤ max_error_message)
      × ((is_char_boundary message n ≡ true) ⊎ (n ≡ 0))
      × ((n ≡ length message) ⊎ (max_error_message < length message))
unfolding error_response truncated
error_response-framed message =
    let end = min max_error_message (length message) in
    let (framed, read) = frame-read b'E' (error_body message) (length-error_body message) in
    (
      boundary_below message end,
      framed,
      read,
      refl,
      omega (arith, boundary_below-le message end),
      boundary_below-boundary message end,
      cut_or_whole message,
    )

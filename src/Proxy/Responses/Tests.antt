-- ===== src/Proxy/Responses/Tests.antt =====
-- The error response at concrete messages.
use dbsec.Prelude.{
  ℕ, ◌+◌, ◌<◌, ◌≤◌, ◌≡◌, refl, true, [], ◌∷◌, ◌++◌, length, take, replicate, ok, Bytes, codes, be32,
  ◌⊎◌,
}
use dbsec.Pgwire.Frames.{frame_body_len}
use dbsec.Proxy.Responses.{
  max_error_message, is_char_boundary, boundary_below, truncated, error_body, error_response,
  response_field, frame, frame_length,
}
use dbsec.Proxy.Responses.Framed.{error_response-framed}

abbrev refused : Bytes
refused = codes "refused"

error_response-framed_example :
    (n : ℕ) × (error_response refused
      ≡ b'E' ∷ (be32 (length (error_body refused) + 4) ++ error_body refused))
    × (frame_body_len b'E' (be32 (length (error_body refused) + 4))
        ≡ ok (b'E', length (error_body refused)))
    × (truncated refused ≡ take n refused)
    × (n ≤ max_error_message)
    × ((is_char_boundary refused n ≡ true) ⊎ (n ≡ 0))
    × ((n ≡ length refused) ⊎ (max_error_message < length refused))
error_response-framed_example = error_response-framed refused

-- A character of two bytes that starts at byte 511 is left out.
cut_in_front : truncated (replicate 511 b'a' ++ 195 ∷ 169 ∷ codes "tail") ≡ replicate 511 b'a'
unfolding truncated boundary_below is_char_boundary
cut_in_front = refl

response_of_refused :
    error_response refused
    ≡ b'E' ∷ 0 ∷ 0 ∷ 0 ∷ 35 ∷ codes "SERROR"
      ++ 0 ∷ codes "VERROR"
      ++ 0 ∷ codes "C42501"
      ++ 0 ∷ codes "Mrefused"
      ++ 0 ∷ 0 ∷ []
unfolding error_response error_body truncated boundary_below is_char_boundary response_field frame
    frame_length
response_of_refused = refl

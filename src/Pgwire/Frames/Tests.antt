-- ===== src/Pgwire/Frames/Tests.antt =====
-- Runs of the header functions, and the theorems on them at concrete headers.
use dbsec.Prelude.{◌≡◌, refl, [], ◌∷◌, ok, err, pos, negsuc}
use dbsec.Pgwire.{bad_message_length, startup_message_too_large, max_startup_message_len}
use dbsec.Pgwire.Frames.{
  startup_body_len, frame_body_len, startup_kind, tls, gss_enc, cancel, protocol,
}

frame_runs :
    (frame_body_len b'Q' (0 ∷ 0 ∷ 0 ∷ 4 ∷ []) ≡ ok (b'Q', 0))
    × (frame_body_len b'Q' (0 ∷ 0 ∷ 0 ∷ 3 ∷ []) ≡ err (bad_message_length (pos 3)))
    × (frame_body_len b'Q' (255 ∷ 255 ∷ 255 ∷ 255 ∷ []) ≡ err (bad_message_length (negsuc 0)))
unfolding frame_body_len
frame_runs = (refl, refl, refl)

startup_runs :
    (startup_body_len (0 ∷ 0 ∷ 0 ∷ 8 ∷ []) ≡ ok 4)
    × (startup_body_len (0 ∷ 0 ∷ 64 ∷ 1 ∷ [])
        ≡ err (startup_message_too_large 16385 max_startup_message_len))
unfolding startup_body_len
startup_runs = (refl, refl)

kinds :
    (startup_kind (pos 80877103) ≡ tls)
    × (startup_kind (pos 80877104) ≡ gss_enc)
    × (startup_kind (pos 80877102) ≡ cancel)
    × (startup_kind (pos 196608) ≡ protocol (pos 196608))
unfolding startup_kind
kinds = (refl, refl, refl, refl)

-- ===== src/Pgwire/Frames.antt =====
-- `startup_kind`, `startup_body_len` and `frame_body_len`: what a frame header says.
pub mod Bounds
mod Tests
use dbsec.Prelude.{
  ℕ, ◌-◌, ◌||◌, ltb, ◌==◌, if◌then◌else◌, Result, ok, err, Bytes, from_be, ℤ, pos, negsuc, i32_of,
}
use dbsec.Pgwire.{
  Error, bad_message_length, startup_message_too_large, startup_header_len, max_message_len,
  max_startup_message_len,
}

abbrev pub ssl_request : ℕ
ssl_request = 80877103

abbrev pub gssenc_request : ℕ
gssenc_request = 80877104

abbrev pub cancel_request : ℕ
cancel_request = 80877102

pub data Startup : Type 0 where
  tls gss_enc cancel : Startup
  protocol : ℤ → Startup

startup_code : ℕ → Startup
startup_code code =
    if code == ssl_request
    then tls
    else if code == gssenc_request
    then gss_enc
    else if code == cancel_request
    then cancel
    else protocol (pos code)

-- The request codes are positive, so a negative code is a version.
unfoldable pub startup_kind : ℤ → Startup
unfolding startup_code
startup_kind (pos code) = startup_code code
startup_kind (negsuc n) = protocol (negsuc n)

-- the tests on the length, an i32
startup_len : ℤ → Result Error ℕ
startup_len (negsuc n) = err (bad_message_length (negsuc n))
startup_len (pos len) =
    if ltb len startup_header_len
    then err (bad_message_length (pos len))
    else if ltb max_startup_message_len len
    then err (startup_message_too_large len max_startup_message_len)
    else ok (len - 4)

unfoldable pub startup_body_len : Bytes → Result Error ℕ
unfolding startup_len
startup_body_len len_field = startup_len (i32_of (from_be len_field))

frame_len : ℕ → ℤ → Result Error (ℕ × ℕ)
frame_len kind (negsuc n) = err (bad_message_length (negsuc n))
frame_len kind (pos len) =
    if ltb len 4 || ltb max_message_len len
    then err (bad_message_length (pos len))
    else ok (kind, len - 4)

-- The header's first byte is the type, and the other four are the length field.
unfoldable pub frame_body_len : ℕ → Bytes → Result Error (ℕ × ℕ)
unfolding frame_len
frame_body_len kind len_field = frame_len kind (i32_of (from_be len_field))

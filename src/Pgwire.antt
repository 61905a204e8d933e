-- ===== src/Pgwire.antt =====
-- crates/pgwire/src/lib.rs: the PostgreSQL wire protocol. The errors and constants of the crate
-- are here; the frame headers are in `Frames`, the primitives that read and write a body in
-- `Cursor`, the row messages in `Rows`, and Parse and Bind in `Messages`.
pub mod Frames
pub mod Cursor
pub mod Rows
pub mod Messages
use dbsec.Prelude.{ℕ, ◌^◌, ◌*◌, ℤ}

-- The slices that the messages borrow are values here.
pub data Error : Type 0 where
  bad_message_length : ℤ → Error
  startup_message_too_large : ℕ → ℕ → Error
  wire_field_overflow : Error
  malformed_backend : Error

abbrev pub startup_header_len : ℕ
startup_header_len = 8

abbrev pub frame_header_len : ℕ
frame_header_len = 5

abbrev pub max_message_len : ℕ
max_message_len = 2 ^ 30

abbrev pub max_startup_message_len : ℕ
max_startup_message_len = 16 * 1024

abbrev pub max_pre_auth_message_len : ℕ
max_pre_auth_message_len = max_startup_message_len

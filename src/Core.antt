-- ===== src/Core.antt =====
-- crates/core: the dbsec library. Its errors are here. `Crypto` holds what it takes from other
-- crates; `Envelope`, `Cipher` and `Ciphers` model envelope.rs; `Transform`, `Fpe` and `Token`
-- model transform.rs; the other modules are named for their files.
pub mod Crypto
pub mod Envelope
pub mod Cipher
pub mod Ciphers
pub mod BlindIndex
pub mod Transform
pub mod Fpe
pub mod Token
pub mod Mask
pub mod Ident
pub mod RowKeys
pub mod Policy
pub mod Protector
pub mod Keys
pub mod Samples
mod Tests
use dbsec.Prelude.{ℕ, ℤ, Bytes}

-- Which field of a row-bound AAD is too long.
pub data AadField : Type 0 where
  column_context row_key : AadField

-- Why a row key cannot be canonicalised.
pub data RowKeyFault : Type 0 where
  is_null not_utf8 not_an_integer not_a_uuid unsupported_type : RowKeyFault
  wrong_width : ℕ → ℕ → RowKeyFault
  unknown_format : ℤ → RowKeyFault
  beyond_row : ℕ → ℕ → RowKeyFault
  type_changed : Bytes → Bytes → ℕ → ℕ → RowKeyFault

-- Why a policy is refused.
pub data PolicyFault : Type 0 where
  duplicate_column searchable_not_encrypt detokenize_not_fpe none_without_mask : PolicyFault
  identifier_too_long duplicate_table nothing_to_bind binds_nothing row_key_transformed :
      PolicyFault

-- `dbsec_core::Error`, with the text of a message replaced by what it reports.
pub data Error : Type 0 where
  malformed decrypt row_key_missing row_binding_downgraded encrypt fpe_domain fpe : Error
  row_binding_field_too_long : AadField → ℕ → Error
  row_key_type : RowKeyFault → Error
  key_exhausted unknown_key : Bytes → Error
  policy : PolicyFault → Error
  unknown_column row_key_required row_key_not_declared not_readable unprotected : Bytes → Error
  key_source key_file_read key_file_write key_file_parse entropy : Error

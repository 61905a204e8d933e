-- ===== src/Core/Envelope.antt =====
-- crates/core/src/envelope.rs: the envelope format and its associated data.
pub mod Aad
pub mod Layout
use dbsec.Prelude.{
  ℕ, ◌+◌, ◌^◌, ◌&&◌, ◌||◌, Bool, true, false, Option, none, some, ◌∷◌, [], ◌++◌, ltb, if◌then◌else◌,
  length, take, drop, Result, ok, err, ◌>>=◌, Bytes, be32, codes, starts_with,
}
use dbsec.Core.{Error, AadField, column_context, row_key, row_binding_field_too_long, malformed}

abbrev pub magic : Bytes
magic = codes "DBS2"

abbrev pub magic_v1 : Bytes
magic_v1 = codes "DBS1"

abbrev pub magic_v3 : Bytes
magic_v3 = codes "DBS3"

abbrev pub key_id_len : ℕ
key_id_len = 16

abbrev pub nonce_len : ℕ
nonce_len = 12

abbrev pub header_len : ℕ
header_len = length magic + key_id_len + nonce_len

abbrev pub KeyId : Type 0
KeyId = Bytes

-- The UTF-8 bytes of `schema.table.column`.
pub record CellContext : Type 0 where
  pub name : Bytes

pub record RowKey : Type 0 where
  pub canonical : Bytes

pub record Binding : Type 0 where
  pub context : CellContext
  pub row : Option RowKey
  pub strict : Bool

abbrev pub cell : CellContext → Binding
cell context = record { context = context; row = none; strict = false }

abbrev pub row : CellContext → RowKey → Binding
row context key = record { context = context; row = some key; strict = false }

abbrev pub row_strict : CellContext → RowKey → Binding
row_strict context key = record { context = context; row = some key; strict = true }

unfoldable pub aad : CellContext → Bytes → Bytes
aad context key_id = key_id ++ context.name

-- A length prefix; a length of 2^32 or more is refused, and not cut off.
prefix : AadField → Bytes → Result Error Bytes
prefix field bytes =
    if ltb (length bytes) (2 ^ 32)
    then ok (be32 (length bytes))
    else err (row_binding_field_too_long field (length bytes))

unfoldable pub aad_with_row : CellContext → Bytes → RowKey → Result Error Bytes
unfolding prefix
aad_with_row context key_id key = do
  column_len ← prefix column_context context.name
  key_len ← prefix row_key key.canonical
  ok (key_id ++ (column_len ++ (context.name ++ (key_len ++ key.canonical))))

unfoldable pub is_enveloped : Bytes → Bool
unfolding starts_with
is_enveloped stored =
    ltb header_len (length stored)
    && (starts_with stored magic || starts_with stored magic_v1 || starts_with stored magic_v3)

-- The key id in an envelope's header.
unfoldable pub key_id : Bytes → Result Error KeyId
unfolding is_enveloped
key_id stored =
    if is_enveloped stored then ok (take key_id_len (drop (length magic) stored)) else err malformed

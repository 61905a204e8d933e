-- ===== src/Core/Transform.antt =====
-- crates/core/src/transform.rs: how a value becomes its stored form and back. An
-- `EncryptTransform` shares its `Ciphers` with the other columns, so the cache is passed along.
pub mod Encrypting
pub mod Bare
mod Tests
use dbsec.Prelude.{
  ℕ, Bool, true, false, Option, none, some, if◌then◌else◌, Result, ok, err, ◌>>=◌, Bytes,
}
use dbsec.Core.{Error}
use dbsec.Core.Crypto.{Aead, Hmac}
use dbsec.Core.Envelope.{CellContext, RowKey, Binding, is_enveloped}
use dbsec.Core.Ciphers.{KeySource, Ciphers, seal, open_value}
use dbsec.Core.BlindIndex.{compute, prepend, split}

pub data WireForm : Type 0 where
  bytea text : WireForm

-- `index_key` is the OnceLock, filled on first use.
pub record EncryptTransform : Type 0 where
  pub context : CellContext
  pub index_key_name : Option Bytes
  pub index_key : Option Bytes
  pub strict : Bool

abbrev pub encrypt_transform : CellContext → Option Bytes → EncryptTransform
encrypt_transform context index_key = record {
  context = context;
  index_key_name = index_key;
  index_key = none;
  strict = false;
}

abbrev pub strict_row_binding : EncryptTransform → Bool → EncryptTransform
strict_row_binding t strict = record t { strict = strict }

unfoldable pub searchable : EncryptTransform → Bool
searchable t = elim t.index_key_name [ none ↦ false | some name ↦ true ]

fetch_index_key :
    Option Bytes
    → Option Bytes
    → EncryptTransform
    → KeySource
    → Result Error (Option Bytes × EncryptTransform)
fetch_index_key none cached t keys = ok (none, t)
fetch_index_key (some name) (some key) t keys = ok (some key, t)
fetch_index_key (some name) none t keys = do
  key ← keys.index_key name
  ok (some key, record t { index_key = some key })

unfoldable pub index_key_of :
    EncryptTransform → KeySource → Result Error (Option Bytes × EncryptTransform)
unfolding fetch_index_key
index_key_of t keys = fetch_index_key t.index_key_name t.index_key t keys

-- The bytes that follow an index, or the whole value, or nothing of this transform's.
unfoldable pub enveloped_part : Bytes → Option Bytes
enveloped_part stored = elim (split stored) [
  | some (index, enveloped) ↦ some enveloped
  | none ↦ if is_enveloped stored then some stored else none
]

module _ (mac : Hmac) where
  unfoldable pub blind_index :
      EncryptTransform → KeySource → Bytes → Result Error (Option Bytes × EncryptTransform)
  unfolding index_key_of
  blind_index t keys plaintext = do
    (key, t') ← index_key_of t keys
    ok (elim key [ none ↦ none | some k ↦ some (compute mac k plaintext) ], t')

  -- The term that a searchable column is compared with.
  unfoldable pub search_index :
      EncryptTransform → KeySource → Bytes → Result Error (Option Bytes × EncryptTransform)
  unfolding blind_index
  search_index t keys plaintext = blind_index t keys plaintext

  indexed :
      EncryptTransform
      → Bytes
      → Result Error (Option Bytes × EncryptTransform)
      → Result Error Bytes × EncryptTransform
  indexed t sealed (err e) = (err e, t)
  indexed t sealed (ok (none, t')) = (ok sealed, t')
  indexed t sealed (ok (some index, t')) = (ok (prepend index sealed), t')

  sealed_then :
      EncryptTransform
      → KeySource
      → Bytes
      → Result Error Bytes × Ciphers
      → Result Error Bytes × EncryptTransform × Ciphers
  sealed_then t keys plaintext (err e, s) = (err e, t, s)
  sealed_then t keys plaintext (ok sealed, s) =
      let (result, t') = indexed t sealed (blind_index t keys plaintext) in (result, t', s)

  module _ (gcm : Aead) where
    -- The write path: encrypt first, then look for the index.
    unfoldable pub seal_value :
        KeySource
        → KeySource
        → EncryptTransform
        → Bytes
        → Option RowKey
        → Bytes
        → Ciphers
        → Result Error Bytes × EncryptTransform × Ciphers
    unfolding sealed_then indexed blind_index
    seal_value keys later t plaintext row nonce s = sealed_then t keys plaintext (
        seal gcm keys later (record { context = t.context; row = row; strict = false }) plaintext
          nonce s)

module _ (gcm : Aead) where
  some_result : Result Error Bytes × Ciphers → Result Error (Option Bytes) × Ciphers
  some_result (r, s) = (do value ← r; ok (some value), s)

  -- The read path; `none` passes the stored bytes through.
  unfoldable pub open_stored :
      KeySource
      → EncryptTransform
      → Bytes
      → Option RowKey
      → Ciphers
      → Result Error (Option Bytes) × Ciphers
  unfolding some_result
  open_stored keys t stored row s = elim (enveloped_part stored) [
    | none ↦ (ok none, s)
    | some enveloped ↦ some_result (
        open_value gcm keys (record { context = t.context; row = row; strict = t.strict }) enveloped
          s)
  ]

-- ===== src/Core/Protector/Calls.antt =====
-- `Protector::seal`, `open`, `search_term` and `mask` of crates/core/src/protector.rs.
use dbsec.Prelude.{Option, none, some, if◌then◌else◌, Result, ok, err, ◌>>=◌, Bytes}
use dbsec.Core.{Error, not_readable}
use dbsec.Core.Crypto.{Aead, Hmac, Ff1}
use dbsec.Core.Envelope.{RowKey}
use dbsec.Core.Ciphers.{KeySource, Ciphers}
use dbsec.Core.Transform.{seal_value, open_stored, search_index}
use dbsec.Core.Fpe.{fpe_seal, fpe_open}
use dbsec.Core.Token.{token_seal, token_open}
use dbsec.Core.Mask.{Utf8, apply}
use dbsec.Core.Protector.{
  Transform, encrypting, pseudonymous, tokenising, Column, Protector, Opened, value,
  unprotected_value, find_column, check_row, store,
}

module _ (mac : Hmac) (gcm : Aead) (f : Ff1) (hex_encode : Bytes → Bytes) where
  unfoldable pub seal_transform :
      KeySource
      → KeySource
      → Transform
      → Bytes
      → Option RowKey
      → Bytes
      → Ciphers
      → Result Error Bytes × Transform × Ciphers
  seal_transform keys later (encrypting t) plaintext row nonce s =
      let (result, t', s') = seal_value mac gcm keys later t plaintext row nonce s in
      (result, encrypting t', s')
  seal_transform keys later (pseudonymous t) plaintext row nonce s =
      elim (fpe_seal f t keys plaintext) [
        | ok (stored, t') ↦ (ok stored, pseudonymous t', s)
        | err e ↦ (err e, pseudonymous t, s)
      ]
  seal_transform keys later (tokenising t) plaintext row nonce s =
      elim (token_seal mac hex_encode t keys plaintext) [
        | ok (stored, t') ↦ (ok stored, tokenising t', s)
        | err e ↦ (err e, tokenising t, s)
      ]

  unfoldable pub open_transform :
      KeySource
      → Transform
      → Bytes
      → Option RowKey
      → Ciphers
      → Result Error (Option Bytes) × Transform × Ciphers
  open_transform keys (encrypting t) stored row s =
      let (result, s') = open_stored gcm keys t stored row s in (result, encrypting t, s')
  open_transform keys (pseudonymous t) stored row s = elim (fpe_open f t keys stored) [
    | ok (plaintext, t') ↦ (ok plaintext, pseudonymous t', s)
    | err e ↦ (err e, pseudonymous t, s)
  ]
  open_transform keys (tokenising t) stored row s = (token_open t stored, tokenising t, s)

  unfoldable pub seal_entry :
      KeySource
      → KeySource
      → Protector
      → Bytes
      → Column
      → Option Transform
      → Bytes
      → Option RowKey
      → Bytes
      → Result Error Bytes × Protector
  seal_entry keys later p name entry none plaintext row nonce = (ok plaintext, p)
  seal_entry keys later p name entry (some t) plaintext row nonce =
      let (result, t', s') = seal_transform keys later t plaintext row nonce p.ciphers in
      (result, store p name entry t' s')

  unfoldable pub checked_seal :
      Result Error (Unit {0})
      → Result Error Bytes × Protector
      → Protector
      → Result Error Bytes × Protector
  checked_seal (err e) after p = (err e, p)
  checked_seal (ok done) after p = after

  unfoldable pub protector_seal :
      KeySource
      → KeySource
      → Protector
      → Bytes
      → Bytes
      → Option RowKey
      → Bytes
      → Result Error Bytes × Protector
  unfolding checked_seal seal_entry
  protector_seal keys later p name plaintext row nonce = elim (find_column p name) [
    | err e ↦ (err e, p)
    | ok entry ↦
        checked_seal (check_row entry.row_bound name row)
          (seal_entry keys later p name entry entry.spec.transform plaintext row nonce) p
  ]

  unfoldable pub opened : Bytes → Result Error (Option Bytes) → Result Error Opened
  opened stored (err e) = err e
  opened stored (ok none) = ok (unprotected_value stored)
  opened stored (ok (some plaintext)) = ok (value plaintext)

  unfoldable pub open_entry :
      KeySource
      → Protector
      → Bytes
      → Column
      → Option Transform
      → Bytes
      → Option RowKey
      → Result Error Opened × Protector
  unfolding opened
  open_entry keys p name entry none stored row = (ok (unprotected_value stored), p)
  open_entry keys p name entry (some t) stored row =
      let (result, t', s') = open_transform keys t stored row p.ciphers in
      if entry.spec.readable
      then (opened stored result, store p name entry t' s')
      else (err (not_readable name), p)

  unfoldable pub protector_open :
      KeySource → Protector → Bytes → Bytes → Option RowKey → Result Error Opened × Protector
  unfolding open_entry
  protector_open keys p name stored row = elim (find_column p name) [
    | err e ↦ (err e, p)
    | ok entry ↦ elim (check_row entry.row_bound name row) [
      | err e ↦ (err e, p)
      | ok done ↦ open_entry keys p name entry entry.spec.transform stored row
    ]
  ]

  search_transform : KeySource → Transform → Bytes → Result Error (Option Bytes) × Transform
  search_transform keys (encrypting t) plaintext = elim (search_index mac t keys plaintext) [
    | ok (term, t') ↦ (ok term, encrypting t')
    | err e ↦ (err e, encrypting t)
  ]
  search_transform keys t plaintext = (ok none, t)

  search_entry :
      KeySource
      → Protector
      → Bytes
      → Column
      → Option Transform
      → Bytes
      → Result Error (Option Bytes) × Protector
  unfolding search_transform
  search_entry keys p name entry none plaintext = (ok none, p)
  search_entry keys p name entry (some t) plaintext =
      let (term, t') = search_transform keys t plaintext in (term, store p name entry t' p.ciphers)

  pub search_term : KeySource → Protector → Bytes → Bytes → Result Error (Option Bytes) × Protector
  unfolding search_entry
  search_term keys p name plaintext = elim (find_column p name) [
    | err e ↦ (err e, p)
    | ok entry ↦ search_entry keys p name entry entry.spec.transform plaintext
  ]

pub protector_mask : Utf8 → Protector → Bytes → Bytes → Result Error Bytes
protector_mask utf8 p name plain = do
  entry ← find_column p name
  ok (elim entry.spec.mask [ none ↦ plain | some m ↦ apply utf8 m plain ])

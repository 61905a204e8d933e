-- ===== src/Core/Transform/Bare.antt =====
-- `EncryptTransform` of crates/core/src/transform.rs, for a column that is not searchable.
use dbsec.Prelude.{
  ◌<◌, ◌≡◌, sym, ◌∙◌, Option, none, some, length, drop, arith, true, false, Result, ok, err, Bytes,
  ltb→lt, le→leb,
}
use dbsec.Core.{Error}
use dbsec.Core.Crypto.{Aead, IsAead, Hmac}
use dbsec.Core.Envelope.{KeyId, RowKey, Binding, is_enveloped, nonce_len}
use dbsec.Core.Ciphers.{KeySource, Ciphers}
use dbsec.Core.Ciphers.Cached.{Agrees, IsCached}
use dbsec.Core.Ciphers.Sealing.{seal-SealedBy, key_id-seal_with, open_value-seal}
use dbsec.Core.BlindIndex.{split, blind_index_len}
use dbsec.Core.Transform.{
  EncryptTransform, index_key_of, fetch_index_key, blind_index, indexed, sealed_then, seal_value,
  enveloped_part, open_stored,
}
use dbsec.Core.Transform.Encrypting.{open_stored_part, is_enveloped-key_id}

module _ (mac : Hmac) where
  blind_index-bare :
      (t : EncryptTransform) (keys : KeySource) (plaintext : Bytes)
      → t.index_key_name ≡ none
      → blind_index mac t keys plaintext ≡ ok (none, t)
  unfolding blind_index index_key_of fetch_index_key
  blind_index-bare t keys plaintext n = rw n

  sealed_then-bare :
      (t : EncryptTransform) (keys : KeySource) (plaintext : Bytes)
      (r : Result Error Bytes × Ciphers) {stored : Bytes}
      → t.index_key_name ≡ none
      → (sealed_then mac t keys plaintext r).0 ≡ ok stored
      → r.0 ≡ ok stored
  unfolding sealed_then indexed
  sealed_then-bare t keys plaintext (err e, s) n h = ground arith
  sealed_then-bare t keys plaintext (ok sealed, s) {stored} n h =
      let computed : (indexed mac t sealed (blind_index mac t keys plaintext)).0 ≡ ok sealed =
        rw (blind_index-bare t keys plaintext n) in
      sym computed ∙ h

is_enveloped-long : (stored : Bytes) → is_enveloped stored ≡ true → 32 < length stored
unfolding is_enveloped
is_enveloped-long stored h = ltb→lt 32 (length stored) (ground arith)

split-bare :
    (stored : Bytes)
    → is_enveloped stored ≡ true
    → is_enveloped (drop blind_index_len stored) ≡ false
    → split stored ≡ none
unfolding split
split-bare stored h k =
    rw (le→leb 32 (length stored) (omega (arith, is_enveloped-long stored h)), k)

enveloped_part-bare :
    (stored : Bytes)
    → is_enveloped stored ≡ true
    → is_enveloped (drop blind_index_len stored) ≡ false
    → enveloped_part stored ≡ some stored
unfolding enveloped_part
enveloped_part-bare stored h k = rw (enveloped_part, split-bare stored h k, h)

module _ (mac : Hmac) (gcm : Aead) (law : IsAead gcm) (key_of : KeyId → Bytes) where
  -- A value that a column without an index sealed with a 12-byte nonce opens to its plaintext, in
  -- the same column and row, where the key sources give each id one key, that the caches hold,
  -- and the reading one has the key of every id, as long as the bytes behind the header of the
  -- envelope do not look like an envelope.
  pub open_stored-seal_value_bare :
      (keys later reading : KeySource) (t u : EncryptTransform) (plaintext : Bytes)
      (row : Option RowKey) (nonce : Bytes) (s r : Ciphers) {stored : Bytes}
      → Agrees key_of keys
      → Agrees key_of later
      → Agrees key_of reading
      → ((id : KeyId) → reading.key id ≡ ok (key_of id))
      → IsCached key_of s
      → IsCached key_of r
      → length nonce ≡ nonce_len
      → t.index_key_name ≡ none
      → u.context ≡ t.context
      → (seal_value mac gcm keys later t plaintext row nonce s).0 ≡ ok stored
      → is_enveloped (drop blind_index_len stored) ≡ false
      → (open_stored gcm reading u stored row r).0 ≡ ok (some plaintext)
  unfolding seal_value
  open_stored-seal_value_bare keys later reading t u plaintext row nonce s r {stored} g g' g'' has i
        j wn n same h no' =
      let e = sealed_then-bare mac t keys plaintext _ n h in
      let b : Binding = record { context = t.context; row = row; strict = false } in
      let by = seal-SealedBy gcm key_of keys later b plaintext nonce s g g' i e in
      let is_env = is_enveloped-key_id stored (
        key_id-seal_with gcm law key_of (key_of by.id) by.id nonce plaintext b by.id_width wn
          by.sealed) in
      let opens =
        open_value-seal gcm law key_of keys later reading b u.strict plaintext nonce s r g g' g''
          has i j wn e in
      rw (
        open_stored_part gcm reading u stored stored row r (enveloped_part-bare stored is_env no'),
        same,
        opens,
      )

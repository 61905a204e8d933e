-- ===== src/Core/Protector/Opens.antt =====
-- `Protector::seal` and `Protector::open` of crates/core/src/protector.rs, one after the other.
use dbsec.Prelude.{◌≡◌, refl, true, Option, some, Result, ok, err, Bytes, length, arith}
use dbsec.Core.{Error}
use dbsec.Core.Crypto.{Aead, IsAead, Hmac, Ff1}
use dbsec.Core.Envelope.{KeyId, RowKey, nonce_len}
use dbsec.Core.Ciphers.{KeySource}
use dbsec.Core.Ciphers.Cached.{Agrees, IsCached}
use dbsec.Core.Transform.{EncryptTransform, seal_value, open_stored}
use dbsec.Core.Transform.Encrypting.{open_stored-seal_value}
use dbsec.Core.Protector.Calls.{
  seal_transform, open_transform, seal_entry, checked_seal, protector_seal, opened, open_entry,
  protector_open,
}
use dbsec.Core.Protector.{encrypting, Column, Protector, value, find_column, check_row}

-- A column that encrypts with an index, found under a name.
pub record Finds (p : Protector) (name : Bytes) (t : EncryptTransform) : Type 0 where
  pub entry : Column
  pub found : find_column p name ≡ ok entry
  pub encrypts : entry.spec.transform ≡ some (encrypting t)
  pub readable : entry.spec.readable ≡ true

module _ (mac : Hmac) (gcm : Aead) (f : Ff1) (hex_encode : Bytes → Bytes) where
  checked_seal-eq-ok :
      (r : Result Error (Unit {0})) (after : Result Error Bytes × Protector) (p : Protector)
      {stored : Bytes}
      → (checked_seal mac gcm f hex_encode r after p).0 ≡ ok stored
      → (r ≡ ok tt) × (after.0 ≡ ok stored)
  unfolding checked_seal
  checked_seal-eq-ok (ok done) after p h = (refl, h)
  checked_seal-eq-ok (err e) after p h = ground arith

  -- a seal that succeeds passed the check of the row, and sealed with the column's transform
  protector_seal-eq-ok :
      (keys later : KeySource) (p : Protector) (name plaintext : Bytes) (row : Option RowKey)
      (nonce : Bytes) (t : EncryptTransform) {stored : Bytes} (c : Finds p name t)
      → (protector_seal mac gcm f hex_encode keys later p name plaintext row nonce).0 ≡ ok stored
      → (check_row c.entry.row_bound name row ≡ ok tt)
        × ((seal_value mac gcm keys later t plaintext row nonce p.ciphers).0 ≡ ok stored)
  unfolding protector_seal
  protector_seal-eq-ok keys later p name plaintext row nonce t c h =
      let h' = rw (protector_seal, c.found) at h in
      let (checked, done) = checked_seal-eq-ok (check_row c.entry.row_bound name row) _ p h' in
      (checked, unfold seal_entry seal_transform in rw (seal_entry, c.encrypts) at done)

  open_entry_lem :
      (keys : KeySource) (p : Protector) (name stored plaintext : Bytes) (row : Option RowKey)
      (t : EncryptTransform) (entry : Column)
      → entry.spec.readable ≡ true
      → (open_stored gcm keys t stored row p.ciphers).0 ≡ ok (some plaintext)
      → (open_entry mac gcm f hex_encode keys p name entry (some (encrypting t)) stored row).0
        ≡ ok (value plaintext)
  unfolding open_entry open_transform opened
  open_entry_lem keys p name stored plaintext row t entry readable e = rw (readable, e)

module _ (mac : Hmac) (gcm : Aead) (law : IsAead gcm) (f : Ff1) (hex_encode : Bytes → Bytes)
    (key_of : KeyId → Bytes) where
  -- A value that a protector sealed under the name of a searchable column opens to the plaintext,
  -- for the same row, through any protector that finds under that name a readable column of the
  -- same context and the same need of a row key, searchable or not, strict or not: where the key
  -- sources give each id one key, that the caches hold, and the reading one has the key of every
  -- id, and the nonce has 12 bytes.
  pub protector_open-protector_seal :
      (keys later reading : KeySource) (p q : Protector) (name plaintext : Bytes)
      (row : Option RowKey) (nonce : Bytes) (t u : EncryptTransform) {index stored : Bytes}
      (c : Finds p name t) (d : Finds q name u)
      → Agrees key_of keys
      → Agrees key_of later
      → Agrees key_of reading
      → ((id : KeyId) → reading.key id ≡ ok (key_of id))
      → IsCached key_of p.ciphers
      → IsCached key_of q.ciphers
      → length nonce ≡ nonce_len
      → t.index_key_name ≡ some index
      → u.context ≡ t.context
      → d.entry.row_bound ≡ c.entry.row_bound
      → (protector_seal mac gcm f hex_encode keys later p name plaintext row nonce).0 ≡ ok stored
      → (protector_open mac gcm f hex_encode reading q name stored row).0 ≡ ok (value plaintext)
  unfolding protector_open
  protector_open-protector_seal keys later reading p q name plaintext row nonce t u {index} {stored}
        c d g g' g'' has i j wn indexed same bound h =
      let (checked, sealed) =
        protector_seal-eq-ok mac gcm f hex_encode keys later p name plaintext row nonce t c h in
      let opens =
        open_stored-seal_value mac gcm law key_of keys later reading t u plaintext row nonce
          p.ciphers q.ciphers g g' g'' has i j wn indexed same sealed in
      rw (protector_open, d.found, bound, checked, d.encrypts)
        (open_entry_lem mac gcm f hex_encode reading q name stored plaintext row u d.entry
          d.readable opens)

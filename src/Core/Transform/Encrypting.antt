-- ===== src/Core/Transform/Encrypting.antt =====
-- `EncryptTransform` of crates/core/src/transform.rs, for a searchable column.
use dbsec.Prelude.{
  ◌≡◌, inl, inr, refl, sym, ◌∙◌, Option, none, some, length, take, arith, true, false, Result, ok,
  err, ◌>>=◌, >>=-eq-ok, Result-cases, Bool-cases, Bytes, take_of_length,
}
use dbsec.Core.{Error}
use dbsec.Core.Crypto.{Aead, IsAead, Hmac}
use dbsec.Core.Envelope.{KeyId, RowKey, Binding, is_enveloped, key_id, nonce_len}
use dbsec.Core.Ciphers.{KeySource, Ciphers, seal, open_value}
use dbsec.Core.Ciphers.Cached.{Agrees, IsCached}
use dbsec.Core.Ciphers.Sealing.{seal-SealedBy, key_id-seal_with, open_value-seal}
use dbsec.Core.BlindIndex.{compute, prepend, split-prepend, blind_index_len}
use dbsec.Core.Transform.{
  index_key_of, EncryptTransform, fetch_index_key, blind_index, search_index, indexed, sealed_then,
  seal_value, enveloped_part, open_stored,
}

pub is_enveloped-key_id :
    (stored : Bytes) {id : KeyId} → key_id stored ≡ ok id → is_enveloped stored ≡ true
unfolding key_id
is_enveloped-key_id stored h = elim (Bool-cases (is_enveloped stored)) [
  | inl yes' ↦ yes'
  | inr no' ↦ ground (arith, no')
]

pub enveloped_part-prepend :
    (index sealed : Bytes)
    → length index ≡ blind_index_len
    → is_enveloped sealed ≡ true
    → enveloped_part (prepend index sealed) ≡ some sealed
unfolding enveloped_part
enveloped_part-prepend index sealed w h = rw (enveloped_part, split-prepend index sealed w h)

-- once the envelope is found, opening is the cache's
pub open_stored_part :
    (gcm : Aead) (keys : KeySource) (t : EncryptTransform) (stored enveloped : Bytes)
    (row : Option RowKey) (s : Ciphers)
    → enveloped_part stored ≡ some enveloped
    → (open_stored gcm keys t stored row s).0 ≡ (
        (open_value gcm keys
          (record { context = t.context; row = row; strict = t.strict })
          enveloped
          s).0
        >>= λ value. ok (some value))
unfolding open_stored
open_stored_part gcm keys t stored enveloped row s h = rw (open_stored, h)

module _ (mac : Hmac) where
  fetched_name :
      (slot cached : Option Bytes) (t : EncryptTransform) (keys : KeySource) {name : Bytes}
      {key : Option Bytes} {t' : EncryptTransform}
      → slot ≡ some name
      → fetch_index_key slot cached t keys ≡ ok (key, t')
      → (k : Bytes) × (key ≡ some k)
  unfolding fetch_index_key
  fetched_name none cached t keys n h = ground arith
  fetched_name (some name) (some k) t keys n h = (k, ground arith)
  fetched_name (some name) none t keys n h =
      let (k, e, same) = >>=-eq-ok (keys.index_key name) _ h in (k, ground arith)

  index_of :
      (o : Option Bytes) (key : Option Bytes) (k plaintext : Bytes) (t t' : EncryptTransform)
      → key ≡ some k
      → ◌≡◌ {A = Result Error (Option Bytes × EncryptTransform)}
          (ok (elim key [ none ↦ none | some k' ↦ some (compute mac k' plaintext) ], t))
          (ok (o, t'))
      → o ≡ some (compute mac k plaintext)
  index_of o key k plaintext t t' e h = ground arith

  -- A searchable column has an index for every value, of the index's width.
  blind_index_searchable :
      (t : EncryptTransform) (keys : KeySource) (plaintext : Bytes) {name : Bytes}
      {o : Option Bytes} {t' : EncryptTransform}
      → t.index_key_name ≡ some name
      → blind_index mac t keys plaintext ≡ ok (o, t')
      → (index : Bytes) × (o ≡ some index) × (length index ≡ blind_index_len)
  unfolding blind_index compute
  blind_index_searchable t keys plaintext {name} {o} {t'} n h =
      let (p, e, h') = >>=-eq-ok (index_key_of t keys) _ h in
      let (k, is_k) = fetched_name t.index_key_name t.index_key t keys n e in
      (mac.hmac k plaintext, index_of o p.0 k plaintext p.1 t' is_k h', mac.length-hmac k plaintext)

  -- What a searchable column stores: the search term of the plaintext, then the envelope.
  indexed-eq-ok :
      (t : EncryptTransform) (sealed stored : Bytes) (o : Option Bytes) (t' : EncryptTransform)
      (index : Bytes)
      → o ≡ some index
      → (indexed mac t sealed (ok (o, t'))).0 ≡ ok stored
      → prepend index sealed ≡ stored
  unfolding indexed
  indexed-eq-ok t sealed stored none t' index e h = ground arith
  indexed-eq-ok t sealed stored (some i) t' index e h = ground arith

  pub record Searchable (t : EncryptTransform) (keys : KeySource) (plaintext stored sealed : Bytes)
      : Type 0 where
    pub index : Bytes
    pub after : EncryptTransform
    pub term : search_index mac t keys plaintext ≡ ok (some index, after)
    pub width : length index ≡ blind_index_len
    pub laid_out : stored ≡ prepend index sealed

  sealed_then-Searchable :
      (t : EncryptTransform) (keys : KeySource) (plaintext : Bytes)
      (r : Result Error Bytes × Ciphers) {name stored : Bytes}
      → t.index_key_name ≡ some name
      → (sealed_then mac t keys plaintext r).0 ≡ ok stored
      → (sealed : Bytes) × (r.0 ≡ ok sealed) × Searchable t keys plaintext stored sealed
  unfolding sealed_then indexed search_index
  sealed_then-Searchable t keys plaintext (err e, s) n h = ground arith
  sealed_then-Searchable t keys plaintext (ok sealed, s) {name} {stored} n h =
      elim (Result-cases (blind_index mac t keys plaintext)) [
        | inl ((o, t'), e) ↦
            let (index, is_index, w) = blind_index_searchable t keys plaintext n e in
            (
              sealed,
              refl,
              record {
                index = index;
                after = t';
                term = rw (e, is_index);
                width = w;
                laid_out = sym (indexed-eq-ok t sealed stored o t' index is_index (rw e at h));
              },
            )
        | inr (e, p) ↦ ground (arith, p)
      ]

module _ (mac : Hmac) (gcm : Aead) where
  seal_value-Searchable :
      (keys later : KeySource) (t : EncryptTransform) (plaintext : Bytes) (row : Option RowKey)
      (nonce : Bytes) (s : Ciphers) {name stored : Bytes}
      → t.index_key_name ≡ some name
      → (seal_value mac gcm keys later t plaintext row nonce s).0 ≡ ok stored
      → (sealed : Bytes) × ((seal gcm keys later
            (record { context = t.context; row = row; strict = false })
            plaintext
            nonce
            s).0
          ≡ ok sealed)
        × Searchable mac t keys plaintext stored sealed
  unfolding seal_value
  seal_value-Searchable keys later t plaintext row nonce s n h =
      sealed_then-Searchable mac t keys plaintext _ n h

  -- In a searchable column the first 32 bytes of what is stored are the search term of the
  -- plaintext, so the comparison of that prefix with the term finds the value.
  pub search_index-seal_value :
      (keys later : KeySource) (t : EncryptTransform) (plaintext : Bytes) (row : Option RowKey)
      (nonce : Bytes) (s : Ciphers) {name stored : Bytes}
      → t.index_key_name ≡ some name
      → (seal_value mac gcm keys later t plaintext row nonce s).0 ≡ ok stored
      → (t' : EncryptTransform) × (search_index mac t keys plaintext
          ≡ ok (some (take blind_index_len stored), t'))
  unfolding prepend
  search_index-seal_value keys later t plaintext row nonce s n h =
      let (sealed, _, q) = seal_value-Searchable keys later t plaintext row nonce s n h in
      (q.after, q.term ∙ rw (q.laid_out, take_of_length 32 q.index sealed q.width))

module _ (mac : Hmac) (gcm : Aead) (law : IsAead gcm) (key_of : KeyId → Bytes) where
  -- A value that a searchable column sealed with a 12-byte nonce opens to its plaintext, in the
  -- same column and row, whether or not the column is still searchable and whatever its
  -- strictness, where the key sources give each id one key, that the caches hold, and the reading
  -- one has the key of every id.
  pub open_stored-seal_value :
      (keys later reading : KeySource) (t u : EncryptTransform) (plaintext : Bytes)
      (row : Option RowKey) (nonce : Bytes) (s r : Ciphers) {name stored : Bytes}
      → Agrees key_of keys
      → Agrees key_of later
      → Agrees key_of reading
      → ((id : KeyId) → reading.key id ≡ ok (key_of id))
      → IsCached key_of s
      → IsCached key_of r
      → length nonce ≡ nonce_len
      → t.index_key_name ≡ some name
      → u.context ≡ t.context
      → (seal_value mac gcm keys later t plaintext row nonce s).0 ≡ ok stored
      → (open_stored gcm reading u stored row r).0 ≡ ok (some plaintext)
  open_stored-seal_value keys later reading t u plaintext row nonce s r {stored = stored} g g' g''
        has i j wn n same h =
      let (sealed, e, q) = seal_value-Searchable mac gcm keys later t plaintext row nonce s n h in
      let b : Binding = record { context = t.context; row = row; strict = false } in
      let by = seal-SealedBy gcm key_of keys later b plaintext nonce s g g' i e in
      let is_env = is_enveloped-key_id sealed (
        key_id-seal_with gcm law key_of (key_of by.id) by.id nonce plaintext b by.id_width wn
          by.sealed) in
      let opens =
        open_value-seal gcm law key_of keys later reading b u.strict plaintext nonce s r g g' g''
          has i j wn e in
      let part = rw (← q.laid_out) at (enveloped_part-prepend q.index sealed q.width is_env) in
      rw (open_stored_part gcm reading u stored sealed row r part, same, opens)

-- ===== src/Proxy/Rows/Columns.antt =====
-- The transforms that a session's columns hold, as the read path of crates/proxy/src/rows.rs calls
-- them: an `EncryptTransform` of crates/core/src/transform.rs is behind the trait `FieldTransform`.
use dbsec.Prelude.{
  Bool, Option, some, ◌==◌, ◌≡◌, if◌then◌else◌, Result, ok, err, Bytes, Option-cases, inl, inr,
}
use dbsec.Core
use dbsec.Core.Crypto.{Aead, Hmac}
use dbsec.Core.Envelope.{KeyId, CellContext, RowKey}
use dbsec.Core.Ciphers.{KeySource, Ciphers}
use dbsec.Core.Ciphers.Cached.{Agrees, IsCached, open_value-IsCached}
use dbsec.Core.Transform
use dbsec.Core.Transform.{EncryptTransform, bytea, searchable, seal_value, enveloped_part}
use dbsec.Proxy.Params.{TransformId}
use dbsec.Proxy.Rows.{FieldTransform}
use dbsec.Proxy.Rows.Kept.{Keeps}

-- Each transform at its address, the `Ciphers` that they share, and the next nonce.
pub record Store : Type 0 where
  pub transforms : TransformId → EncryptTransform
  pub ciphers : Ciphers
  pub nonce : Bytes

-- What the process has of other crates: the primitives, the key source, as it answers a first and a
-- later question, and the random bytes.
pub record Keyring : Type 0 where
  pub mac : Hmac
  pub gcm : Aead
  pub keys : KeySource
  pub later : KeySource
  pub next_nonce : Bytes → Bytes

put : TransformId → EncryptTransform → Store → Store
put at t s = record s { transforms = λ i. if i == at then t else s.transforms i }

searched :
    TransformId
    → Store
    → Result Core.Error (Option Bytes × EncryptTransform)
    → Result Core.Error (Option Bytes) × Store
unfolding put
searched at s (err e) = (err e, s)
searched at s (ok (index, t)) = (ok index, put at t s)

-- `impl FieldTransform for EncryptTransform`, of the transform at an address. Whether it supports
-- search is a constant of its construction.
unfoldable pub encrypting : Keyring → TransformId → Bool → FieldTransform Store
unfolding searched put
encrypting k at supports = record {
  wire = bytea;
  supports_search = supports;
  seal = λ plaintext row s.
      let (r, t, ciphers) =
        seal_value k.mac k.gcm k.keys k.later (s.transforms at) plaintext row s.nonce s.ciphers in
      (r, record (put at t s) { ciphers = ciphers; nonce = k.next_nonce s.nonce });
  open_stored = λ stored row s.
      let (r, ciphers) =
        Transform.open_stored k.gcm k.keys (s.transforms at) stored row s.ciphers in
      (r, record s { ciphers = ciphers });
  search_index = λ plaintext s.
      searched at s (Transform.search_index k.mac (s.transforms at) k.keys plaintext);
}

-- The caches hold the keys that their ids name, and each transform is for its own column.
pub record IsKeyed (key_of : KeyId → Bytes) (contexts : TransformId → CellContext) (s : Store)
    : Type 0 where
  pub cached : IsCached key_of s.ciphers
  pub in_place : (at : TransformId) → (s.transforms at).context ≡ contexts at

module _ (k : Keyring) (key_of : KeyId → Bytes) (contexts : TransformId → CellContext) where
  open_stored-IsCached :
      (t : EncryptTransform) (stored : Bytes) (row : Option RowKey) (s : Ciphers)
      → Agrees key_of k.keys
      → IsCached key_of s
      → IsCached key_of (Transform.open_stored k.gcm k.keys t stored row s).1
  unfolding Transform.open_stored
  open_stored-IsCached t stored row s g i = elim (Option-cases (enveloped_part stored)) [
    | inl e ↦ rw (Transform.open_stored, e) i
    | inr (part, e) ↦
        rw (Transform.open_stored, e)
          (open_value-IsCached key_of k.gcm k.keys
            (record { context = t.context; row = row; strict = t.strict }) part s g i)
  ]

  -- Opening a value of an encrypted column keeps what is known of the store.
  pub encrypting-Keeps :
      (at : TransformId) (supports : Bool)
      → Agrees key_of k.keys
      → Keeps (IsKeyed key_of contexts) (some (encrypting k at supports))
  unfolding encrypting
  encrypting-Keeps at supports g stored row s i = record {
    cached = open_stored-IsCached (s.transforms at) stored row s.ciphers g i.cached;
    in_place = i.in_place;
  }

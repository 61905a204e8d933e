-- ===== src/Core/Cipher.antt =====
-- `Cipher` of crates/core/src/envelope.rs: one DEK, with its budget of random nonces. The nonce
-- that `ThreadRng` draws is an argument, and so is AES-256-GCM.
pub mod Sealed
pub mod Authentic
pub mod Downgrade
pub mod Budget
use dbsec.Prelude.{
  ℕ, ◌+◌, ◌-◌, ◌%◌, ◌^◌, ◌&&◌, Bool, true, false, Option, none, some, ◌∷◌, [], ◌++◌, leb,
  if◌then◌else◌, length, take, drop, Result, ok, err, ◌>>=◌, ok_or, Bytes, starts_with,
}
use dbsec.Core.{Error}
use dbsec.Core.Crypto.{Aead}
use dbsec.Core.Envelope.{
  KeyId, CellContext, RowKey, Binding, magic, magic_v1, magic_v3, key_id_len, nonce_len, header_len,
  aad, aad_with_row, is_enveloped,
}

abbrev pub max_encryptions_per_key : ℕ
max_encryptions_per_key = 2 ^ 32

-- The key schedule is a function of the key. `used` is an AtomicU64.
pub record Cipher : Type 0 where
  pub key : Bytes
  pub used : ℕ
  pub budget : ℕ

unfoldable pub with_budget : Bytes → ℕ → Cipher
with_budget key budget = record { key = key; used = 0; budget = budget }

pub new : Bytes → Cipher
unfolding with_budget
new key = with_budget key max_encryptions_per_key

pub remaining : Cipher → ℕ
remaining c = c.budget - c.used

-- The version is the binding's shape.
unfoldable pub choose : CellContext → Option RowKey → KeyId → Result Error (Bytes × Bytes)
choose context none id = ok (magic, aad context id)
choose context (some key) id = do a ← aad_with_row context id key; ok (magic_v3, a)

unfoldable pub is_strict_row : Binding → Bool
is_strict_row b = elim b.row [ none ↦ false | some key ↦ b.strict ]

-- The associated data of a stored value, by its version.
unfoldable pub stored_aad : Binding → Bytes → KeyId → Result Error Bytes
unfolding is_strict_row starts_with
stored_aad b stored id =
    if starts_with stored magic_v1
    then (if is_strict_row b then err Error.row_binding_downgraded else ok id)
    else if starts_with stored magic_v3
    then (do key ← ok_or Error.row_key_missing b.row; aad_with_row b.context id key)
    else if is_strict_row b
    then err Error.row_binding_downgraded
    else ok (aad b.context id)

module _ (gcm : Aead) where
  open gcm use {gcm_encrypt, gcm_decrypt}

  -- what `encrypt` does once the invocation is charged
  unfoldable pub seal_with : Bytes → KeyId → Binding → Bytes → Bytes → Result Error Bytes
  unfolding choose
  seal_with key id b plaintext nonce = do
    (header, a) ← choose b.context b.row id
    ciphertext ← ok_or Error.encrypt (gcm_encrypt key nonce a plaintext)
    ok (header ++ (id ++ (nonce ++ ciphertext)))

  -- `fetch_add` charges the invocation whatever comes of it, and wraps around.
  unfoldable pub encrypt : Cipher → KeyId → Binding → Bytes → Bytes → Result Error Bytes × Cipher
  encrypt c id b plaintext nonce = (
    if leb c.budget c.used
        then err (Error.key_exhausted id)
        else seal_with c.key id b plaintext nonce,
    record c { used = (c.used + 1) % 2 ^ 64 },
  )

  unfoldable pub decrypt : Bytes → Binding → Bytes → Result Error Bytes
  unfolding stored_aad is_enveloped
  decrypt key b stored =
      if is_enveloped stored
      then (do
        let id = take key_id_len (drop (length magic) stored)
        let nonce = take nonce_len (drop (length magic + key_id_len) stored)
        a ← stored_aad b stored id
        ok_or Error.decrypt (gcm_decrypt key nonce a (drop header_len stored)))
      else err Error.malformed

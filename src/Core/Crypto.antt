-- ===== src/Core/Crypto.antt =====
-- What the library takes from the crates aes-gcm, hmac and sha2, as interfaces with their
-- documented laws. Keys, nonces, associated data and messages are byte strings.
pub mod Toy
use dbsec.Prelude.{ℕ, ◌+◌, ◌^◌, ◌≤◌, ◌<◌, ◌≡◌, Option, none, some, Bytes, length, All}

-- AES-256-GCM: key, nonce, associated data, then message or ciphertext with its tag.
pub record Aead : Type 0 where
  pub gcm_encrypt : Bytes → Bytes → Bytes → Bytes → Option Bytes
  pub gcm_decrypt : Bytes → Bytes → Bytes → Bytes → Option Bytes

-- Encryption is deterministic, decryption accepts exactly what encryption made, and the tag has
-- sixteen bytes.
pub record IsAead (a : Aead) : Type 0 where
  pub opens :
      (k n aad m : Bytes) {c : Bytes}
      → a.gcm_encrypt k n aad m ≡ some c
      → a.gcm_decrypt k n aad c ≡ some m
  pub authentic :
      (k n aad c : Bytes) {m : Bytes}
      → a.gcm_decrypt k n aad c ≡ some m
      → a.gcm_encrypt k n aad m ≡ some c
  pub tag_length :
      (k n aad m : Bytes) {c : Bytes} → a.gcm_encrypt k n aad m ≡ some c → length c ≡ length m + 16

-- The longest message and the longest associated data that aes-gcm takes.
abbrev pub gcm_limit : ℕ
gcm_limit = 2 ^ 36

-- Within its limits, and with a nonce of 12 bytes, encryption does not fail.
pub record IsTotal (a : Aead) : Type 0 where
  pub takes :
      (k n aad m : Bytes)
      → length n ≡ 12
      → length aad ≤ gcm_limit
      → length m ≤ gcm_limit
      → (c : Bytes) × (a.gcm_encrypt k n aad m ≡ some c)

-- HMAC-SHA256: key and message; the result has 32 bytes.
pub record Hmac : Type 0 where
  pub hmac : Bytes → Bytes → Bytes
  pub length-hmac : (k m : Bytes) → length (hmac k m) ≡ 32

-- FF1 with radix 10 under a 32-byte key and an empty tweak, on digit strings.
pub record Ff1 : Type 0 where
  pub ff1_encrypt : Bytes → Bytes → Option Bytes
  pub ff1_decrypt : Bytes → Bytes → Option Bytes

abbrev pub AreDigits : Bytes → Type 0
AreDigits = All (λ (d : ℕ). d < 10)

-- A permutation of the digit strings of one length.
pub record IsFf1 (f : Ff1) : Type 0 where
  pub inverts :
      (k digits : Bytes) {out : Bytes}
      → AreDigits digits
      → f.ff1_encrypt k digits ≡ some out
      → f.ff1_decrypt k out ≡ some digits
  pub keeps_digits :
      (k digits : Bytes) {out : Bytes}
      → AreDigits digits
      → f.ff1_encrypt k digits ≡ some out
      → AreDigits out × (length out ≡ length digits)

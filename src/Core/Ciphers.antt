-- ===== src/Core/Ciphers.antt =====
-- `Ciphers` of crates/core/src/envelope.rs: the cache of ciphers over a key source. Each operation
-- is a function of the cache's state, as it runs when no other thread takes the locks between its
-- own reads and writes. What the key source answers may change from one call to the next, so a
-- call takes the answers of that moment.
pub mod Cached
pub mod Sealing
pub mod Rollover
use dbsec.Prelude.{
  ℕ, Option, none, some, List, ◌∷◌, [], if◌then◌else◌, Result, ok, err, ◌>>=◌, Bytes, bytes_eq,
}
use dbsec.Core.{Error, unknown_key, key_exhausted}
use dbsec.Core.Crypto.{Aead}
use dbsec.Core.Envelope.{KeyId, Binding, key_id}
use dbsec.Core.Cipher.{Cipher, with_budget, encrypt, decrypt, max_encryptions_per_key}

-- The trait `KeySource` of keys.rs.
pub record KeySource : Type 0 where
  pub active_key : Result Error (KeyId × Bytes)
  pub key : KeyId → Result Error Bytes
  pub index_key : Bytes → Result Error Bytes

pub record Ciphers : Type 0 where
  pub budget : ℕ
  pub active : Option (KeyId × Cipher)
  pub by_id : List (KeyId × Cipher)

pub ciphers_with_budget : ℕ → Ciphers
ciphers_with_budget budget = record { budget = budget; active = none; by_id = [] }

unfoldable pub lookup : KeyId → List (KeyId × Cipher) → Option Cipher
lookup id [] = none
lookup id ((k, c) ∷ m) = if bytes_eq k id then some c else lookup id m

-- `active`: the slot, filled on first use.
unfoldable pub active_in :
    Option (KeyId × Cipher) → Ciphers → KeySource → Result Error (KeyId × Cipher × Ciphers)
active_in (some (id, c)) s keys = ok (id, c, s)
active_in none s keys = do
  (id, key) ← keys.active_key
  let c = with_budget key s.budget
  ok (id, c, record s { active = some (id, c) })

unfoldable pub active : Ciphers → KeySource → Result Error (KeyId × Cipher × Ciphers)
unfolding active_in with_budget
active s keys = active_in s.active s keys

-- the slot of `roll_active`, under the write lock: another thread may have rolled it already
roll_slot : Option (KeyId × Cipher) → KeyId → KeyId → Bytes → Ciphers → KeyId × Cipher × Ciphers
roll_slot slot spent id key s =
    let fresh = with_budget key s.budget in
    let rolled : KeyId × Cipher × Ciphers = (id, fresh, record s { active = some (id, fresh) }) in
    elim slot [
      | none ↦ rolled
      | some (current, c) ↦ if bytes_eq current spent then rolled else (current, c, s)
    ]

unfoldable pub roll_active : KeyId → Ciphers → KeySource → Result Error (KeyId × Cipher × Ciphers)
unfolding roll_slot with_budget
roll_active spent s keys = do
  (id, key) ← keys.active_key
  if bytes_eq id spent then err (key_exhausted spent) else ok (roll_slot s.active spent id key s)

unfoldable pub for_id : KeyId → Ciphers → KeySource → Result Error (Cipher × Ciphers)
for_id id s keys = elim (lookup id s.by_id) [
  | some c ↦ ok (c, s)
  | none ↦ do
    key ← keys.key id
    let c = with_budget key s.budget
    ok (c, record s { by_id = (id, c) ∷ s.by_id })
]

-- The active slot shares its cipher with whoever sealed under it, so the charge is seen there.
abbrev pub charge : KeyId → Cipher → Ciphers → Ciphers
charge id c s = record s { active = some (id, c) }

module _ (gcm : Aead) where
  -- `keys` answers the first question, and `later` the one that a spent budget asks.
  after_roll :
      Binding
      → Bytes
      → Bytes
      → Ciphers
      → Result Error (KeyId × Cipher × Ciphers)
      → Result Error Bytes × Ciphers
  after_roll b plaintext nonce s (err e) = (err e, s)
  after_roll b plaintext nonce s (ok (id, c, s')) =
      let (result, c') = encrypt gcm c id b plaintext nonce in (result, charge id c' s')

  after_first :
      KeyId
      → KeySource
      → Binding
      → Bytes
      → Bytes
      → Ciphers
      → Result Error Bytes
      → Result Error Bytes × Ciphers
  after_first id later b plaintext nonce s (err (key_exhausted k)) =
      after_roll b plaintext nonce s (roll_active id s later)
  after_first id later b plaintext nonce s result = (result, s)

  seal_in :
      KeySource
      → Binding
      → Bytes
      → Bytes
      → Ciphers
      → Result Error (KeyId × Cipher × Ciphers)
      → Result Error Bytes × Ciphers
  seal_in later b plaintext nonce s (err e) = (err e, s)
  seal_in later b plaintext nonce s (ok (id, c, s')) =
      let (result, c') = encrypt gcm c id b plaintext nonce in
      after_first id later b plaintext nonce (charge id c' s') result

  unfoldable pub seal :
      KeySource → KeySource → Binding → Bytes → Bytes → Ciphers → Result Error Bytes × Ciphers
  unfolding seal_in after_first after_roll active roll_active
  seal keys later b plaintext nonce s = seal_in later b plaintext nonce s (active s keys)

  open_in :
      Binding → Bytes → Ciphers → Result Error (Cipher × Ciphers) → Result Error Bytes × Ciphers
  open_in b stored s (err e) = (err e, s)
  open_in b stored s (ok (c, s')) = (decrypt gcm c.key b stored, s')

  unfoldable pub open_value : KeySource → Binding → Bytes → Ciphers → Result Error Bytes × Ciphers
  unfolding open_in for_id lookup with_budget
  open_value keys b stored s = open_in b stored s (do id ← key_id stored; for_id id s keys)

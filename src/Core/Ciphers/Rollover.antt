-- ===== src/Core/Ciphers/Rollover.antt =====
-- What the write path does when the active key's budget is spent.
use dbsec.Prelude.{
  ◌+◌, ◌%◌, ◌^◌, ◌<◌, ◌≤◌, ◌≡◌, ◌≢◌, inl, inr, ◌∙◌, some, arith, false, ok, err, Bool-cases, Bytes,
}
use dbsec.Core.Crypto.{Aead}
use dbsec.Core.Envelope.{KeyId, Binding}
use dbsec.Core.Cipher.{with_budget, Cipher, encrypt, seal_with}
use dbsec.Core.{key_exhausted}
use dbsec.Prelude.{bytes_eq_iff, bytes_eq}
use dbsec.Core.Ciphers.{
  KeySource, Ciphers, active, active_in, roll_active, roll_slot, charge, seal, seal_in, after_first,
  after_roll,
}
use dbsec.Prelude.{bytes_eq_refl, le→leb}

bytes_eq-ne : (a b : Bytes) → a ≢ b → bytes_eq a b ≡ false
bytes_eq-ne a b ne = elim (Bool-cases (bytes_eq a b)) [
  | inl same ↦ absurd (ne ((bytes_eq_iff a b).0 same))
  | inr other ↦ other
]

module _ (gcm : Aead) (keys later : KeySource) (b : Binding) (plaintext nonce : Bytes) (s : Ciphers)
    (id : KeyId) (c : Cipher) (slot : s.active ≡ some (id, c)) where
  spent_first :
      c.budget ≤ c.used
      → seal gcm keys later b plaintext nonce s
        ≡ after_roll gcm b plaintext nonce
            (charge id (record c { used = (c.used + 1) % 2 ^ 64 }) s)
            (roll_active id (charge id (record c { used = (c.used + 1) % 2 ^ 64 }) s) later)
  unfolding seal seal_in after_first encrypt active active_in
  spent_first h = rw (slot, le→leb c.budget c.used h)

  -- Where the budget of the active key is spent and the key source still offers that key, the
  -- write fails closed: nothing is encrypted, and the spent cipher stays in the slot.
  pub seal_exhausted :
      {k : Bytes}
      → c.budget ≤ c.used
      → later.active_key ≡ ok (id, k)
      → seal gcm keys later b plaintext nonce s ≡ (
        err (key_exhausted id),
        record s { active = some (id, record c { used = (c.used + 1) % 2 ^ 64 }) },
      )
  unfolding roll_active after_roll
  seal_exhausted h e = spent_first h ∙ rw (roll_active, e, bytes_eq_refl id)

  -- Where the budget of the active key is spent and the key source then offers another key, the
  -- value is sealed under that key, by a fresh cipher with the full budget, which is not 0, and
  -- which takes the slot with one invocation charged.
  pub seal_rolls :
      (id' k : Bytes)
      → c.budget ≤ c.used
      → 0 < s.budget
      → later.active_key ≡ ok (id', k)
      → id' ≢ id
      → seal gcm keys later b plaintext nonce s ≡ (
        seal_with gcm k id' b plaintext nonce,
        record s { active = some (id', record { key = k; used = 1; budget = s.budget }) },
      )
  unfolding roll_active roll_slot after_roll encrypt with_budget
  seal_rolls id' k h pos e ne =
      spent_first h ∙ rw (roll_active, e, bytes_eq-ne id' id ne, bytes_eq_refl id) (ground arith)

-- ===== src/Core/Ciphers/Sealing.antt =====
-- Sealing and opening through the cache.
use dbsec.Prelude.{
  ◌≡◌, inl, inr, refl, length, arith, Bool, Result, ok, err, Result-cases, Option-cases, Bytes,
}
use dbsec.Core.{Error}
use dbsec.Core.Crypto.{Aead, IsAead}
use dbsec.Core.Envelope.{KeyId, Binding, key_id_len, nonce_len, key_id}
use dbsec.Core.Envelope.Layout.{HasWidths, id_of, is_enveloped_lem}
use dbsec.Core.Cipher.{Cipher, encrypt, decrypt, seal_with}
use dbsec.Core.{key_exhausted}
use dbsec.Core.Ciphers.{
  KeySource, Ciphers, lookup, active, active_in, roll_active, for_id, charge, seal, seal_in,
  after_first, after_roll, open_value, open_in,
}
use dbsec.Core.Cipher.Sealed.{encrypt-eq-ok, seal_with-eq-ok, decrypt-seal_with, choose-IsMagic}
use dbsec.Core.Ciphers.Cached.{
  Agrees, Holds, IsCached, Answer, Found, active_in-Answer, roll_active-Answer, for_id-Found,
}
use dbsec.Core.Envelope.Layout.{id_of}

-- A value sealed by the cache was sealed under some id, by the key that the id names.
pub record SealedBy (gcm : Aead) (key_of : KeyId → Bytes) (b : Binding)
    (plaintext nonce stored : Bytes) : Type 0 where
  pub id : KeyId
  pub id_width : length id ≡ key_id_len
  pub sealed : seal_with gcm (key_of id) id b plaintext nonce ≡ ok stored

module _ (gcm : Aead) (key_of : KeyId → Bytes) where
  abbrev Outcome : Binding → Bytes → Bytes → Result Error Bytes × Ciphers → Type 0
  Outcome b plaintext nonce (ok stored, s) =
      SealedBy gcm key_of b plaintext nonce stored × IsCached key_of s
  Outcome b plaintext nonce (err e, s) = IsCached key_of s

  Outcome-IsCached :
      (b : Binding) (plaintext nonce : Bytes) (o : Result Error Bytes × Ciphers)
      → Outcome b plaintext nonce o
      → IsCached key_of o.1
  Outcome-IsCached b plaintext nonce (ok stored, s) h = h.1
  Outcome-IsCached b plaintext nonce (err e, s) h = h

  Outcome-SealedBy :
      (b : Binding) (plaintext nonce : Bytes) (o : Result Error Bytes × Ciphers) {stored : Bytes}
      → Outcome b plaintext nonce o
      → o.0 ≡ ok stored
      → SealedBy gcm key_of b plaintext nonce stored
  Outcome-SealedBy b plaintext nonce (ok stored', s) {stored} h e =
      let same : stored' ≡ stored = ground arith in rw (← same) h.0
  Outcome-SealedBy b plaintext nonce (err e, s) h p = ground arith

  sealed-Outcome :
      (id : KeyId) (b : Binding) (plaintext nonce : Bytes) (s : Ciphers) (r : Result Error Bytes)
      → length id ≡ key_id_len
      → IsCached key_of s
      → ((stored : Bytes)
          → r ≡ ok stored
          → seal_with gcm (key_of id) id b plaintext nonce ≡ ok stored)
      → Outcome b plaintext nonce (r, s)
  sealed-Outcome id b plaintext nonce s (ok stored) w i h =
      (record { id = id; id_width = w; sealed = h stored refl }, i)
  sealed-Outcome id b plaintext nonce s (err e) w i h = i

  encrypt-Outcome :
      (id : KeyId) (c : Cipher) (b : Binding) (plaintext nonce : Bytes) (s : Ciphers)
      → Holds key_of (id, c)
      → IsCached key_of s
      → Outcome b plaintext nonce (
        (encrypt gcm c id b plaintext nonce).0,
        charge id (encrypt gcm c id b plaintext nonce).1 s,
      )
  unfolding encrypt
  encrypt-Outcome id c b plaintext nonce s h i =
      sealed-Outcome id b plaintext nonce _ _ h.1
        (record { active_holds = h; by_id_hold = i.by_id_hold })
        (λ stored e. rw (← h.0) (encrypt-eq-ok gcm c id b plaintext nonce e))

  after_roll-Outcome :
      (b : Binding) (plaintext nonce : Bytes) (s : Ciphers)
      (r : Result Error (KeyId × Cipher × Ciphers))
      → IsCached key_of s
      → Answer key_of r
      → Outcome b plaintext nonce (after_roll gcm b plaintext nonce s r)
  unfolding after_roll
  after_roll-Outcome b plaintext nonce s (err e) i h = i
  after_roll-Outcome b plaintext nonce s (ok (id, c, s')) i h =
      encrypt-Outcome id c b plaintext nonce s' h.0 h.1

  after_first-Outcome :
      (id : KeyId) (later : KeySource) (b : Binding) (plaintext nonce : Bytes) (s : Ciphers)
      (r : Result Error Bytes)
      → Agrees key_of later
      → Outcome b plaintext nonce (r, s)
      → Outcome b plaintext nonce (after_first gcm id later b plaintext nonce s r)
  unfolding after_first
  after_first-Outcome id later b plaintext nonce s (ok stored) g h = h
  after_first-Outcome id later b plaintext nonce s (err (key_exhausted k)) g h =
      after_roll-Outcome b plaintext nonce s (roll_active id s later) h
        (roll_active-Answer key_of id s later g h)
  after_first-Outcome id later b plaintext nonce s (err e) g h = h

  seal_in-Outcome :
      (later : KeySource) (b : Binding) (plaintext nonce : Bytes) (s : Ciphers)
      (r : Result Error (KeyId × Cipher × Ciphers))
      → Agrees key_of later
      → IsCached key_of s
      → Answer key_of r
      → Outcome b plaintext nonce (seal_in gcm later b plaintext nonce s r)
  unfolding seal_in
  seal_in-Outcome later b plaintext nonce s (err e) g i h = i
  seal_in-Outcome later b plaintext nonce s (ok (id, c, s')) g i h =
      after_first-Outcome id later b plaintext nonce _ _ g
        (encrypt-Outcome id c b plaintext nonce s' h.0 h.1)

  seal-Outcome :
      (keys later : KeySource) (b : Binding) (plaintext nonce : Bytes) (s : Ciphers)
      → Agrees key_of keys
      → Agrees key_of later
      → IsCached key_of s
      → Outcome b plaintext nonce (seal gcm keys later b plaintext nonce s)
  unfolding seal active
  seal-Outcome keys later b plaintext nonce s g g' i =
      seal_in-Outcome later b plaintext nonce s (active_in s.active s keys) g' i
        (active_in-Answer key_of s.active s keys g i.active_holds i)

  -- Where the key source gives each id one key, every cipher of the cache holds the key that its
  -- id names, and sealing keeps this, whether it succeeds or fails.
  pub seal-IsCached :
      (keys later : KeySource) (b : Binding) (plaintext nonce : Bytes) (s : Ciphers)
      → Agrees key_of keys
      → Agrees key_of later
      → IsCached key_of s
      → IsCached key_of (seal gcm keys later b plaintext nonce s).1
  seal-IsCached keys later b plaintext nonce s g g' i =
      Outcome-IsCached b plaintext nonce _ (seal-Outcome keys later b plaintext nonce s g g' i)

  pub seal-SealedBy :
      (keys later : KeySource) (b : Binding) (plaintext nonce : Bytes) (s : Ciphers)
      {stored : Bytes}
      → Agrees key_of keys
      → Agrees key_of later
      → IsCached key_of s
      → (seal gcm keys later b plaintext nonce s).0 ≡ ok stored
      → SealedBy gcm key_of b plaintext nonce stored
  seal-SealedBy keys later b plaintext nonce s g g' i h =
      Outcome-SealedBy b plaintext nonce _ (seal-Outcome keys later b plaintext nonce s g g' i) h

  open_in-IsCached :
      (b : Binding) (stored : Bytes) (s : Ciphers) (id : KeyId)
      (r : Result Error (Cipher × Ciphers))
      → IsCached key_of s
      → Found key_of r id
      → IsCached key_of (open_in gcm b stored s r).1
  unfolding open_in
  open_in-IsCached b stored s id (ok (c, s')) i h = h.1
  open_in-IsCached b stored s id (err e) i h = i

  -- Opening keeps it too.
  pub open_value-IsCached :
      (keys : KeySource) (b : Binding) (stored : Bytes) (s : Ciphers)
      → Agrees key_of keys
      → IsCached key_of s
      → IsCached key_of (open_value gcm keys b stored s).1
  unfolding open_value open_in
  open_value-IsCached keys b stored s g i = elim (Result-cases (key_id stored)) [
    | inl (id, e) ↦
        rw (open_value, e)
          (open_in-IsCached b stored s id (for_id id s keys) i (for_id-Found key_of id s keys g i))
    | inr (e, p) ↦ rw (open_value, p) i
  ]

for_id_total :
    (id : KeyId) (s : Ciphers) (keys : KeySource) {k : Bytes}
    → keys.key id ≡ ok k
    → (c : Cipher) × (s' : Ciphers) × (for_id id s keys ≡ ok (c, s'))
unfolding for_id
for_id_total id s keys {k} h = elim (Option-cases (lookup id s.by_id)) [
  | inl miss ↦ rw (for_id, miss, h) (_, _, refl)
  | inr (c, hit) ↦ (c, s, rw (for_id, hit))
]

module _ (gcm : Aead) (law : IsAead gcm) (key_of : KeyId → Bytes) where
  pub key_id-seal_with :
      (key id nonce plaintext : Bytes) (b : Binding) {stored : Bytes}
      → length id ≡ key_id_len
      → length nonce ≡ nonce_len
      → seal_with gcm key id b plaintext nonce ≡ ok stored
      → key_id stored ≡ ok id
  unfolding key_id
  key_id-seal_with key id nonce plaintext b wi wn h =
      let p = seal_with-eq-ok gcm key id nonce plaintext b.context b.row b.strict h in
      let m = choose-IsMagic b.context b.row id p.chosen in
      let w : HasWidths id nonce p.ciphertext = record {
        id_width = wi;
        nonce_width = wn;
        ciphertext_pos = omega (arith, law.tag_length key nonce p.associated plaintext p.encrypted);
      } in
      rw (
        p.laid_out,
        is_enveloped_lem p.header id nonce p.ciphertext m w,
        id_of p.header id nonce p.ciphertext m w,
      )

  open_in-Found :
      (b : Binding) (strict : Bool) (plaintext stored : Bytes) (s : Ciphers) (id : KeyId)
      (r : Result Error (Cipher × Ciphers))
      → decrypt gcm (key_of id) (record b { strict = strict }) stored ≡ ok plaintext
      → Found key_of r id
      → (c : Cipher) (s' : Ciphers) → r ≡ ok (c, s')
      → (open_in gcm (record b { strict = strict }) stored s r).0 ≡ ok plaintext
  unfolding open_in
  open_in-Found b strict plaintext stored s id (ok (c, s')) d h c' s'' e = rw h.0 d
  open_in-Found b strict plaintext stored s id (err e) d h c' s'' p = ground arith

  -- A value sealed through the cache with a 12-byte nonce, with any rollover on the way, opens
  -- through any state of any cache, in the same cell and strict or not, where the key sources
  -- give each id one key, that the caches hold, and the reading one has the key of every id.
  pub open_value-seal :
      (keys later reading : KeySource) (b : Binding) (strict : Bool) (plaintext nonce : Bytes)
      (s t : Ciphers) {stored : Bytes}
      → Agrees key_of keys
      → Agrees key_of later
      → Agrees key_of reading
      → ((id : KeyId) → reading.key id ≡ ok (key_of id))
      → IsCached key_of s
      → IsCached key_of t
      → length nonce ≡ nonce_len
      → (seal gcm keys later b plaintext nonce s).0 ≡ ok stored
      → (open_value gcm reading (record b { strict = strict }) stored t).0 ≡ ok plaintext
  unfolding open_value
  open_value-seal keys later reading b strict plaintext nonce s t {stored} g g' g'' has i j wn h =
      let by = seal-SealedBy gcm key_of keys later b plaintext nonce s g g' i h in
      let opens =
        decrypt-seal_with gcm law (key_of by.id) by.id nonce plaintext b strict by.id_width wn
          by.sealed in
      let found = for_id-Found key_of by.id t reading g'' j in
      let (c, t', e) = for_id_total by.id t reading (has by.id) in
      rw (key_id-seal_with (key_of by.id) by.id nonce plaintext b by.id_width wn by.sealed) (
        open_in-Found b strict plaintext stored t by.id (for_id by.id t reading) opens found c t' e)

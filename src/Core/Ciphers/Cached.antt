-- ===== src/Core/Ciphers/Cached.antt =====
-- The invariant of the cache: each cipher holds the key that its id names.
use dbsec.Prelude.{
  ◌≡◌, inl, inr, ap, ◌∙◌, Option, none, some, List, ◌∷◌, [], length, arith, Result, ok, err,
  Result-cases, Option-cases, Bool-cases, Bytes,
}
use dbsec.Core.{Error}
use dbsec.Core.Crypto.{Aead}
use dbsec.Core.Envelope.{KeyId, key_id_len, Binding, key_id}
use dbsec.Core.Cipher.{with_budget, Cipher}
use dbsec.Prelude.{All, bytes_eq_iff, bytes_eq}
use dbsec.Core.Ciphers.{
  KeySource, Ciphers, lookup, active_in, roll_active, roll_slot, for_id, open_in, open_value,
}

-- The key source gives each id one key, `key_of`, and ids have their width.
pub record Agrees (key_of : KeyId → Bytes) (keys : KeySource) : Type 0 where
  pub active_key :
      (id : KeyId) (k : Bytes)
      → keys.active_key ≡ ok (id, k)
      → (k ≡ key_of id) × (length id ≡ key_id_len)
  pub key : (id : KeyId) (k : Bytes) → keys.key id ≡ ok k → k ≡ key_of id

module _ (key_of : KeyId → Bytes) where
  abbrev pub Holds : KeyId × Cipher → Type 0
  Holds (id, c) = (c.key ≡ key_of id) × (length id ≡ key_id_len)

  abbrev pub HoldsKey : KeyId × Cipher → Type 0
  HoldsKey (id, c) = c.key ≡ key_of id

  abbrev pub SlotHolds : Option (KeyId × Cipher) → Type 0
  SlotHolds none = Unit
  SlotHolds (some p) = Holds p

  pub record IsCached (s : Ciphers) : Type 0 where
    pub active_holds : SlotHolds s.active
    pub by_id_hold : All HoldsKey s.by_id

  -- what `active` and `roll_active` return
  abbrev pub Answer : Result Error (KeyId × Cipher × Ciphers) → Type 0
  Answer (ok (id, c, s)) = Holds (id, c) × IsCached s
  Answer (err e) = Unit

  abbrev pub Found : Result Error (Cipher × Ciphers) → KeyId → Type 0
  Found (ok (c, s)) id = (c.key ≡ key_of id) × IsCached s
  Found (err e) id = Unit

  pub active_in-Answer :
      (slot : Option (KeyId × Cipher)) (s : Ciphers) (keys : KeySource)
      → Agrees key_of keys
      → SlotHolds slot
      → IsCached s
      → Answer (active_in slot s keys)
  unfolding active_in with_budget
  active_in-Answer (some (id, c)) s keys g h i = (h, i)
  active_in-Answer none s keys g h i = elim (Result-cases keys.active_key) [
    | inl ((id, k), e) ↦
        let held = g.active_key id k e in
        rw (active_in, e) (held, record { active_holds = held; by_id_hold = i.by_id_hold })
    | inr (e, p) ↦ rw (active_in, p) tt
  ]

  roll_slot-Answer :
      (slot : Option (KeyId × Cipher)) (spent id k : Bytes) (s : Ciphers)
      → (k ≡ key_of id) × (length id ≡ key_id_len)
      → SlotHolds slot
      → IsCached s
      → Answer (ok (roll_slot slot spent id k s))
  unfolding roll_slot with_budget
  roll_slot-Answer none spent id k s held h i =
      (held, record { active_holds = held; by_id_hold = i.by_id_hold })
  roll_slot-Answer (some (current, c)) spent id k s held h i =
      elim (Bool-cases (bytes_eq current spent)) [
        | inl same ↦
            rw (roll_slot, same) (held, record { active_holds = held; by_id_hold = i.by_id_hold })
        | inr other ↦ rw (roll_slot, other) (h, i)
      ]

  pub roll_active-Answer :
      (spent : KeyId) (s : Ciphers) (keys : KeySource)
      → Agrees key_of keys
      → IsCached s
      → Answer (roll_active spent s keys)
  unfolding roll_active
  roll_active-Answer spent s keys g i = elim (Result-cases keys.active_key) [
    | inl ((id, k), e) ↦ elim (Bool-cases (bytes_eq id spent)) [
      | inl same ↦ rw (roll_active, e, same) tt
      | inr other ↦
          rw (roll_active, e, other)
            (roll_slot-Answer s.active spent id k s (g.active_key id k e) i.active_holds i)
    ]
    | inr (e, p) ↦ rw (roll_active, p) tt
  ]

  lookup-HoldsKey :
      (id : KeyId) (m : List (KeyId × Cipher)) {c : Cipher}
      → All HoldsKey m
      → lookup id m ≡ some c
      → c.key ≡ key_of id
  unfolding lookup
  lookup-HoldsKey id [] h e = cc
  lookup-HoldsKey id ((k, c') ∷ m) {c} h e = elim (Bool-cases (bytes_eq k id)) [
    | inl same ↦
        let is_c : c' ≡ c = ground arith in
        rw (← is_c) (h.0 ∙ ap key_of ((bytes_eq_iff k id).0 same))
    | inr other ↦ lookup-HoldsKey id m h.1 (rw (lookup, other) at e)
  ]

  pub for_id-Found :
      (id : KeyId) (s : Ciphers) (keys : KeySource)
      → Agrees key_of keys
      → IsCached s
      → Found (for_id id s keys) id
  unfolding for_id with_budget
  for_id-Found id s keys g i = elim (Option-cases (lookup id s.by_id)) [
    | inl miss ↦ elim (Result-cases (keys.key id)) [
      | inl (k, e) ↦
          let held = g.key id k e in
          rw (for_id, miss, e)
            (held, record { active_holds = i.active_holds; by_id_hold = (held, i.by_id_hold) })
      | inr (e, p) ↦ rw (for_id, miss, p) tt
    ]
    | inr (c, hit) ↦ rw (for_id, hit) (lookup-HoldsKey id s.by_id i.by_id_hold hit, i)
  ]

  -- Opening a value keeps the cache's invariant, whatever comes of it.
  pub open_value-IsCached :
      (gcm : Aead) (keys : KeySource) (b : Binding) (stored : Bytes) (s : Ciphers)
      → Agrees key_of keys
      → IsCached s
      → IsCached (open_value gcm keys b stored s).1
  unfolding open_value open_in
  open_value-IsCached gcm keys b stored s g i = elim (Result-cases (key_id stored)) [
    | inr (e, p) ↦ rw (open_value, p) i
    | inl (id, p) ↦
        let found = for_id-Found id s keys g i in
        elim (Result-cases (for_id id s keys)) [
          | inr (e, q) ↦ rw (open_value, p, q) i
          | inl ((c, s'), q) ↦ let (held, i') = rw q at found in rw (open_value, p, q) i'
        ]
  ]

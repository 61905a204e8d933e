-- ===== src/Core/Envelope/Layout.antt =====
-- The fields of an envelope: header, key id, nonce and ciphertext.
use dbsec.Prelude.{
  ◌<◌, ◌≡◌, ◌⊎◌, inl, inr, ◌++◌, append_assoc, length, take, drop, arith, true, Bytes,
  take_of_length, drop_of_length, length-append,
}
use dbsec.Core.Envelope.{magic, magic_v1, magic_v3, is_enveloped}

abbrev pub IsMagic : Bytes → Type 0
IsMagic m = (m ≡ magic) ⊎ ((m ≡ magic_v1) ⊎ (m ≡ magic_v3))

-- The widths of the fields in front of the ciphertext, which is not empty.
pub record HasWidths (id nonce ciphertext : Bytes) : Type 0 where
  pub id_width : length id ≡ 16
  pub nonce_width : length nonce ≡ 12
  pub ciphertext_pos : 0 < length ciphertext

IsMagic-length : (m : Bytes) → IsMagic m → length m ≡ 4
IsMagic-length m (inl e) = rw e
IsMagic-length m (inr (inl e)) = rw e
IsMagic-length m (inr (inr e)) = rw e

-- after a magic, any 29 bytes make an envelope
IsMagic-is_enveloped :
    (m rest : Bytes) → IsMagic m → 28 < length rest → is_enveloped (m ++ rest) ≡ true
unfolding is_enveloped
IsMagic-is_enveloped m rest (inl e) h = rw e (ground arith)
IsMagic-is_enveloped m rest (inr (inl e)) h = rw e (ground arith)
IsMagic-is_enveloped m rest (inr (inr e)) h = rw e (ground arith)

module _ (m id nonce ciphertext : Bytes) (is_magic : IsMagic m)
    (w : HasWidths id nonce ciphertext) where
  pub id_of : take 16 (drop 4 (m ++ (id ++ (nonce ++ ciphertext)))) ≡ id
  id_of = rw (
    drop_of_length 4 m (id ++ (nonce ++ ciphertext)) (IsMagic-length m is_magic),
    take_of_length 16 id (nonce ++ ciphertext) w.id_width,
  )

  pub nonce_of : take 12 (drop 20 (m ++ (id ++ (nonce ++ ciphertext)))) ≡ nonce
  nonce_of =
      let front : length (m ++ id) ≡ 20 =
        omega (arith, length-append {0} m id, IsMagic-length m is_magic, w.id_width) in
      rw (← append_assoc m id, drop_of_length 20 (m ++ id) (nonce ++ ciphertext) front)
        (take_of_length 12 nonce ciphertext w.nonce_width)

  pub ciphertext_of : drop 32 (m ++ (id ++ (nonce ++ ciphertext))) ≡ ciphertext
  ciphertext_of =
      let front : length (m ++ (id ++ nonce)) ≡ 32 = omega (
        arith,
        length-append {0} m (id ++ nonce),
        length-append {0} id nonce,
        IsMagic-length m is_magic,
        w.id_width,
        w.nonce_width,
      ) in
      rw (← append_assoc id nonce, ← append_assoc m (id ++ nonce))
        (drop_of_length 32 (m ++ (id ++ nonce)) ciphertext front)

  pub is_enveloped_lem : is_enveloped (m ++ (id ++ (nonce ++ ciphertext))) ≡ true
  is_enveloped_lem = IsMagic-is_enveloped m (id ++ (nonce ++ ciphertext)) is_magic (
      omega (
        arith,
        length-append {0} id (nonce ++ ciphertext),
        length-append {0} nonce ciphertext,
        w.id_width,
        w.nonce_width,
        w.ciphertext_pos,
      ))

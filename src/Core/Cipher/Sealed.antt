-- ===== src/Core/Cipher/Sealed.antt =====
-- `Cipher::encrypt` and `Cipher::decrypt` of crates/core/src/envelope.rs, one after the other.
use dbsec.Prelude.{
  ◌≡◌, inl, inr, ap, ◌∙◌, Option, none, some, ◌++◌, length, arith, Bool, ok, ok_or, >>=-eq-ok,
  Bytes, starts_with,
}
use dbsec.Core.{Error}
use dbsec.Core.Crypto.{Aead, IsAead}
use dbsec.Core.Envelope.{
  KeyId, CellContext, RowKey, Binding, magic, magic_v3, key_id_len, nonce_len, aad, aad_with_row,
}
use dbsec.Core.Envelope.Layout.{
  IsMagic, HasWidths, id_of, nonce_of, ciphertext_of, is_enveloped_lem,
}
use dbsec.Core.Cipher.{Cipher, encrypt, decrypt, seal_with, choose, stored_aad, is_strict_row}

pub choose-IsMagic :
    (context : CellContext) (row : Option RowKey) (id : KeyId) {header a : Bytes}
    → choose context row id ≡ ok (header, a)
    → IsMagic header
unfolding choose
choose-IsMagic context none id h = inl (ground arith)
choose-IsMagic context (some key) id h = inr (inr (ground arith))

-- reading a value in its own cell chooses the associated data that it was sealed under
stored_aad-choose :
    (context : CellContext) (row : Option RowKey) (strict : Bool) (id : KeyId) (rest : Bytes)
    {header a : Bytes}
    → choose context row id ≡ ok (header, a)
    → stored_aad (record { context = context; row = row; strict = strict }) (header ++ rest) id
      ≡ ok a
unfolding choose stored_aad is_strict_row starts_with
stored_aad-choose context none strict id rest {header} {a} h =
    let e : magic ≡ header = ground arith in
    let f : aad context id ≡ a = ground arith in rw (← e, ← f)
stored_aad-choose context (some key) strict id rest {header} {a} h =
    let (x, e, same) = >>=-eq-ok (aad_with_row context id key) _ h in
    let m : magic_v3 ≡ header = ground arith in
    let f : x ≡ a = ground arith in rw (← m) (e ∙ ap ok f)

module _ (gcm : Aead) where
  open gcm use {gcm_encrypt}

  -- The parts of a sealed value.
  pub record Parts (key id nonce plaintext stored : Bytes) (context : CellContext)
      (row : Option RowKey) : Type 0 where
    pub header : Bytes
    pub associated : Bytes
    pub ciphertext : Bytes
    pub chosen : choose context row id ≡ ok (header, associated)
    pub encrypted : gcm_encrypt key nonce associated plaintext ≡ some ciphertext
    pub laid_out : stored ≡ header ++ (id ++ (nonce ++ ciphertext))

  pub seal_with-eq-ok :
      (key id nonce plaintext : Bytes) (context : CellContext) (row : Option RowKey) (strict : Bool)
      {stored : Bytes}
      → seal_with gcm key id
          (record { context = context; row = row; strict = strict })
          plaintext
          nonce
        ≡ ok stored
      → Parts key id nonce plaintext stored context row
  unfolding seal_with
  seal_with-eq-ok key id nonce plaintext context row strict {stored} h =
      let (p, e₁, h₁) = >>=-eq-ok (choose context row id) _ h in
      let (c, e₂, h₂) =
        >>=-eq-ok (ok_or Error.encrypt (gcm_encrypt key nonce p.1 plaintext)) _ h₁ in
      record {
        header = p.0;
        associated = p.1;
        ciphertext = c;
        chosen = e₁;
        encrypted = ground arith;
        laid_out = ground arith;
      }

pub encrypt-eq-ok :
    (gcm : Aead) (c : Cipher) (id : KeyId) (b : Binding) (plaintext nonce : Bytes) {stored : Bytes}
    → (encrypt gcm c id b plaintext nonce).0 ≡ ok stored
    → seal_with gcm c.key id b plaintext nonce ≡ ok stored
unfolding encrypt
encrypt-eq-ok gcm c id b plaintext nonce h = ground arith

module _ (gcm : Aead) (law : IsAead gcm) where
  -- A value that was sealed under `key` for one cell, with a key id of 16 bytes and a nonce of
  -- 12, opens under it in that cell, whether or not the reader is strict.
  pub decrypt-seal_with :
      (key id nonce plaintext : Bytes) (b : Binding) (strict : Bool) {stored : Bytes}
      → length id ≡ key_id_len
      → length nonce ≡ nonce_len
      → seal_with gcm key id b plaintext nonce ≡ ok stored
      → decrypt gcm key (record b { strict = strict }) stored ≡ ok plaintext
  unfolding decrypt
  decrypt-seal_with key id nonce plaintext b strict {stored} wi wn h =
      let p = seal_with-eq-ok gcm key id nonce plaintext b.context b.row b.strict h in
      let m = choose-IsMagic b.context b.row id p.chosen in
      let w : HasWidths id nonce p.ciphertext = record {
        id_width = wi;
        nonce_width = wn;
        ciphertext_pos = omega (arith, law.tag_length key nonce p.associated plaintext p.encrypted);
      } in
      rw (
        p.laid_out,
        is_enveloped_lem p.header id nonce p.ciphertext m w,
        id_of p.header id nonce p.ciphertext m w,
        nonce_of p.header id nonce p.ciphertext m w,
        ciphertext_of p.header id nonce p.ciphertext m w,
        stored_aad-choose b.context b.row strict id (id ++ (nonce ++ p.ciphertext)) p.chosen,
        law.opens key nonce p.associated plaintext p.encrypted,
      )

-- ===== src/Core/Cipher/Authentic.antt =====
-- `Cipher::decrypt` of crates/core/src/envelope.rs: which values it accepts.
use dbsec.Prelude.{
  ◌≡◌, ◌≢◌, ◌⊎◌, inl, inr, refl, sym, ap, ◌∙◌, Option, none, some, ◌++◌, length, arith, Bool, ok,
  >>=-eq-ok, Bool-cases, Bytes, starts_with,
}
use dbsec.Core.Crypto.{Aead, IsAead}
use dbsec.Core.Envelope.{
  KeyId, CellContext, RowKey, Binding, magic, magic_v3, key_id_len, nonce_len, aad, aad_with_row,
}
use dbsec.Core.Envelope.Layout.{
  IsMagic, HasWidths, id_of, nonce_of, ciphertext_of, is_enveloped_lem,
}
use dbsec.Core.Cipher.{decrypt, seal_with, choose, stored_aad, is_strict_row}
use dbsec.Core.Cipher.Sealed.{seal_with-eq-ok, choose-IsMagic}
use dbsec.Core.Envelope.Aad.{aad-injective, aad_with_row-injective}
use dbsec.Prelude.{bytes_eq, bytes_eq_iff}

-- One ciphertext that authenticates under two different associated data, under one key and nonce.
pub record Collision (gcm : Aead) (key : Bytes) : Type 0 where
  pub nonce : Bytes
  pub associated : Bytes
  pub associated' : Bytes
  pub ciphertext : Bytes
  pub plaintext : Bytes
  pub plaintext' : Bytes
  pub distinct : associated ≢ associated'
  pub opens : gcm.gcm_decrypt key nonce associated ciphertext ≡ some plaintext
  pub opens' : gcm.gcm_decrypt key nonce associated' ciphertext ≡ some plaintext'

-- The same cell: the column always, and the row where the value was bound to one.
abbrev pub BoundTo : Option RowKey → Option RowKey → Type 0
BoundTo none reader = Unit
BoundTo (some k) reader = reader ≡ some k

abbrev pub SameCell : Binding → Binding → Type 0
SameCell sealed reader = (reader.context ≡ sealed.context) × BoundTo sealed.row reader.row

same_plaintext : {o : Option Bytes} {x y : Bytes} → o ≡ some x → o ≡ some y → x ≡ y
same_plaintext p q = ground arith

-- Equal associated data name one cell.
same_cell :
    (c d : CellContext) (r r' : Option RowKey) (strict strict' : Bool) (id : KeyId) (rest : Bytes)
    {header a a' : Bytes}
    → choose c r id ≡ ok (header, a)
    → stored_aad (record { context = d; row = r'; strict = strict' }) (header ++ rest) id ≡ ok a'
    → a ≡ a'
    → SameCell
        (record { context = c; row = r; strict = strict })
        (record { context = d; row = r'; strict = strict' })
unfolding choose stored_aad is_strict_row starts_with
same_cell c d none r' strict strict' id rest {header} {a} {a'} h k e =
    let is_magic : magic ≡ header = ground arith in
    let first : aad c id ≡ a = ground arith in
    let read = rw (← is_magic) at k in
    let second : aad d id ≡ a' = ground arith in
    (sym ((aad-injective c d id id refl (first ∙ e ∙ sym second)).1), tt)
same_cell c d (some l) none strict strict' id rest {header} h k e =
    let is_magic : magic_v3 ≡ header = ground arith in
    let read = rw (← is_magic) at k in ground arith
same_cell c d (some l) (some l') strict strict' id rest {header} {a} {a'} h k e =
    let is_magic : magic_v3 ≡ header = ground arith in
    let read : aad_with_row d id l' ≡ ok a' = rw (← is_magic) at k in
    let (x, f, same) = >>=-eq-ok (aad_with_row c id l) _ h in
    let is_x : x ≡ a = ground arith in
    let (_, columns, keys) =
      aad_with_row-injective c d id id l l' refl (f ∙ ap ok (is_x ∙ e)) read in
    (sym columns, ap some (sym keys))

module _ (gcm : Aead) where
  open gcm use {gcm_decrypt}

  pub decrypt-eq-ok :
      (key : Bytes) (b : Binding) (header id nonce ciphertext : Bytes) {plaintext : Bytes}
      → IsMagic header
      → HasWidths id nonce ciphertext
      → decrypt gcm key b (header ++ (id ++ (nonce ++ ciphertext))) ≡ ok plaintext
      → (a : Bytes) × (stored_aad b (header ++ (id ++ (nonce ++ ciphertext))) id ≡ ok a)
        × (gcm_decrypt key nonce a ciphertext ≡ some plaintext)
  unfolding decrypt
  decrypt-eq-ok key b header id nonce ciphertext {plaintext} m w h =
      let open' =
        rw
          (
            decrypt,
            is_enveloped_lem header id nonce ciphertext m w,
            id_of header id nonce ciphertext m w,
            nonce_of header id nonce ciphertext m w,
            ciphertext_of header id nonce ciphertext m w,
          )
          at h in
      let (a, e, h') =
        >>=-eq-ok (stored_aad b (header ++ (id ++ (nonce ++ ciphertext))) id) _ open' in
      (a, e, ground arith)

module _ (gcm : Aead) (law : IsAead gcm) where
  -- For a key id of 16 bytes and a nonce of 12: whoever opens a sealed value under its key opens
  -- it in the cell that it was sealed for, the row included where it was bound to one, and reads
  -- the plaintext that was sealed; or one ciphertext authenticates under two different associated
  -- data.
  pub decrypt-SameCell :
      (key id nonce plaintext : Bytes) (sealed reader : Binding) {stored read : Bytes}
      → length id ≡ key_id_len
      → length nonce ≡ nonce_len
      → seal_with gcm key id sealed plaintext nonce ≡ ok stored
      → decrypt gcm key reader stored ≡ ok read
      → (SameCell sealed reader × (read ≡ plaintext)) ⊎ Collision gcm key
  decrypt-SameCell key id nonce plaintext sealed reader {stored} {read} wi wn h k =
      let p =
        seal_with-eq-ok gcm key id nonce plaintext sealed.context sealed.row sealed.strict h in
      let m = choose-IsMagic sealed.context sealed.row id p.chosen in
      let w : HasWidths id nonce p.ciphertext = record {
        id_width = wi;
        nonce_width = wn;
        ciphertext_pos = omega (arith, law.tag_length key nonce p.associated plaintext p.encrypted);
      } in
      let (a', e, opened) =
        decrypt-eq-ok gcm key reader p.header id nonce p.ciphertext m w (rw p.laid_out at k) in
      let sealed_opens = law.opens key nonce p.associated plaintext p.encrypted in
      elim (Bool-cases (bytes_eq p.associated a')) [
        | inl same ↦
            let eq = (bytes_eq_iff p.associated a').0 same in
            inl (
              same_cell sealed.context reader.context sealed.row reader.row sealed.strict
                  reader.strict id _ p.chosen e eq,
              same_plaintext (rw (← eq) at opened) sealed_opens,
            )
        | inr differ ↦ inr (record {
          nonce = nonce;
          associated = p.associated;
          associated' = a';
          ciphertext = p.ciphertext;
          plaintext = plaintext;
          plaintext' = read;
          distinct = λ q. ground (arith, (bytes_eq_iff p.associated a').1 q);
          opens = sealed_opens;
          opens' = opened;
        })
      ]

-- ===== src/Core/Cipher/Downgrade.antt =====
-- `Cipher::decrypt` of crates/core/src/envelope.rs: the older versions of the format.
use dbsec.Prelude.{
  ◌<◌, ◌≡◌, ◌≢◌, inl, inr, refl, sym, ap, ◌∙◌, Option, none, some, ◌++◌, length, drop, arith, true,
  false, ok, err, >>=-eq-ok, Bool-cases, Bytes, starts_with,
}
use dbsec.Core.{Error}
use dbsec.Core.Crypto.{Aead, IsAead}
use dbsec.Core.Envelope.{
  KeyId, CellContext, RowKey, Binding, magic, magic_v1, magic_v3, key_id_len, nonce_len, aad,
  aad_with_row, is_enveloped,
}
use dbsec.Core.Envelope.Layout.{IsMagic, HasWidths}
use dbsec.Core.Cipher.{decrypt, seal_with, choose, stored_aad, is_strict_row}
use dbsec.Core.Cipher.Sealed.{seal_with-eq-ok, choose-IsMagic}
use dbsec.Prelude.{length-append}
use dbsec.Core.Cipher.Authentic.{Collision, decrypt-eq-ok}
use dbsec.Core.Envelope.Aad.{aad_with_row-eq-ok}

-- a stored value with another magic in front
abbrev pub relabel : Bytes → Bytes → Bytes
relabel m stored = m ++ drop (length magic) stored

drop-magic : (header rest : Bytes) → IsMagic header → drop 4 (header ++ rest) ≡ rest
drop-magic header rest (inl e) = rw e
drop-magic header rest (inr (inl e)) = rw e
drop-magic header rest (inr (inr e)) = rw e

longer : (id xs : Bytes) → 0 < length xs → id ++ xs ≢ id
longer id xs h e = omega (arith, length-append {0} id xs, ap length e)

choose-ne-id :
    (c : CellContext) (r : Option RowKey) (id : KeyId) {header a : Bytes}
    → 0 < length c.name
    → choose c r id ≡ ok (header, a)
    → a ≢ id
unfolding choose aad
choose-ne-id c none id {header} {a} named h e =
    let first : id ++ c.name ≡ a = ground arith in longer id c.name named (first ∙ e)
choose-ne-id c (some k) id {header} {a} named h e =
    let (x, f, same) = >>=-eq-ok (aad_with_row c id k) _ h in
    let is_x : x ≡ a = ground arith in
    let (_, _, framed) = aad_with_row-eq-ok c id k f in
    longer id _ (omega arith) (sym framed ∙ is_x ∙ e)

stored_aad_strict :
    (b : Binding) (stored : Bytes) (id : KeyId)
    → starts_with stored magic_v3 ≡ false
    → is_strict_row b ≡ true
    → stored_aad b stored id ≡ err Error.row_binding_downgraded
unfolding stored_aad
stored_aad_strict b stored id v3 strict = elim (Bool-cases (starts_with stored magic_v1)) [
  | inl v1 ↦ rw (stored_aad, v1, strict)
  | inr v1 ↦ rw (stored_aad, v1, v3, strict)
]

stored_aad_missing :
    (b : Binding) (stored : Bytes) (id : KeyId)
    → starts_with stored magic_v1 ≡ false
    → starts_with stored magic_v3 ≡ true
    → b.row ≡ none
    → stored_aad b stored id ≡ err Error.row_key_missing
unfolding stored_aad
stored_aad_missing b stored id v1 v3 r = rw (stored_aad, v1, v3, r)

-- A strict reader that holds a row key refuses every envelope that is not row-bound, whatever the
-- key.
pub decrypt_strict :
    (gcm : Aead) (key : Bytes) (b : Binding) (stored : Bytes)
    → is_enveloped stored ≡ true
    → starts_with stored magic_v3 ≡ false
    → is_strict_row b ≡ true
    → decrypt gcm key b stored ≡ err Error.row_binding_downgraded
unfolding decrypt
decrypt_strict gcm key b stored enveloped v3 strict =
    rw (decrypt, enveloped, stored_aad_strict b stored _ v3 strict)

-- A reader that has no row key refuses every row-bound envelope by name, whatever the key.
pub decrypt_row_key_missing :
    (gcm : Aead) (key : Bytes) (b : Binding) (stored : Bytes)
    → is_enveloped stored ≡ true
    → starts_with stored magic_v1 ≡ false
    → starts_with stored magic_v3 ≡ true
    → b.row ≡ none
    → decrypt gcm key b stored ≡ err Error.row_key_missing
unfolding decrypt
decrypt_row_key_missing gcm key b stored enveloped v1 v3 r =
    rw (decrypt, enveloped, stored_aad_missing b stored _ v1 v3 r)

v1_aad :
    (b : Binding) (id : KeyId) (rest : Bytes) {a : Bytes}
    → stored_aad b (magic_v1 ++ rest) id ≡ ok a
    → id ≡ a
unfolding stored_aad
v1_aad b id rest h = ground arith

module _ (gcm : Aead) (law : IsAead gcm) where
  -- Rewriting the header of a sealed value to the oldest version, whose associated data is the
  -- key id alone, opens nothing without a collision of the cipher, for a column with a name, a
  -- key id of 16 bytes and a nonce of 12.
  pub decrypt-relabel_v1 :
      (key id nonce plaintext : Bytes) (sealed reader : Binding) {stored read : Bytes}
      → length id ≡ key_id_len
      → length nonce ≡ nonce_len
      → 0 < length sealed.context.name
      → seal_with gcm key id sealed plaintext nonce ≡ ok stored
      → decrypt gcm key reader (relabel magic_v1 stored) ≡ ok read
      → Collision gcm key
  decrypt-relabel_v1 key id nonce plaintext sealed reader {stored} {read} wi wn named h k =
      let p =
        seal_with-eq-ok gcm key id nonce plaintext sealed.context sealed.row sealed.strict h in
      let m = choose-IsMagic sealed.context sealed.row id p.chosen in
      let w : HasWidths id nonce p.ciphertext = record {
        id_width = wi;
        nonce_width = wn;
        ciphertext_pos = omega (arith, law.tag_length key nonce p.associated plaintext p.encrypted);
      } in
      let (a', e, opened) =
        decrypt-eq-ok gcm key reader magic_v1 id nonce p.ciphertext (inr (inl refl)) w
          (rw (p.laid_out, drop-magic p.header (id ++ (nonce ++ p.ciphertext)) m) at k) in
      let is_id : id ≡ a' = v1_aad reader id _ e in
      record {
        nonce = nonce;
        associated = p.associated;
        associated' = a';
        ciphertext = p.ciphertext;
        plaintext = plaintext;
        plaintext' = read;
        distinct = λ q. choose-ne-id sealed.context sealed.row id named p.chosen (q ∙ sym is_id);
        opens = law.opens key nonce p.associated plaintext p.encrypted;
        opens' = opened;
      }

-- ===== src/Proxy/Rows/Opened.antt =====
-- `RowDecryptor::decrypt_row` of crates/proxy/src/rows.rs: a value that was sealed reaches the client
-- opened, and a masked one never unmasked.
use mathlib.Core.List.{Memᴰ}
use dbsec.Prelude.{
  ℕ, ◌≡◌, refl, sym, ◌∙◌, Bool, true, false, Option, none, some, List, map, if◌then◌else◌, length,
  Result, ok, err, ok-injective, Bytes, All, starts_with, subst, Option-cases, inl, inr,
}
use dbsec.Core.Envelope.{KeyId, CellContext, RowKey, nonce_len}
use dbsec.Core.Crypto.{IsAead}
use dbsec.Core.Ciphers.{KeySource, Ciphers}
use dbsec.Core.Ciphers.Cached.{Agrees, IsCached}
use dbsec.Core.Mask.{Utf8, MaskSpec, apply}
use dbsec.Core.Transform.{EncryptTransform, bytea, seal_value}
use dbsec.Core.Transform.Encrypting.{open_stored-seal_value}
use dbsec.Pgwire.Rows.{parse_data_row}
use dbsec.Proxy.{Error}
use dbsec.Proxy.Params.{TransformId, ResultFormats}
use dbsec.Proxy.Rows.{FieldTransform, Position}
use dbsec.Proxy.Rows.Cells.{
  Hex, RowKeyOnce, hex_text_form, hex_decoded, decode_wire, decode_form, shown_value, in_form,
  shown_result, open_at, key_at, read, replacement_of,
}
use dbsec.Proxy.Rows.Decrypt.{
  Libraries, Bounds, Values, value_at, contains, distinct_slots, repeated_names, decrypt_row,
}
use dbsec.Proxy.Rows.Columns.{Store, Keyring, encrypting, IsKeyed}
use dbsec.Proxy.Rows.Kept.{Keeps}
use dbsec.Proxy.Rows.Rederived.{Distinct}
use dbsec.Proxy.Rows.Replaced.{value_or}
use dbsec.Proxy.Rows.Shown.{decrypt_row-Sends}

-- `hex::decode` undoes `hex::encode`, for some bytes.
abbrev pub DecodesHex : Hex → Bytes → Type 0
DecodesHex hex bytes = hex.hex_decode (hex.hex_encode bytes) ≡ some bytes

All-Memᴰ {ℓ} : {A : Type ℓ} (P : A → Type 0) {x : A} {xs : List A} → All P xs → Memᴰ x xs → P x
All-Memᴰ P h (Memᴰ.head e) = subst P (sym e) h.0
All-Memᴰ P h (Memᴰ.tail m) = All-Memᴰ P h.1 m

abbrev pub form : Hex → Bool → Bytes → Bytes
form hex was_hex value = if was_hex then hex_text_form hex value else value

module _ {S : Type 0} (hex : Hex) (utf8 : Utf8) (row_keys : List RowKeyOnce)
    (repeated : Bytes → Bool) where
  shown_result-masked :
      (m : MaskSpec) (stored : Bytes) (was_hex : Bool) (r : Result Error (Option Bytes) × S)
      {o : Option Bytes}
      → (shown_result hex utf8 (some m) (stored, was_hex) r).0 ≡ ok o
      → (x : Bytes) × (o ≡ some (form hex was_hex (apply utf8 m x)))
  unfolding shown_result shown_value in_form
  shown_result-masked m stored was_hex (err e, s) h = absurd (cc)
  shown_result-masked m stored was_hex (ok none, s) h = (stored, sym (ok-injective h))
  shown_result-masked m stored was_hex (ok (some x), s) h = (x, sym (ok-injective h))

  shown_result_of :
      (mask : Option MaskSpec) (stored : Bytes) (was_hex : Bool)
      (r : Result Error (Option Bytes) × S) {m : MaskSpec} {o : Option Bytes}
      → mask ≡ some m
      → (shown_result hex utf8 mask (stored, was_hex) r).0 ≡ ok o
      → (x : Bytes) × (o ≡ some (form hex was_hex (apply utf8 m x)))
  shown_result_of mask stored was_hex r {m} e h = shown_result-masked m stored was_hex r (rw e at h)

  replacement_of-masked :
      (p : Position S) (value : Bytes) (s : S) {m : MaskSpec} {o : Option Bytes}
      → p.column.mask ≡ some m
      → (replacement_of hex utf8 row_keys repeated p value s).0 ≡ ok o
      → (x : Bytes) × (was_hex : Bool) × (o ≡ some (form hex was_hex (apply utf8 m x)))
  unfolding replacement_of
  replacement_of-masked p value s {m} e h = elim (Option-cases p.column.transform) [
    | inl q ↦
        let (x, is_x) =
          shown_result_of p.column.mask value false (ok none, s) e (rw (replacement_of, q) at h) in
        (x, false, is_x)
    | inr (t, q) ↦
        let d = decode_wire hex t value in
        let (x, is_x) =
          shown_result_of p.column.mask d.0 d.1
            (open_at t p.column p.index (repeated p.column.name) (key_at p.key row_keys) d.0 s) e
            (rw (replacement_of, q) at h) in
        (x, d.1, is_x)
  ]

  -- the value of a column whose transform opens it, with no mask
  replacement_of-opened :
      (p : Position S) (value stored plaintext : Bytes) (was_hex : Bool) (key : RowKey) (index : ℕ)
      (s : S) (t : FieldTransform S)
      → p.column.transform ≡ some t
      → p.column.mask ≡ none
      → key_at p.key row_keys ≡ some (record { index = index; key = ok key })
      → decode_wire hex t value ≡ (stored, was_hex)
      → (t.open_stored stored (some key) s).0 ≡ ok (some plaintext)
      → (replacement_of hex utf8 row_keys repeated p value s).0
        ≡ ok (some (form hex was_hex plaintext))
  unfolding replacement_of shown_result shown_value in_form open_at
  replacement_of-opened p value stored plaintext was_hex key index s t e m at d o =
      rw (replacement_of, e, m, at, d, o) refl

decode_wire-hex_text_form :
    {S : Type 0} (hex : Hex) (t : FieldTransform S) (stored : Bytes)
    → DecodesHex hex stored
    → t.wire ≡ bytea
    → decode_wire hex t (hex_text_form hex stored) ≡ (stored, true)
unfolding decode_wire decode_form hex_decoded hex_text_form starts_with
decode_wire-hex_text_form hex t stored law w = rw (w, law) refl

module _ {S : Type 0} (I : S → Type 0) (libs : Libraries) (bounds : Bounds)
    (formats : ResultFormats) (positions : List (Position S)) where
  -- A column with a mask is never sent unmasked: of a row that is let through, changed or not, the
  -- client receives at its position the mask of some value, in the text form of a bytea or as it
  -- is, where no two positions are at one index, opening a value keeps `I`, which holds before,
  -- and the value is not NULL.
  pub decrypt_row-masked :
      (p : Position S) (m : MaskSpec) (value body : Bytes) (values : Values) (s : S)
      {o : Option Bytes}
      → Distinct positions
      → All (λ (q : Position S). Keeps I q.column.transform) positions
      → I s
      → Memᴰ p positions
      → p.column.mask ≡ some m
      → parse_data_row body ≡ ok values
      → value_at values p.index ≡ some value
      → (decrypt_row libs bounds formats positions body s).0 ≡ ok o
      → (shown : Values) × (parse_data_row (value_or body o) ≡ ok shown)
        × (x : Bytes) × (was_hex : Bool) × (value_at shown p.index
            ≡ some (form libs.hex was_hex (apply libs.utf8 m x)))
  decrypt_row-masked p m value body values s {o} d k i mem e parsed v h =
      let sends = decrypt_row-Sends I libs bounds formats positions body s d k i h in
      let cell = All-Memᴰ _ sends.cells mem in
      let same = ok-injective (sym sends.parsed ∙ parsed) in
      let (s', i', r, ran, sent, fits) = rw (same, v) at cell in
      let (x, was_hex, is_x) = replacement_of-masked libs.hex libs.utf8 _ _ p value s' e ran in
      (sends.shown, sends.received, x, was_hex, rw is_x at sent)

module _ (k : Keyring) (law : IsAead k.gcm) (key_of : KeyId → Bytes)
    (contexts : TransformId → CellContext) (libs : Libraries) (bounds : Bounds)
    (formats : ResultFormats) (positions : List (Position Store)) where
  -- A value that a searchable column sealed for a row reaches the client as its plaintext, in the
  -- text form of a bytea that it was sent in, whenever the row is let through: where the column is
  -- read by the transform of its own context, with no mask, and the key of the row is read as the
  -- one it was sealed for; no two positions are at one index; opening keeps the store keyed, as it
  -- is before; the key sources give each id one key, the reading one for every id; and hex text decodes to the
  -- stored bytes.
  pub decrypt_row-seal_value :
      (keys later : KeySource) (t : EncryptTransform) (p : Position Store) (at : TransformId)
      (supports : Bool) (key : RowKey) (index : ℕ) (plaintext nonce body : Bytes) (c : Ciphers)
      (values : Values) (s : Store) {name stored : Bytes} {o : Option Bytes}
      → Agrees key_of keys
      → Agrees key_of later
      → Agrees key_of k.keys
      → ((id : KeyId) → k.keys.key id ≡ ok (key_of id))
      → IsCached key_of c
      → length nonce ≡ nonce_len
      → t.index_key_name ≡ some name
      → contexts at ≡ t.context
      → (seal_value k.mac k.gcm keys later t plaintext (some key) nonce c).0 ≡ ok stored
      → DecodesHex libs.hex stored
      → Distinct positions
      → All (λ (q : Position Store). Keeps (IsKeyed key_of contexts) q.column.transform) positions
      → IsKeyed key_of contexts s
      → Memᴰ p positions
      → p.column.transform ≡ some (encrypting k at supports)
      → p.column.mask ≡ none
      → key_at p.key (map (read libs.texts formats values) (distinct_slots positions))
        ≡ some (record { index = index; key = ok key })
      → parse_data_row body ≡ ok values
      → value_at values p.index ≡ some (hex_text_form libs.hex stored)
      → (decrypt_row libs bounds formats positions body s).0 ≡ ok o
      → (shown : Values) × (parse_data_row (value_or body o) ≡ ok shown)
        × (value_at shown p.index ≡ some (hex_text_form libs.hex plaintext))
  unfolding encrypting
  decrypt_row-seal_value keys later t p at supports key index plaintext nonce body c values s {name}
        {stored} {o} g g' g'' has i wn n same sealed hexes d keeps keyed mem e m found parsed v h =
      let sends =
        decrypt_row-Sends (IsKeyed key_of contexts) libs bounds formats positions body s d keeps
          keyed h in
      let cell = All-Memᴰ _ sends.cells mem in
      let eq = ok-injective (sym sends.parsed ∙ parsed) in
      let (s', i', r, ran, sent, fits) = rw (eq, v) at cell in
      let opens =
        open_stored-seal_value k.mac k.gcm law key_of keys later k.keys t (s'.transforms at)
          plaintext (some key) nonce c s'.ciphers g g' g'' has i i'.cached wn n
          (i'.in_place at ∙ same) sealed in
      let shows =
        replacement_of-opened libs.hex libs.utf8 _ (λ x. contains x (repeated_names positions)) p
          (hex_text_form libs.hex stored) stored plaintext true key index s'
          (encrypting k at supports) e m found
          (decode_wire-hex_text_form libs.hex (encrypting k at supports) stored hexes refl) opens in
      (sends.shown, sends.received, rw (ok-injective (sym ran ∙ shows)) at sent)

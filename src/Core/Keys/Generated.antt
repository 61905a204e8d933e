-- ===== src/Core/Keys/Generated.antt =====
-- `FileKeySource::generate` and `load` of crates/core/src/keys.rs: the file that one writes, the
-- other reads.
use dbsec.Prelude.{
  ℕ, zero, suc, ◌+◌, ◌*◌, ◌/◌, ◌%◌, ◌<◌, ◌≡◌, refl, ap, sym, ◌∙◌, none, some, [], ◌∷◌, ◌++◌, ==_iff,
  append_assoc, length, get_elem?, ok, Bytes, IsBytes, codes, bytes_eq_refl, append-nil,
  get_elem?-lt, some-injective, All, arith, subst,
}
use dbsec.NameMap.{insert, remove, contains_key}
use dbsec.Core.RowKeys.{is_hex_digit, lower_hex}
use dbsec.Core.RowKeys.Uuid.{IsLowerHex}
use dbsec.Core.Keys.{
  Formats, decode, decode_key, read_keys, read_index_keys, with_active, load, digits, digit,
  push_hex, key_file_text, generate,
}

-- What hex and toml do with the digits of bytes, and with a file of one key and no index key.
pub record Reads (formats : Formats) : Type 0 where
  pub decode_nil : formats.hex_decode [] ≡ some []
  pub decode_cons :
      (high low : ℕ) (text : Bytes) {bytes : Bytes}
      → high < 16
      → low < 16
      → formats.hex_decode text ≡ some bytes
      → formats.hex_decode (digit high ∷ digit low ∷ text) ≡ some ((high * 16 + low) ∷ bytes)
  pub from_str :
      (id key : Bytes)
      → All IsLowerHex id
      → All IsLowerHex key
      → 0 < length id
      → formats.from_str (
          codes "active = \""
          ++ id
          ++ codes "\"\n\n[keys]\n"
          ++ id
          ++ codes " = \""
          ++ key
          ++ codes "\"\n")
        ≡ some (record { active = id; keys = (id, key) ∷ []; index_keys = [] })

-- the digits of bytes
hexed : Bytes → Bytes
hexed [] = []
hexed (b ∷ bytes) = digit (b / 16) ∷ digit (b % 16) ∷ hexed bytes

push_hex-hexed : (out bytes : Bytes) → push_hex out bytes ≡ out ++ hexed bytes
unfolding push_hex hexed
push_hex-hexed out [] = sym (append-nil out)
push_hex-hexed out (b ∷ bytes) =
    push_hex-hexed (out ++ digit (b / 16) ∷ digit (b % 16) ∷ []) bytes
    ∙ append_assoc out (digit (b / 16) ∷ digit (b % 16) ∷ []) (hexed bytes)

get_elem?-IsLowerHex :
    (xs : Bytes) (i : ℕ) {x : ℕ} → All IsLowerHex xs → get_elem? xs i ≡ some x → IsLowerHex x
get_elem?-IsLowerHex [] i h e = absurd (ground (arith, e))
get_elem?-IsLowerHex (x ∷ xs) zero h e = subst IsLowerHex (some-injective e) h.0
get_elem?-IsLowerHex (x ∷ xs) (suc i) h e = get_elem?-IsLowerHex xs i h.1 e

digits-IsLowerHex : All IsLowerHex digits
unfolding is_hex_digit lower_hex
digits-IsLowerHex = ground arith

digit-IsLowerHex : (d : ℕ) → d < 16 → IsLowerHex (digit d)
unfolding digit
digit-IsLowerHex d h =
    let (c, e) = get_elem?-lt digits d h in
    rw (digit, e) (get_elem?-IsLowerHex digits d digits-IsLowerHex e)

hexed-IsLowerHex : (bytes : Bytes) → IsBytes bytes → All IsLowerHex (hexed bytes)
unfolding hexed
hexed-IsLowerHex [] h = tt
hexed-IsLowerHex (b ∷ bytes) h =
    let (p, q) : (b / 16 < 16) × (b % 16 < 16) = (omega (arith, h.0), omega arith) in
    (digit-IsLowerHex (b / 16) p, (digit-IsLowerHex (b % 16) q, hexed-IsLowerHex bytes h.1))

hexed-nonempty : (bytes : Bytes) → 0 < length bytes → 0 < length (hexed bytes)
unfolding hexed
hexed-nonempty [] h = omega arith
hexed-nonempty (b ∷ bytes) h = omega arith

key_file_text-hexed :
    (id key : Bytes)
    → key_file_text id key
      ≡ codes "active = \""
        ++ hexed id
        ++ codes "\"\n\n[keys]\n"
        ++ hexed id
        ++ codes " = \""
        ++ hexed key
        ++ codes "\"\n"
unfolding key_file_text
key_file_text-hexed id key =
    let active = codes "active = \"" ++ hexed id in
    let named = active ++ codes "\"\n\n[keys]\n" ++ hexed id in
    rw
      (
        key_file_text,
        push_hex-hexed (codes "active = \"") id,
        push_hex-hexed (active ++ codes "\"\n\n[keys]\n") id,
        push_hex-hexed (named ++ codes " = \"") key,
      )
      refl

module _ (formats : Formats) (reads : Reads formats) where
  hex_decode-hexed : (bytes : Bytes) → IsBytes bytes → formats.hex_decode (hexed bytes) ≡ some bytes
  unfolding hexed
  hex_decode-hexed [] h = reads.decode_nil
  hex_decode-hexed (b ∷ bytes) h =
      let (p, q) : (b / 16 < 16) × (b % 16 < 16) = (omega (arith, h.0), omega arith) in
      let halves : b / 16 * 16 + b % 16 ≡ b = omega arith in
      reads.decode_cons (b / 16) (b % 16) (hexed bytes) p q (hex_decode-hexed bytes h.1)
      ∙ ap (λ n. some (n ∷ bytes)) halves

  decode-hexed :
      (n : ℕ) (bytes : Bytes)
      → IsBytes bytes
      → length bytes ≡ n
      → decode formats n (hexed bytes) ≡ ok bytes
  unfolding decode
  decode-hexed n bytes h l =
      rw (decode, hex_decode-hexed bytes h, (==_iff (length bytes) n).1 l) refl

  -- A key file that is generated loads: the source has the id as its active key and the key under it,
  -- and no index key. The id has 16 bytes and the key 32, as the entropy source gives them.
  pub load-generate :
      (id key : Bytes)
      → IsBytes id
      → length id ≡ 16
      → IsBytes key
      → length key ≡ 32
      → load formats (generate (some id) (some key) none none).1
        ≡ ok (record { active = id; keys = (id, key) ∷ []; index_keys = [] })
  unfolding generate load read_keys read_index_keys decode_key with_active insert remove
      contains_key
  load-generate id key hi li hk lk =
      rw
        (
          load,
          key_file_text-hexed id key,
          reads.from_str (hexed id) (hexed key) (hexed-IsLowerHex id hi) (hexed-IsLowerHex key hk)
              (hexed-nonempty id (omega (arith, li))),
          decode-hexed 16 id hi li,
          decode-hexed 32 key hk lk,
          bytes_eq_refl id,
        )
        refl

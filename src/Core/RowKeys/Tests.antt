-- ===== src/Core/RowKeys/Tests.antt =====
-- Runs of the row keys, and the theorem on them at a concrete uuid. Texts are ASCII here.
use dbsec.Prelude.{
  ℕ, ◌+◌, ◌/◌, ◌%◌, ◌<◌, ◌≡◌, refl, true, none, some, [], ◌∷◌, length, replicate, All, ltb,
  if◌then◌else◌, ok, err, Bytes, codes, arith,
}
use dbsec.Core.{Error, is_null, not_a_uuid, wrong_width, unsupported_type}
use dbsec.Core.RowKeys.{
  oid_uuid, oid_int4, text, binary, Texts, is_hex_digit, lower_hex, hex_digits, unbraced,
  strip_brace, hyphenated, fixed, uuid_of, uuid_from_text, uuid_binary, canonical_text, canonical,
  utf8,
}
use dbsec.Core.RowKeys.Uuid.{IsLowerHex, IsTexts}

hex_char : ℕ → ℕ
hex_char n = if ltb n 10 then b'0' + n else 87 + n

hex_char-IsLowerHex : (n : ℕ) → n < 16 → IsLowerHex (hex_char n)
unfolding hex_char is_hex_digit lower_hex
hex_char-IsLowerHex n h = (ground arith, ground arith)

hex : Bytes → Bytes
unfolding hex_char
hex [] = []
hex (b ∷ bs) = hex_char (b / 16) ∷ hex_char (b % 16) ∷ hex bs

hex-IsLowerHex : (bs : Bytes) → All (λ (x : ℕ). x < 256) bs → All IsLowerHex (hex bs)
unfolding hex
hex-IsLowerHex [] h = tt
hex-IsLowerHex (b ∷ bs) h = (
  hex_char-IsLowerHex (b / 16) (omega (arith, h.0)),
  (hex_char-IsLowerHex (b % 16) (omega arith), hex-IsLowerHex bs h.1),
)

length-hex : (bs : Bytes) → length (hex bs) ≡ length bs + length bs
unfolding hex
length-hex [] = omega arith
length-hex (b ∷ bs) = omega (arith, length-hex bs)

abbrev ascii : Texts
ascii = record {
  is_utf8 = λ t. true;
  trim = λ t. t;
  parse_integer = λ width t. some t;
  show_integer = λ width b. b;
  hex_encode = hex;
}

ascii-IsTexts : IsTexts ascii
ascii-IsTexts = record {
  ascii_is_utf8 = λ t h. refl;
  trim_printable = λ t h. refl;
  hex_is_lower = hex-IsLowerHex;
  hex_length = length-hex;
}

abbrev shown : Bytes
shown = codes "abababab-abab-abab-abab-abababababab"

canonical-binary :
    canonical ascii oid_uuid binary (some (replicate 16 171)) ≡ ok (record { canonical = shown })
unfolding canonical canonical_text uuid_binary fixed hyphenated hex hex_char
canonical-binary = refl

-- braces and upper case make no difference; a brace that is not closed, and 15 bytes, are refused
canonical_runs :
    (canonical ascii oid_uuid text (some (codes "{ABABABAB-abababab-abababab-ABABABAB}"))
      ≡ ok (record { canonical = shown }))
    × (canonical ascii oid_uuid text (some (codes "{abababababababababababababababab"))
        ≡ err (Error.row_key_type not_a_uuid))
    × (canonical ascii oid_uuid binary (some (replicate 15 171))
        ≡ err (Error.row_key_type (wrong_width 15 16)))
    × (canonical ascii oid_int4 text none ≡ err (Error.row_key_type is_null))
    × (canonical ascii 16 text (some (codes "t")) ≡ err (Error.row_key_type unsupported_type))
unfolding canonical canonical_text uuid_binary uuid_from_text utf8 uuid_of fixed hyphenated unbraced
    strip_brace hex_digits is_hex_digit lower_hex
canonical_runs = (refl, refl, refl, refl, refl)

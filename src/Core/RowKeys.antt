-- ===== src/Core/RowKeys.antt =====
-- crates/core/src/rowkey.rs: the canonical form of a row key. What std does with a text is a
-- parameter: whether bytes are UTF-8, `str::trim`, and parsing an integer of a width, which gives
-- its decimal text; so is `hex::encode`.
pub mod Uuid
mod Tests
use dbsec.Prelude.{
  ℕ, ◌+◌, ◌*◌, Bool, true, false, ◌&&◌, ◌||◌, Option, none, some, List, [], ◌∷◌, ◌++◌, ◌==◌, leb,
  if◌then◌else◌, length, take, drop, Result, ok, err, ◌>>=◌, ok_or, Bytes, ℤ, from_be,
}
use dbsec.Core.{
  Error, RowKeyFault, is_null, not_utf8, not_an_integer, not_a_uuid, unsupported_type, wrong_width,
}
use dbsec.Core.Envelope.{RowKey}

abbrev pub oid_int8 : ℕ
oid_int8 = 20

abbrev pub oid_int2 : ℕ
oid_int2 = 21

abbrev pub oid_int4 : ℕ
oid_int4 = 23

abbrev pub oid_text : ℕ
oid_text = 25

abbrev pub oid_varchar : ℕ
oid_varchar = 1043

abbrev pub oid_uuid : ℕ
oid_uuid = 2950

pub data Format : Type 0 where
  text binary : Format

pub supported : ℕ → Bool
supported oid =
    (oid == oid_int2 || oid == oid_int4)
    || ((oid == oid_int8 || oid == oid_text) || (oid == oid_varchar || oid == oid_uuid))

-- `parse_integer w` is `parse::<iN>()` for N = 8 * w followed by `to_string`, and `show_integer w`
-- is `from_be_bytes` of w bytes followed by `to_string`.
pub record Texts : Type 0 where
  pub is_utf8 : Bytes → Bool
  pub trim : Bytes → Bytes
  pub parse_integer : ℕ → Bytes → Option Bytes
  pub show_integer : ℕ → Bytes → Bytes
  pub hex_encode : Bytes → Bytes

unfoldable pub is_hex_digit : ℕ → Bool
is_hex_digit c =
    (leb b'0' c && leb c b'9') || ((leb b'a' c && leb c b'f') || (leb b'A' c && leb c b'F'))

unfoldable pub lower_hex : ℕ → ℕ
lower_hex c = if leb b'A' c && leb c b'Z' then c + 32 else c

-- `for ch in inner.chars() { .. }`: the digits in lower case, hyphens left out
unfoldable pub hex_digits : Bytes → Option Bytes
unfolding is_hex_digit lower_hex
hex_digits [] = some []
hex_digits (c ∷ cs) =
    let rest = hex_digits cs in
    if c == b'-'
    then rest
    else if is_hex_digit c
    then elim rest [ none ↦ none | some digits ↦ some (lower_hex c ∷ digits) ]
    else none

-- `strip_suffix('}').unwrap_or("")`
unfoldable pub strip_brace : Bytes → Option Bytes
strip_brace [] = none
strip_brace (c ∷ []) = if c == b'}' then some [] else none
strip_brace (c ∷ d ∷ cs) = elim (strip_brace (d ∷ cs)) [ none ↦ none | some rest ↦ some (c ∷ rest) ]

unfoldable pub unbraced : Bytes → Bytes
unfolding strip_brace
unbraced [] = []
unbraced (c ∷ cs) =
    if c == b'{' then elim (strip_brace cs) [ none ↦ [] | some inner ↦ inner ] else c ∷ cs

unfoldable pub hyphenated : Bytes → Bytes
hyphenated hex =
    take 8 hex
    ++ b'-'
      ∷ (take 4 (drop 8 hex)
          ++ b'-' ∷ (take 4 (drop 12 hex) ++ b'-' ∷ (take 4 (drop 16 hex) ++ b'-' ∷ drop 20 hex)))

abbrev pub refuse_key {ℓ} : {A : Type ℓ} → RowKeyFault → Result Error A
refuse_key fault = err (Error.row_key_type fault)

unfoldable pub fixed : ℕ → Bytes → Result Error Bytes
fixed width bytes =
    if length bytes == width then ok bytes else refuse_key (wrong_width (length bytes) width)

-- the checks of a trimmed uuid text
unfoldable pub uuid_of : Bytes → Result Error Bytes
uuid_of inner = elim (hex_digits (unbraced inner)) [
  | none ↦ refuse_key not_a_uuid
  | some hex ↦ if length hex == 32 then ok (hyphenated hex) else refuse_key not_a_uuid
]

module _ (s : Texts) where
  utf8 : Bytes → Result Error Bytes
  utf8 bytes = if s.is_utf8 bytes then ok bytes else refuse_key not_utf8

  integer_text : ℕ → Bytes → Result Error Bytes
  unfolding utf8
  integer_text width bytes = do
    value ← utf8 bytes
    ok_or (Error.row_key_type not_an_integer) (s.parse_integer width (s.trim value))

  unfoldable pub uuid_from_text : Bytes → Result Error Bytes
  unfolding utf8
  uuid_from_text bytes = do value ← utf8 bytes; uuid_of (s.trim value)

  integer_binary : ℕ → Bytes → Result Error Bytes
  unfolding fixed
  integer_binary width bytes = do body ← fixed width bytes; ok (s.show_integer width body)

  unfoldable pub uuid_binary : Bytes → Result Error Bytes
  uuid_binary bytes = do body ← fixed 16 bytes; ok (hyphenated (s.hex_encode body))

  -- the match on the type and the format
  unfoldable pub canonical_text : ℕ → Format → Bytes → Result Error Bytes
  unfolding integer_text integer_binary utf8
  canonical_text oid text bytes =
      if oid == oid_int2
      then integer_text 2 bytes
      else if oid == oid_int4
      then integer_text 4 bytes
      else if oid == oid_int8
      then integer_text 8 bytes
      else if oid == oid_uuid
      then uuid_from_text bytes
      else if oid == oid_text || oid == oid_varchar
      then utf8 bytes
      else refuse_key unsupported_type
  canonical_text oid binary bytes =
      if oid == oid_text || oid == oid_varchar
      then utf8 bytes
      else if oid == oid_int2
      then integer_binary 2 bytes
      else if oid == oid_int4
      then integer_binary 4 bytes
      else if oid == oid_int8
      then integer_binary 8 bytes
      else if oid == oid_uuid
      then uuid_binary bytes
      else refuse_key unsupported_type

  unfoldable pub canonical : ℕ → Format → Option Bytes → Result Error RowKey
  canonical oid format none = refuse_key is_null
  canonical oid format (some bytes) = do
    value ← canonical_text oid format bytes
    ok (record { canonical = value })

  pub from_uuid : Bytes → Result Error RowKey
  from_uuid value = canonical oid_uuid text (some value)

  pub from_uuid_bytes : Bytes → RowKey
  from_uuid_bytes value = record { canonical = hyphenated (s.hex_encode value) }

pub from_text : Bytes → RowKey
from_text value = record { canonical = value }

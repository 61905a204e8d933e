-- ===== src/Proxy/Rows/Cells.antt =====
-- crates/proxy/src/rows.rs: one value of a DataRow, from what the wire carries to what the client is
-- shown. `hex` is another crate's.
use dbsec.Prelude.{
  ℕ, Bool, true, false, Option, none, some, List, [], ◌∷◌, ◌++◌, ◌==◌, if◌then◌else◌, length,
  get_elem?, Result, ok, err, ◌>>=◌, Bytes, codes, starts_with, drop,
}
use dbsec.Core
use dbsec.Core.{decrypt, row_key_missing, beyond_row}
use dbsec.Core.Envelope.{RowKey}
use dbsec.Core.Mask.{MaskSpec, Utf8, apply}
use dbsec.Core.RowKeys.{Texts, canonical}
use dbsec.Core.Transform.{WireForm, bytea, text}
use dbsec.Proxy.{Error, wire, row_binding_failed, ambiguous_row_instance}
use dbsec.Proxy.Params.{ResultFormats, for_column, value_format}
use dbsec.Proxy.Rows.{
  FieldTransform, RowKeyRef, absent, slot, ambiguous, type_changed, ReadColumn, Position,
}

-- `hex::encode` and `hex::decode(..).ok()`
pub record Hex : Type 0 where
  pub hex_encode : Bytes → Bytes
  pub hex_decode : Bytes → Option Bytes

abbrev pub hex_prefix : Bytes
hex_prefix = codes "\\x"

-- `raw.strip_prefix(b"\\x").and_then(|h| hex::decode(h).ok())`
unfoldable pub hex_decoded : Hex → Bytes → Option Bytes
hex_decoded hex raw = if starts_with raw hex_prefix then hex.hex_decode (drop 2 raw) else none

unfoldable pub decode_form : Hex → WireForm → Bytes → Bytes × Bool
unfolding hex_decoded
decode_form hex text raw = (raw, false)
decode_form hex bytea raw = elim (hex_decoded hex raw) [
  | some decoded ↦ (decoded, true)
  | none ↦ (raw, false)
]

unfoldable pub decode_wire : {S : Type 0} → Hex → FieldTransform S → Bytes → Bytes × Bool
unfolding decode_form
decode_wire hex transform raw = decode_form hex transform.wire raw

unfoldable pub hex_text_form : Hex → Bytes → Bytes
hex_text_form hex value = hex_prefix ++ hex.hex_encode value

-- The text in front of the last dot; `rsplit_once` is `none` where there is none.
unfoldable pub rsplit_once : Bytes → Option Bytes
rsplit_once [] = none
rsplit_once (c ∷ cs) = elim (rsplit_once cs) [
  | some before ↦ some (c ∷ before)
  | none ↦ if c == b'.' then some [] else none
]

unfoldable pub table_of : Bytes → Bytes
unfolding rsplit_once
table_of qualified = elim (rsplit_once qualified) [ none ↦ qualified | some table ↦ table ]

-- `values` are those of the row as they stand, `none` for a NULL.
read_row_key : Texts → ℕ → ℕ → ResultFormats → List (Option Bytes) → Result Error RowKey
read_row_key texts index type_oid formats values = elim (get_elem? values index) [
  | none ↦ err (wire (Core.Error.row_key_type (beyond_row index (length values))))
  | some raw ↦ elim (value_format (for_column formats index)) [
    | err e ↦ err (wire e)
    | ok format ↦ elim (canonical texts type_oid format raw) [
      | err e ↦ err (wire e)
      | ok key ↦ ok key
    ]
  ]
]

-- `key` is the field of that name where it is `ok` and the field `why` where it is `err`: of the
-- source's two options `read` fills exactly one.
pub record RowKeyOnce : Type 0 where
  pub index : ℕ
  pub key : Result Error RowKey

unfoldable pub read : Texts → ResultFormats → List (Option Bytes) → ℕ × ℕ → RowKeyOnce
unfolding read_row_key
read texts formats values (index, type_oid) = record {
  index = index;
  key = read_row_key texts index type_oid formats values;
}

-- `row_keys.iter().position(|once| once.index == *index)` for a slot, and the key found there
unfoldable pub find_key : ℕ → List RowKeyOnce → Option RowKeyOnce
find_key index [] = none
find_key index (k ∷ ks) =
    let later = find_key index ks in if k.index == index then some k else later

unfoldable pub key_at : RowKeyRef → List RowKeyOnce → Option RowKeyOnce
unfolding find_key
key_at (slot index type_oid) row_keys = find_key index row_keys
key_at absent row_keys = none
key_at (ambiguous table column) row_keys = none
key_at (type_changed table column oid resolved) row_keys = none

-- `masked.or(opened)`
unfoldable pub shown_value : Utf8 → Option MaskSpec → Bytes → Option Bytes → Option Bytes
shown_value utf8 none stored opened = opened
shown_value utf8 (some mask) stored none = some (apply utf8 mask stored)
shown_value utf8 (some mask) stored (some value) = some (apply utf8 mask value)

-- the replacement in the form that the value came in
unfoldable pub in_form : Hex → Bool → Option Bytes → Option Bytes
unfolding hex_text_form
in_form hex was_hex none = none
in_form hex was_hex (some value) = some (if was_hex then hex_text_form hex value else value)

module _ {S : Type 0} where
  unfoldable pub attribute_open_failure :
      Core.Error → ReadColumn S → ℕ → Option RowKey → Bool → Error
  unfolding table_of
  attribute_open_failure decrypt column position (some key) true =
      ambiguous_row_instance (table_of column.name) column.name
  attribute_open_failure decrypt column position (some key) false =
      row_binding_failed column.name key.canonical position
  attribute_open_failure error column position key repeated = wire error

  -- what a call of `open` gave, with an error attributed
  attributed :
      ReadColumn S
      → ℕ
      → Option RowKey
      → Bool
      → Result Core.Error (Option Bytes)
      → Result Error (Option Bytes)
  unfolding attribute_open_failure
  attributed column position key repeated (ok opened) = ok opened
  attributed column position key repeated (err e) =
      err (attribute_open_failure e column position key repeated)

  -- a missing key is reported by why it could not be read
  explained :
      ReadColumn S
      → ℕ
      → Bool
      → Error
      → Result Core.Error (Option Bytes)
      → Result Error (Option Bytes)
  unfolding attributed
  explained column position repeated why (err row_key_missing) = err why
  explained column position repeated why r = attributed column position none repeated r

  -- the match on the key of the value's row
  unfoldable pub open_at :
      FieldTransform S
      → ReadColumn S
      → ℕ
      → Bool
      → Option RowKeyOnce
      → Bytes
      → S
      → Result Error (Option Bytes) × S
  unfolding explained
  open_at transform column position repeated none stored s =
      let (r, s') = transform.open_stored stored none s in
      (attributed column position none repeated r, s')
  open_at transform column position repeated (some once) stored s = elim once.key [
    | ok key ↦
        let (r, s') = transform.open_stored stored (some key) s in
        (attributed column position (some key) repeated r, s')
    | err why ↦
        let (r, s') = transform.open_stored stored none s in
        (explained column position repeated why r, s')
  ]

  unfoldable pub shown_result :
      Hex
      → Utf8
      → Option MaskSpec
      → Bytes × Bool
      → Result Error (Option Bytes) × S
      → Result Error (Option Bytes) × S
  unfolding shown_value in_form
  shown_result hex utf8 mask (stored, was_hex) (r, s) =
      (do opened ← r; ok (in_form hex was_hex (shown_value utf8 mask stored opened)), s)

  -- What a value becomes: `none` leaves it as it is.
  unfoldable pub replacement_of :
      Hex
      → Utf8
      → List RowKeyOnce
      → (Bytes → Bool)
      → Position S
      → Bytes
      → S
      → Result Error (Option Bytes) × S
  unfolding shown_result
  replacement_of hex utf8 row_keys repeated p value s = elim p.column.transform [
    | none ↦ shown_result hex utf8 p.column.mask (value, false) (ok none, s)
    | some transform ↦
        let (stored, was_hex) = decode_wire hex transform value in
        shown_result hex utf8 p.column.mask (stored, was_hex)
          (open_at transform p.column p.index (repeated p.column.name) (key_at p.key row_keys)
            stored s)
  ]

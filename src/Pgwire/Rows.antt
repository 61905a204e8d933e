-- ===== src/Pgwire/Rows.antt =====
-- RowDescription and DataRow: `parse_row_description`, `parse_data_row` and `encode_data_row`.
pub mod DataRow
pub mod Description
mod Tests
use dbsec.Prelude.{ℕ, Option, List, ◌++◌, length, Result, ok, err, Bytes, be16, ℤ}
use dbsec.Pgwire.{Error}
use dbsec.Pgwire.Cursor.{
  Cursor, take, take_cstr, take_u32, take_i16, take_nullable, take_times, rounds, whole, push_all,
  wire_count, pure, ◌>>=◌, ◌>>◌,
}

pub record RowField : Type 0 where
  pub name : Bytes
  pub table_oid : ℕ
  pub attnum : ℤ
  pub type_oid : ℕ
  pub format : ℤ

-- The six bytes skipped are the type's length and modifier.
row_field : Cursor RowField
row_field = do
  name ← take_cstr
  table_oid ← take_u32
  attnum ← take_i16
  type_oid ← take_u32
  take 6
  format ← take_i16
  pure (record {
    name = name;
    table_oid = table_oid;
    attnum = attnum;
    type_oid = type_oid;
    format = format;
  })

row_fields : Cursor (List RowField)
unfolding row_field
row_fields = do count ← take_i16; take_times (rounds count) row_field

unfoldable pub parse_row_description : Bytes → Result Error (List RowField)
unfolding row_fields
parse_row_description = whole row_fields

data_row : Cursor (List (Option Bytes))
data_row = do count ← take_i16; take_times (rounds count) take_nullable

unfoldable pub parse_data_row : Bytes → Result Error (List (Option Bytes))
unfolding data_row
parse_data_row = whole data_row

unfoldable pub encode_data_row : List (Option Bytes) → Result Error Bytes
encode_data_row values = elim (wire_count (length values)) [
  | ok count ↦ push_all (be16 count) values
  | err e ↦ err e
]

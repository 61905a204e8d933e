-- ===== src/Pgwire/Rows/Description.antt =====
-- RowDescription bodies, against a description of the message by what the server writes.
use dbsec.Prelude.{
  ℕ, ◌^◌, ◌<◌, ◌≡◌, subst, List, [], ◌∷◌, ◌++◌, map, length, ok, err, Bytes, All, be16, be32,
  be_i16, IsI16,
}
use dbsec.Pgwire.{malformed_backend}
use dbsec.Pgwire.Cursor.{take, take_times, whole}
use dbsec.Pgwire.Cursor.Laws.{
  Reads, Reads-bind, Reads-map, Reads-pure, take_i16-be16, take_i16-be_i16, take_u32-be32,
  take_cstr-append, take-append, flat_map, whole-Reads, HasNoNul,
}
use dbsec.Pgwire.Rows.{RowField, parse_row_description, row_field}

-- One field as the server sends it: what the proxy keeps, and the type length and modifier.
pub record SentField : Type 0 where
  pub field : RowField
  pub skipped : Bytes

pub record IsSent (s : SentField) : Type 0 where
  pub name_has_no_nul : HasNoNul s.field.name
  pub table_oid_is_u32 : s.field.table_oid < 2 ^ 32
  pub attnum_is_i16 : IsI16 s.field.attnum
  pub type_oid_is_u32 : s.field.type_oid < 2 ^ 32
  pub format_is_i16 : IsI16 s.field.format
  pub six_skipped : length s.skipped ≡ 6

abbrev pub field_bytes : SentField → Bytes
field_bytes s =
    (s.field.name ++ 0 ∷ [])
    ++ (be32 s.field.table_oid
        ++ (be_i16 s.field.attnum
            ++ (be32 s.field.type_oid ++ (s.skipped ++ be_i16 s.field.format))))

abbrev pub description_bytes : List SentField → Bytes
description_bytes fs = be16 (length fs) ++ flat_map field_bytes fs

Reads-row_field : (s : SentField) → IsSent s → Reads row_field (field_bytes s) s.field
unfolding row_field
Reads-row_field s h = Reads-bind _ (take_cstr-append s.field.name h.name_has_no_nul) (
    Reads-bind _ (take_u32-be32 s.field.table_oid h.table_oid_is_u32) (
      Reads-bind _ (take_i16-be_i16 s.field.attnum h.attnum_is_i16) (
        Reads-bind _ (take_u32-be32 s.field.type_oid h.type_oid_is_u32) (
          Reads-bind _
            (subst (λ n. Reads (take n) s.skipped s.skipped) h.six_skipped (take-append s.skipped))
            (Reads-map _ (take_i16-be_i16 s.field.format h.format_is_i16))))))

Reads-fields :
    (fs : List SentField)
    → All IsSent fs
    → Reads (take_times (length fs) row_field) (flat_map field_bytes fs) (map (λ s. s.field) fs)
unfolding take_times
Reads-fields [] h = Reads-pure []
Reads-fields (s ∷ fs) h =
    Reads-bind _ (Reads-row_field s h.0) (Reads-map (λ ys. s.field ∷ ys) (Reads-fields fs h.1))

-- A RowDescription body with fewer than 2^15 fields, each as the server sends it, parses to the
-- fields in their order, whatever stands in the type lengths and modifiers.
pub parse_row_description_lem :
    (fs : List SentField)
    → length fs < 2 ^ 15
    → All IsSent fs
    → parse_row_description (description_bytes fs) ≡ ok (map (λ s. s.field) fs)
unfolding parse_row_description
parse_row_description_lem fs fits h =
    whole-Reads (Reads-bind _ (take_i16-be16 (length fs) fits) (Reads-fields fs h))

-- A body that is a description with bytes behind it is refused.
pub parse_row_description_trailing :
    (fs : List SentField) (b : ℕ) (rest : Bytes)
    → length fs < 2 ^ 15
    → All IsSent fs
    → parse_row_description (description_bytes fs ++ b ∷ rest) ≡ err malformed_backend
unfolding parse_row_description whole
parse_row_description_trailing fs b rest fits h =
    rw ((Reads-bind _ (take_i16-be16 (length fs) fits) (Reads-fields fs h)).at (b ∷ rest), whole)

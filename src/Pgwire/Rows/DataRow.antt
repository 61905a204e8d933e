-- ===== src/Pgwire/Rows/DataRow.antt =====
-- DataRow bodies of crates/pgwire/src/lib.rs: encoding and parsing.
use dbsec.Prelude.{
  IsBytes, pos, negsuc, refl, append-nil, ◌≢◌, ℤ, ap, ◌∙◌, [], ◌^◌, ◌<◌, ◌≡◌, ◌↔◌, refl, Option,
  List, ◌++◌, length, ok, Bytes, All, be16, arith, Result-cases, inl, inr,
}
use dbsec.Pgwire.Cursor.Exact.{
  take_i16-eq-ok, take_nullable-eq-ok, take_times-eq-ok, whole-eq-ok, >>=-eq-ok,
}
use dbsec.Pgwire.Cursor.{take_i16, take_times, rounds, take_nullable, wire_count}
use dbsec.Pgwire.Cursor.Laws.{
  Reads, Reads-bind, take_i16-be16, take_nullable-nullable_bytes, Reads-take_times, FitsI32,
  nullable_bytes, flat_map, whole-Reads, push_all-eq-ok, push_all-FitsI32, wire_count-eq-ok,
}
use dbsec.Pgwire.Rows.{parse_data_row, encode_data_row, data_row}

-- Exactly when a row can be encoded: an i16 counts its values, and an i32 each value's bytes.
abbrev pub FitsRow : List (Option Bytes) → Type 0
FitsRow values = (length values < 2 ^ 15) × All FitsI32 values

abbrev pub row_bytes : List (Option Bytes) → Bytes
row_bytes values = be16 (length values) ++ flat_map nullable_bytes values

encode_data_row-FitsRow :
    (values : List (Option Bytes)) → FitsRow values → encode_data_row values ≡ ok (row_bytes values)
unfolding encode_data_row
encode_data_row-FitsRow values h =
    rw (encode_data_row, (wire_count-eq-ok (length values) (length values)).1 (h.0, refl))
      (push_all-FitsI32 (be16 (length values)) values h.1)

FitsRow-encode_data_row :
    (values : List (Option Bytes)) {body : Bytes}
    → encode_data_row values ≡ ok body
    → FitsRow values
unfolding encode_data_row
FitsRow-encode_data_row values h = elim (Result-cases (wire_count (length values))) [
  | inl (count, e) ↦ (
    ((wire_count-eq-ok _ _).0 e).0,
    push_all-eq-ok (be16 count) values (rw (encode_data_row, e) at h),
  )
  | inr (e, p) ↦ ground (arith, p)
]

-- Encoding succeeds exactly for the rows whose count fits an i16 and whose values' lengths fit an
-- i32, and then gives the count followed by the length-prefixed values.
pub encode_data_row-eq-ok :
    (values : List (Option Bytes)) (body : Bytes)
    → (encode_data_row values ≡ ok body) ↔ (FitsRow values × (body ≡ row_bytes values))
encode_data_row-eq-ok values body = (
  λ h.
      let fits = FitsRow-encode_data_row values h in
      (fits, cc (h, encode_data_row-FitsRow values fits)),
  λ h. rw h.1 (encode_data_row-FitsRow values h.0),
)

Reads-row_bytes :
    (values : List (Option Bytes)) → FitsRow values → Reads data_row (row_bytes values) values
unfolding data_row
Reads-row_bytes values h =
    Reads-bind _ (take_i16-be16 (length values) h.0) (
      Reads-take_times take_nullable nullable_bytes FitsI32 take_nullable-nullable_bytes values h.1)

-- A DataRow body that was encoded parses to the values that were encoded.
pub parse_data_row-encode_data_row :
    (values : List (Option Bytes)) {body : Bytes}
    → encode_data_row values ≡ ok body
    → parse_data_row body ≡ ok values
unfolding parse_data_row
parse_data_row-encode_data_row values {body} h =
    let (fits, e) = (encode_data_row-eq-ok values body).0 h in
    rw e (whole-Reads (Reads-row_bytes values fits))

data_row_bytes :
    (z : ℤ) (body mid : Bytes) {values : List (Option Bytes)}
    → IsBytes body
    → take_i16 body ≡ ok (z, mid)
    → take_times (rounds z) take_nullable mid ≡ ok (values, [])
    → values ≢ []
    → FitsRow values × (body ≡ row_bytes values)
data_row_bytes (pos n) body mid {values} b e more h =
    let count = take_i16-eq-ok body b e in
    let rows =
      take_times-eq-ok take_nullable nullable_bytes FitsI32
        (λ buf o rest. take_nullable-eq-ok buf {o = o} {rest = rest}) n mid count.2 more in
    rw rows.2 ((count.1, rows.1), count.0 ∙ ap (λ (m : Bytes). be16 n ++ m) (rows.0 ∙ append-nil _))
data_row_bytes (negsuc n) body mid b e more h = absurd (h (unfold take_times in ground arith))

-- A DataRow body with at least one value that parses has one form only: encoding its values gives
-- the same bytes back.
pub encode_data_row-parse_data_row :
    (body : Bytes) {values : List (Option Bytes)}
    → IsBytes body
    → parse_data_row body ≡ ok values
    → values ≢ []
    → encode_data_row values ≡ ok body
unfolding parse_data_row
encode_data_row-parse_data_row body {values} b h ne =
    let (z, mid, e, more) =
      >>=-eq-ok take_i16 (λ z. take_times (rounds z) take_nullable) body
        (whole-eq-ok data_row body h) in
    (encode_data_row-eq-ok values body).1 (data_row_bytes z body mid b e more ne)

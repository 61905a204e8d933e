-- ===== src/Pgwire/Rows/Tests.antt =====
-- Runs of the row parsers, and the theorems on them at concrete rows.
use dbsec.Prelude.{◌≡◌, refl, ◌++◌, none, some, Option, List, [], ◌∷◌, ok, err, Bytes, codes, pos}
use dbsec.Pgwire.{malformed_backend}
use dbsec.Pgwire.Cursor.{take_i16, take_times, take_nullable, push_all, wire_count, whole}
use dbsec.Pgwire.Rows.{parse_data_row, encode_data_row}
use dbsec.Pgwire.Rows.Description.{SentField}

abbrev values : List (Option Bytes)
values = some (codes "ab") ∷ none ∷ []

abbrev body : Bytes
body = 0 ∷ 2 ∷ 0 ∷ 0 ∷ 0 ∷ 2 ∷ b'a' ∷ b'b' ∷ 255 ∷ 255 ∷ 255 ∷ 255 ∷ []

encode-values : encode_data_row values ≡ ok body
unfolding encode_data_row push_all wire_count
encode-values = refl

parse-body : parse_data_row body ≡ ok values
unfolding parse_data_row whole take_i16 take_times take_nullable
parse-body = refl

-- Trailing bytes, a length of -2 and a missing value are refused; a negative count is no value.
data_row_runs :
    (parse_data_row (body ++ 0 ∷ []) ≡ err malformed_backend)
    × (parse_data_row (0 ∷ 1 ∷ 255 ∷ 255 ∷ 255 ∷ 254 ∷ []) ≡ err malformed_backend)
    × (parse_data_row (0 ∷ 1 ∷ []) ≡ err malformed_backend)
    × (parse_data_row (255 ∷ 255 ∷ []) ≡ ok [])
unfolding parse_data_row whole take_i16 take_times take_nullable
data_row_runs = (refl, refl, refl, refl)

abbrev email : SentField
email = record {
  field = record {
    name = codes "email";
    table_oid = 16384;
    attnum = pos 2;
    type_oid = 17;
    format = pos 1;
  };
  skipped = 255 ∷ 255 ∷ 255 ∷ 255 ∷ 255 ∷ 255 ∷ [];
}

-- ===== src/Proxy/Rows/Decrypt.antt =====
-- `RowDecryptor::decrypt_row` of crates/proxy/src/rows.rs: the values of a row in the order of
-- their positions, and the row that is sent on.
use dbsec.Prelude.{
  ℕ, zero, suc, Bool, true, false, Option, none, some, List, [], ◌∷◌, ◌++◌, ◌==◌, ltb,
  if◌then◌else◌, length, get_elem?, map, Result, ok, err, ◌>>=◌, ◌>>◌, Bytes, bytes_eq,
}
use dbsec.Core
use dbsec.Core.Mask.{Utf8, usize_add, usize_sub}
use dbsec.Core.RowKeys.{Texts}
use dbsec.Pgwire.Rows.{parse_data_row, encode_data_row}
use dbsec.Proxy.{Error, wire, pgwire, frame_too_large, protected_value_too_large, ambiguous_row_key}
use dbsec.Proxy.Params.{ResultFormats}
use dbsec.Proxy.Rows.{RowKeyRef, absent, slot, ambiguous, type_changed, Position, any}
use dbsec.Proxy.Rows.Cells.{Hex, RowKeyOnce, read, replacement_of}

pub record Bounds : Type 0 where
  pub max_value : ℕ
  pub max_body : ℕ

abbrev pub Values : Type 0
Values = List (Option Bytes)

-- What std and other crates do with texts.
pub record Libraries : Type 0 where
  pub hex : Hex
  pub utf8 : Utf8
  pub texts : Texts

unfoldable pub check_key : RowKeyRef → Result Error (Unit {0})
check_key (ambiguous table column) = err (ambiguous_row_key table column)
check_key (type_changed table column oid resolved) =
    err (wire (Core.Error.row_key_type (Core.RowKeyFault.type_changed table column oid resolved)))
check_key absent = ok tt
check_key (slot index type_oid) = ok tt

-- `values.get_mut(position)` written through
unfoldable pub set_value : Values → ℕ → Option Bytes → Values
set_value [] at v = []
set_value (x ∷ xs) zero v = v ∷ xs
set_value (x ∷ xs) (suc at) v = x ∷ set_value xs at v

unfoldable pub contains : Bytes → List Bytes → Bool
unfolding any
contains name = any (bytes_eq name)

-- `fold` over the names with the sets of those seen and of those seen again
unfoldable pub repeated_from : List Bytes → List Bytes → List Bytes → List Bytes
unfolding contains
repeated_from seen twice [] = twice
repeated_from seen twice (name ∷ names) =
    let again = contains name seen in
    repeated_from (if again then seen else name ∷ seen) (if again then name ∷ twice else twice)
      names

-- the row as the loop has it: its values, the length its body would have, and whether it changed
pub record Row : Type 0 where
  pub values : Values
  pub projected : ℕ
  pub changed : Bool

unfoldable pub replace : Bounds → ℕ → Bytes → Bytes → Row → Result Error Row
unfolding set_value usize_add usize_sub
replace bounds at value replacement row =
    let projected = usize_add (usize_sub row.projected (length value)) (length replacement) in
    if ltb bounds.max_body projected
    then err (frame_too_large b'D' projected bounds.max_body)
    else ok (record {
      values = set_value row.values at (some replacement);
      projected = projected;
      changed = true;
    })

unfoldable pub replace_with : Bounds → ℕ → Bytes → Option Bytes → Row → Result Error Row
unfolding replace
replace_with bounds at value none row = ok row
replace_with bounds at value (some replacement) row = replace bounds at value replacement row

-- the value at a position, if the row has one that is not NULL
unfoldable pub value_at : Values → ℕ → Option Bytes
value_at values at = elim (get_elem? values at) [ none ↦ none | some value ↦ value ]

add_slot : List (ℕ × ℕ) → RowKeyRef → List (ℕ × ℕ)
unfolding any
add_slot slots (slot index type_oid) =
    if any (λ (seen : ℕ × ℕ). seen.0 == index) slots then slots else slots ++ (index, type_oid) ∷ []
add_slot slots key = slots

-- `none` if nothing changed; the error of the encoder is the protocol's
unfoldable pub encoded : Result Error Row → Result Error (Option Bytes)
encoded (err e) = err e
encoded (ok row) =
    if row.changed
    then elim (encode_data_row row.values) [ ok body ↦ ok (some body) | err e ↦ err (pgwire e) ]
    else ok none

module _ {S : Type 0} where
  unfoldable pub check_keys : List (Position S) → Result Error (Unit {0})
  unfolding check_key
  check_keys [] = ok tt
  check_keys (p ∷ ps) = check_key p.key >> check_keys ps

  unfoldable pub repeated_names : List (Position S) → List Bytes
  unfolding repeated_from
  repeated_names positions = repeated_from [] [] (map (λ (p : Position S). p.column.name) positions)

  slots_from : List (ℕ × ℕ) → List (Position S) → List (ℕ × ℕ)
  unfolding add_slot
  slots_from slots [] = slots
  slots_from slots (p ∷ ps) = slots_from (add_slot slots p.key) ps

  unfoldable pub distinct_slots : List (Position S) → List (ℕ × ℕ)
  unfolding slots_from
  distinct_slots positions = slots_from [] positions

  module _ (libs : Libraries) (bounds : Bounds) (row_keys : List RowKeyOnce)
      (repeated : List Bytes) where
    -- One round of the loop.
    unfoldable pub round : Position S → Row → S → Result Error Row × S
    unfolding value_at contains replace_with
    round p row s = elim (value_at row.values p.index) [
      | none ↦ (ok row, s)
      | some value ↦
          if ltb bounds.max_value (length value)
          then (err (protected_value_too_large p.index (length value) bounds.max_value), s)
          else let (r, s') =
              replacement_of libs.hex libs.utf8 row_keys (λ name. contains name repeated) p value
                s in
            (do replacement ← r; replace_with bounds p.index value replacement row, s')
    ]

    unfoldable pub rounds : List (Position S) → Row → S → Result Error Row × S
    rounds [] row s = (ok row, s)
    rounds (p ∷ ps) row s =
        let (r, s') = round p row s in elim r [ ok row' ↦ rounds ps row' s' | err e ↦ (err e, s') ]

  unfoldable pub decrypt_values :
      Libraries
      → Bounds
      → ResultFormats
      → List (Position S)
      → Bytes
      → Values
      → S
      → Result Error (Option Bytes) × S
  unfolding rounds encoded repeated_names distinct_slots
  decrypt_values libs bounds formats positions body values s =
      let row_keys = map (read libs.texts formats values) (distinct_slots positions) in
      let (r, s') =
        rounds libs bounds row_keys (repeated_names positions) positions
          (record { values = values; projected = length body; changed = false }) s in
      (encoded r, s')

  unfoldable pub decrypt_row :
      Libraries
      → Bounds
      → ResultFormats
      → List (Position S)
      → Bytes
      → S
      → Result Error (Option Bytes) × S
  unfolding check_keys decrypt_values
  decrypt_row libs bounds formats positions body s = elim (check_keys positions) [
    | err e ↦ (err e, s)
    | ok checked ↦ elim (parse_data_row body) [
      | err e ↦ (err (pgwire e), s)
      | ok values ↦ decrypt_values libs bounds formats positions body values s
    ]
  ]

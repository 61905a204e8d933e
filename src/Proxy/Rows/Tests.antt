-- ===== src/Proxy/Rows/Tests.antt =====
-- Rows of crates/proxy/src/rows.rs, and the theorems on them at a concrete session. Hex digits are
-- the bytes themselves here, and texts are ASCII.
use mathlib.Core.List.{Memᴰ}
use dbsec.Prelude.{
  ◌≡◌, refl, Bool, true, Option, none, some, List, [], ◌∷◌, ◌++◌, ok, Bytes, All, codes, bytes_eq,
  starts_with,
}
use dbsec.Core.Crypto.Toy.{toy, toy-IsAead, toy_decrypt, toy_hmac}
use dbsec.Core.BlindIndex.{split}
use dbsec.Core.Cipher.{with_budget, decrypt, stored_aad, is_strict_row}
use dbsec.Core.Ciphers.{open_value, for_id, lookup}
use dbsec.Core.Envelope.{CellContext, is_enveloped, key_id, aad_with_row}
use dbsec.Core.Transform
use dbsec.Core.Transform.{enveloped_part}
use dbsec.Core.Mask.{MaskSpec, usize_add, usize_sub, apply, apply_chars, shown_from, shown}
use dbsec.Core.RowKeys.{oid_text, canonical, canonical_text}
use dbsec.Core.Samples.{
  id_one, id_two, nonce, email, row_seven, key_of, source, source-Agrees_one, empty-IsCached, cold,
  warm, warm-IsCached, source-Agrees_two, searchable_column, stored_index, seal_value-searchable,
}
use dbsec.Pgwire.Cursor.{push_all, wire_count, whole, take_i16, take_times, take_nullable}
use dbsec.Pgwire.Rows.{parse_data_row, encode_data_row}
use dbsec.Pgwire.Rows.DataRow.{row_bytes, parse_data_row-encode_data_row}
use dbsec.Proxy.Params.{TransformId, for_column, value_format}
use dbsec.Proxy.Rows.{Position, slot, absent, any, covers}
use dbsec.Proxy.Rows.Cells.{
  hex_text_form, read, find_key, key_at, replacement_of, decode_wire, decode_form, hex_decoded,
  open_at, shown_result, shown_value, in_form,
}
use dbsec.Proxy.Rows.Decrypt.{
  Libraries, Bounds, Values, decrypt_row, decrypt_values, check_keys, check_key, repeated_names,
  repeated_from, contains, distinct_slots, rounds, round, value_at, set_value, replace,
  replace_with, encoded,
}
use dbsec.Proxy.Rows.Columns.{Store, Keyring, encrypting, IsKeyed, encrypting-Keeps}
use dbsec.Proxy.Rows.Kept.{Keeps}
use dbsec.Proxy.Rows.Rederived.{Distinct}
use dbsec.Proxy.Rows.Shown.{Sends, decrypt_row-Sends}
use dbsec.Proxy.Rows.Opened.{form, decrypt_row-masked, decrypt_row-seal_value}

abbrev pub libs : Libraries
libs = record {
  hex = record { hex_encode = λ b. b; hex_decode = λ b. some b };
  utf8 = record { decode_text = λ b. some b; encode_text = λ c. c };
  texts = record {
    is_utf8 = λ t. true;
    trim = λ t. t;
    parse_integer = λ width t. some t;
    show_integer = λ width b. b;
    hex_encode = λ b. b;
  };
}

abbrev pub keyring : Keyring
keyring = record {
  mac = toy_hmac;
  gcm = toy;
  keys = source id_two;
  later = source id_two;
  next_nonce = λ n. n;
}

abbrev pub contexts : TransformId → CellContext
contexts at = email

abbrev pub store : Store
store = record { transforms = λ at. searchable_column; ciphers = warm; nonce = nonce }

pub store-IsKeyed : IsKeyed key_of contexts store
store-IsKeyed = record { cached = warm-IsCached; in_place = λ at. refl }

abbrev pub email_position : Position Store
email_position = record {
  index = 1;
  column = record {
    name = codes "u.email";
    transform = some (encrypting keyring 0 true);
    mask = none;
  };
  key = slot 0 oid_text;
}

abbrev stars : MaskSpec
stars = record { keep_first = 0; keep_last = 2; mask_with = b'*' }

abbrev pub phone_position : Position Store
phone_position = record {
  index = 2;
  column = record { name = codes "u.phone"; transform = none; mask = some stars };
  key = absent;
}

abbrev pub positions : List (Position Store)
positions = email_position ∷ phone_position ∷ []

abbrev pub stored_row : Values
stored_row = some (codes "7") ∷ some (codes "\\x" ++ stored_index) ∷ some (codes "5550142") ∷ []

abbrev pub shown_row : Values
shown_row = some (codes "7") ∷ some (codes "\\xhi") ∷ some (codes "*****42") ∷ []

abbrev bounds : Bounds
bounds = record { max_value = 4096; max_body = 1073741820 }

encode-stored_row : encode_data_row stored_row ≡ ok (row_bytes stored_row)
unfolding encode_data_row push_all wire_count
encode-stored_row = refl

pub parse-stored_row : parse_data_row (row_bytes stored_row) ≡ ok stored_row
parse-stored_row = parse_data_row-encode_data_row stored_row encode-stored_row

abbrev sent_row : Option Bytes
sent_row = some (row_bytes shown_row)

pub decrypt-stored_row :
    (decrypt_row libs bounds none positions (row_bytes stored_row) store).0 ≡ ok sent_row
unfolding decrypt_row decrypt_values check_keys check_key repeated_names repeated_from contains any
    distinct_slots rounds round value_at set_value replace replace_with read find_key key_at
    replacement_of decode_wire decode_form hex_decoded open_at shown_result shown_value in_form
    hex_text_form encoded usize_add usize_sub apply apply_chars shown_from shown canonical
    canonical_text for_column value_format encrypting Transform.open_stored enveloped_part split
    is_enveloped starts_with open_value key_id for_id lookup with_budget decrypt toy_decrypt
    stored_aad is_strict_row aad_with_row bytes_eq parse_data_row encode_data_row push_all
    wire_count whole take_i16 take_times take_nullable
decrypt-stored_row = refl

pub encrypting-Keeps-All :
    All (λ (q : Position Store). Keeps (IsKeyed key_of contexts) q.column.transform) positions
encrypting-Keeps-All = (encrypting-Keeps keyring key_of contexts 0 true source-Agrees_two, (tt, tt))

pub positions-Distinct : Distinct positions
unfolding covers any
positions-Distinct = (refl, (refl, tt))

decrypt_row-Sends_example :
    Sends
      (IsKeyed key_of contexts)
      libs
      bounds
      none
      positions
      (row_bytes stored_row)
      (row_bytes shown_row)
decrypt_row-Sends_example =
    decrypt_row-Sends (IsKeyed key_of contexts) libs bounds none positions (row_bytes stored_row)
      store positions-Distinct encrypting-Keeps-All store-IsKeyed decrypt-stored_row

decrypt_row-masked_example :
    (row : Values) × (parse_data_row (row_bytes shown_row) ≡ ok row)
    × (x : Bytes) × (was_hex : Bool) × (value_at row 2
        ≡ some (form libs.hex was_hex (apply libs.utf8 stars x)))
unfolding value_at
decrypt_row-masked_example =
    decrypt_row-masked (IsKeyed key_of contexts) libs bounds none positions phone_position stars
      (codes "5550142") (row_bytes stored_row) stored_row store positions-Distinct
      encrypting-Keeps-All store-IsKeyed (Memᴰ.tail (Memᴰ.head refl)) refl parse-stored_row refl
      decrypt-stored_row

decrypt_row-seal_value_example :
    (row : Values) × (parse_data_row (row_bytes shown_row) ≡ ok row)
    × (value_at row 1 ≡ some (hex_text_form libs.hex (codes "hi")))
unfolding value_at hex_text_form key_at find_key read distinct_slots any for_column value_format
    canonical canonical_text
decrypt_row-seal_value_example =
    decrypt_row-seal_value keyring toy-IsAead key_of contexts libs bounds none positions
      (source id_one) (source id_one) searchable_column email_position 0 true row_seven 0
      (codes "hi") nonce (row_bytes stored_row) cold stored_row store source-Agrees_one
      source-Agrees_one source-Agrees_two (λ i. refl) (empty-IsCached 4) refl refl refl
      seal_value-searchable refl positions-Distinct encrypting-Keeps-All store-IsKeyed
      (Memᴰ.head refl) refl refl refl parse-stored_row refl decrypt-stored_row

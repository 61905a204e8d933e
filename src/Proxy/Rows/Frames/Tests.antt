-- ===== src/Proxy/Rows/Frames/Tests.antt =====
-- Frames of a session, and the theorems on the read path at a concrete one.
use dbsec.Prelude.{
  ◌≡◌, refl, get_elem?, true, false, none, some, List, [], ◌∷◌, ◌==◌, ◌&&◌, map, ok, Bytes, codes,
  bytes_eq, pos, if◌then◌else◌, arith,
}
use dbsec.Pgwire.Rows.{parse_row_description}
use dbsec.Pgwire.Rows.Description.{SentField, description_bytes, parse_row_description_lem}
use dbsec.Proxy.{relay, reject}
use dbsec.Proxy.Portals.{no_session}
use dbsec.Proxy.Rows.{
  Field, Resolved, ResolvedRowKey, Described, slot, int_eq, enumerate_from, filter, filter_map, any,
  covers, key_fields, key_ref, row_key_ref, protected_field, protected, new_described,
}
use dbsec.Proxy.Rows.Columns.{Store}
use dbsec.Proxy.Rows.KeyRef.{is_key, occurrences, row_key_ref-slot}
use dbsec.Proxy.Rows.Frames.{
  Texts, RowContext, RowDecryptor, on_frame, inspect, row_description, described_next, field_of,
  check_for_stale_mapping, first_computed, first_suspect, is_uncovered, named_like_protected,
  check_computed, check_suspect, action_of,
}
use dbsec.Proxy.Rows.Frames.FailClosed.{on_frame-RowDescription}
use dbsec.Proxy.Rows.Tests.{libs, store, email_position, positions}

abbrev pub texts : Texts
texts = record { libs = libs; message = λ e. codes "refused"; lowercase = λ name. some name }

abbrev id_key : ResolvedRowKey
id_key = record { attnum = pos 1; type_oid = 25; name = codes "id"; table = codes "u" }

abbrev resolved : Resolved Store
resolved = record {
  columns = λ oid attnum.
      if oid == 16384 && int_eq attnum (pos 2) then some email_position.column else none;
  names = λ name. bytes_eq name (codes "email");
  positions = λ name. none;
  row_keys = λ oid. if oid == 16384 then some id_key else none;
  row_key_by_table = λ schema table. none;
  generation = 0;
}

abbrev context : RowContext Store
context = record {
  resolved = resolved;
  published = 0;
  on_unprotected = reject;
  max_protected_value_len = 4096;
  refresh = false;
}

abbrev described_row : Described Store
described_row = record { generation = 0; fields = []; columns = positions }

abbrev pub session : RowDecryptor Store
session = record {
  ctx = context;
  portals = no_session (Described Store);
  described = some described_row;
  warned_stale = false;
  warned_computed = false;
  warned_function_call = false;
  keys = store;
}

abbrev id_field : Field
id_field = record { table_oid = 16384; attnum = pos 1; type_oid = 25 }

abbrev email_field : Field
email_field = record { table_oid = 16384; attnum = pos 2; type_oid = 17 }

abbrev fields : List Field
fields = id_field ∷ email_field ∷ []

slot-fields : row_key_ref resolved 16384 fields ≡ slot 0 25
unfolding row_key_ref key_fields key_ref filter enumerate_from int_eq
slot-fields = refl

row_key_ref-slot_example :
    (declared : ResolvedRowKey) × (g : Field) × (resolved.row_keys 16384 ≡ some declared)
    × (get_elem? fields 0 ≡ some g)
    × (is_key 16384 declared g ≡ true)
    × (g.type_oid ≡ 25)
    × (declared.type_oid ≡ 25)
    × (occurrences (is_key 16384 declared) fields ≡ 1)
row_key_ref-slot_example = row_key_ref-slot resolved 16384 fields 0 25 slot-fields

abbrev described_before : Described Store
described_before = record { generation = 0; fields = fields; columns = positions }

abbrev sent_email : SentField
sent_email = record {
  field = record {
    name = codes "email";
    table_oid = 16384;
    attnum = pos 2;
    type_oid = 17;
    format = pos 0;
  };
  skipped = 255 ∷ 255 ∷ 255 ∷ 255 ∷ 255 ∷ 255 ∷ [];
}

abbrev description : Bytes
description = description_bytes (sent_email ∷ [])

parse-description : parse_row_description description ≡ ok (sent_email.field ∷ [])
parse-description = parse_row_description_lem (sent_email ∷ []) (omega arith) (omega arith, tt)

relays-body :
    (body : Bytes)
    → parse_row_description body ≡ ok (sent_email.field ∷ [])
    → (on_frame texts b'T' body session).0 ≡ ok relay
unfolding on_frame inspect row_description described_next check_for_stale_mapping first_computed
    first_suspect is_uncovered named_like_protected check_computed check_suspect action_of field_of
    new_described protected protected_field filter_map enumerate_from filter covers any int_eq
    bytes_eq
relays-body body h = rw (row_description, h) refl

relays-description : (on_frame texts b'T' description session).0 ≡ ok relay
relays-description = relays-body description parse-description

on_frame-RowDescription_example :
    covers 0 (new_described resolved (map field_of (sent_email.field ∷ []))).columns ≡ true
unfolding named_like_protected bytes_eq
on_frame-RowDescription_example =
    on_frame-RowDescription texts description description (sent_email.field ∷ []) sent_email.field 0
      session refl relays-description refl parse-description refl refl

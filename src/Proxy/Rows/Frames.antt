-- ===== src/Proxy/Rows/Frames.antt =====
-- `RowDecryptor::on_frame` of crates/proxy/src/rows.rs: one backend frame of one session. The context
-- that the sessions share is a field, the log is left out, and the text of an error is `message`.
pub mod FailClosed
pub mod Received
pub mod Tests
use dbsec.Prelude.{
  ℕ, ◌-◌, Bool, true, false, not, ◌&&◌, ◌||◌, Option, none, some, List, [], ◌∷◌, ◌++◌, ◌==◌,
  if◌then◌else◌, map, Result, ok, err, ◌>>=◌, Bytes, codes,
}
use dbsec.Core
use dbsec.Core.{row_key_missing, row_binding_downgraded}
use dbsec.Pgwire
use dbsec.Pgwire.{max_message_len}
use dbsec.Pgwire.Rows.{RowField, parse_row_description}
use dbsec.Proxy.{
  Error, undescribed_row, function_call_result, stale_column_map, protected_value_too_large,
  computed_protected_column, frame_too_large, ambiguous_row_key, ambiguous_row_instance, wire,
  pgwire, FrameAction, relay, replace_body, refuse_and_close, OnUnprotected, warn, reject,
}
use dbsec.Proxy.Params.{ResultFormats}
use dbsec.Proxy.Portals
use dbsec.Proxy.Portals.{Tracked, RowSource, from_portal, last_description, undescribed}
use dbsec.Proxy.Portals.Answers
use dbsec.Proxy.Portals.Answers.{
  describe_answered, no_data, row_source, execute_answered, batch_answered,
}
use dbsec.Proxy.Responses.{error_response}
use dbsec.Proxy.Rows.{
  Field, Position, Resolved, Described, nothing_described, enumerate_from, filter, new_described,
  rederived, covers,
}
use dbsec.Proxy.Rows
use dbsec.Proxy.Rows.Decrypt.{Libraries, Bounds, decrypt_row}

-- `message` is an error's text with the words in front of it, and `lowercase` is
-- `str::from_utf8(..)` followed by `to_lowercase`.
pub record Texts : Type 0 where
  pub libs : Libraries
  pub message : Error → Bytes
  pub lowercase : Bytes → Option Bytes

unfoldable pub is_refusal : Error → Bool
is_refusal undescribed_row = true
is_refusal function_call_result = true
is_refusal (stale_column_map column oid) = true
is_refusal (computed_protected_column column) = true
is_refusal (protected_value_too_large position len max) = true
is_refusal (frame_too_large msg_type len max) = true
is_refusal (ambiguous_row_key table column) = true
is_refusal (ambiguous_row_instance table column) = true
is_refusal (wire row_key_missing) = true
is_refusal (wire (Core.Error.row_key_type fault)) = true
is_refusal (wire row_binding_downgraded) = true
is_refusal _ = false

unfoldable pub field_of : RowField → Field
field_of f = record { table_oid = f.table_oid; attnum = f.attnum; type_oid = f.type_oid }

unfoldable pub is_completion : ℕ → Bool
is_completion msg_type =
    (msg_type == b'C' || msg_type == b'I') || (msg_type == b's' || msg_type == b'E')

unfoldable pub action_of : Texts → Result Error (Option Bytes) → Result Error FrameAction
unfolding is_refusal
action_of texts (ok none) = ok relay
action_of texts (ok (some body)) = ok (replace_body body)
action_of texts (err e) =
    if is_refusal e then ok (refuse_and_close (error_response (texts.message e))) else err e

module _ (S : Type 0) where
  -- `published` is the atomic beside the map, which `publish` stores after the map.
  pub record RowContext : Type 0 where
    pub resolved : Resolved S
    pub published : ℕ
    pub on_unprotected : OnUnprotected
    pub max_protected_value_len : ℕ
    pub refresh : Bool

  -- `keys` is what the transforms keep.
  pub record RowDecryptor : Type 0 where
    pub ctx : RowContext
    pub portals : Tracked (Described S)
    pub described : Option (Described S)
    pub warned_stale : Bool
    pub warned_computed : Bool
    pub warned_function_call : Bool
    pub keys : S

module _ {S : Type 0} where
  unfoldable pub new_context : Resolved S → OnUnprotected → ℕ → RowContext S
  new_context resolved on_unprotected max = record {
    resolved = record resolved { generation = 0 };
    published = 0;
    on_unprotected = on_unprotected;
    max_protected_value_len = max;
    refresh = false;
  }

  -- `publish` in its two steps: the map, then the generation.
  unfoldable pub publish_map : Resolved S → RowContext S → RowContext S
  publish_map replacement ctx = record ctx { resolved = Rows.publish replacement ctx.resolved }

  unfoldable pub publish_generation : RowContext S → RowContext S
  publish_generation ctx = record ctx { published = ctx.resolved.generation }

  unfoldable pub decryptor : RowContext S → Tracked (Described S) → S → RowDecryptor S
  decryptor ctx portals keys = record {
    ctx = ctx;
    portals = portals;
    described = none;
    warned_stale = false;
    warned_computed = false;
    warned_function_call = false;
    keys = keys;
  }

  unfoldable pub named_like_protected : Texts → Resolved S → RowField → Bool
  named_like_protected texts resolved field = elim (texts.lowercase field.name) [
    | none ↦ false
    | some name ↦ resolved.names name
  ]

  -- a field that no position covers, named like a protected column
  unfoldable pub is_uncovered : Texts → Resolved S → List (Position S) → ℕ × RowField → Bool
  unfolding named_like_protected
  is_uncovered texts resolved columns (index, field) =
      not (covers index columns) && named_like_protected texts resolved field

  -- `find` of the first such field with no table, and with one
  unfoldable pub first_computed :
      Texts → Resolved S → List (Position S) → List RowField → List (ℕ × RowField)
  unfolding filter enumerate_from is_uncovered
  first_computed texts resolved columns fields =
      filter (λ (e : ℕ × RowField). e.1.table_oid == 0 && is_uncovered texts resolved columns e)
        (enumerate_from 0 fields)

  unfoldable pub first_suspect :
      Texts → Resolved S → List (Position S) → List RowField → List (ℕ × RowField)
  unfolding filter enumerate_from is_uncovered
  first_suspect texts resolved columns fields =
      filter
        (λ (e : ℕ × RowField). not (e.1.table_oid == 0) && is_uncovered texts resolved columns e)
        (enumerate_from 0 fields)

  check_suspect : List (ℕ × RowField) → RowDecryptor S → Result Error (Unit {0}) × RowDecryptor S
  check_suspect [] d = (ok tt, d)
  check_suspect ((index, field) ∷ rest) d =
      let d' = record d { ctx = record d.ctx { refresh = true } } in
      elim d.ctx.on_unprotected [
        | reject ↦ (err (stale_column_map field.name field.table_oid), d')
        | warn ↦ (ok tt, record d' { warned_stale = true })
      ]

  check_computed :
      List (ℕ × RowField)
      → List (ℕ × RowField)
      → RowDecryptor S
      → Result Error (Unit {0}) × RowDecryptor S
  unfolding check_suspect
  check_computed [] suspects d = check_suspect suspects d
  check_computed ((index, field) ∷ rest) suspects d = elim d.ctx.on_unprotected [
    | reject ↦ (err (computed_protected_column field.name), d)
    | warn ↦ check_suspect suspects (record d { warned_computed = true })
  ]

  unfoldable pub check_for_stale_mapping :
      Texts
      → List RowField
      → Resolved S
      → Described S
      → RowDecryptor S
      → Result Error (Unit {0}) × RowDecryptor S
  unfolding check_computed
  check_for_stale_mapping texts fields resolved positions d =
      check_computed (first_computed texts resolved positions.columns fields)
        (first_suspect texts resolved positions.columns fields) d

  unfoldable pub function_call_answer :
      RowDecryptor S → Result Error (Option Bytes) × RowDecryptor S
  function_call_answer d = elim d.ctx.on_unprotected [
    | reject ↦ (err function_call_result, d)
    | warn ↦ (ok none, record d { warned_function_call = true })
  ]

  unfoldable pub current : Described S → RowDecryptor S → Described S × RowDecryptor S
  unfolding rederived
  current positions d =
      if positions.generation == d.ctx.published
      then (positions, d)
      else let refreshed = rederived positions d.ctx.resolved in
        (refreshed, record d { portals = Answers.rederived refreshed d.portals })

  read_values :
      Texts
      → Bytes
      → Described S × ResultFormats
      → RowDecryptor S
      → Result Error (Option Bytes) × RowDecryptor S
  read_values texts body (positions, formats) d = elim positions.columns [
    | [] ↦ (ok none, d)
    | p ∷ ps ↦
        let bounds : Bounds = record {
          max_value = d.ctx.max_protected_value_len;
          max_body = max_message_len - 4;
        } in
        let (r, s) = decrypt_row texts.libs bounds formats (p ∷ ps) body d.keys in
        (r, record d { keys = s })
  ]

  -- what a DataRow is read by
  unfoldable pub data_row :
      Texts
      → Bytes
      → RowSource (Described S)
      → RowDecryptor S
      → Result Error (Option Bytes) × RowDecryptor S
  unfolding read_values
  data_row texts body (from_portal positions formats) d =
      let (positions', d') = current positions d in read_values texts body (positions', formats) d'
  data_row texts body last_description d = elim d.described [
    | none ↦ (err undescribed_row, d)
    | some positions ↦ read_values texts body (positions, none) d
  ]
  data_row texts body undescribed d = (err undescribed_row, d)

  -- what follows the check of a description
  described_next :
      Described S
      → Result Error (Unit {0}) × RowDecryptor S
      → Result Error (Option Bytes) × RowDecryptor S
  described_next positions (err e, d) = (err e, d)
  described_next positions (ok checked, d) = (
    ok none,
    record d { portals = describe_answered positions d.portals; described = some positions },
  )

  unfoldable pub row_description :
      Texts → Bytes → RowDecryptor S → Result Error (Option Bytes) × RowDecryptor S
  unfolding described_next field_of
  row_description texts body d = elim (parse_row_description body) [
    | err e ↦ (err (pgwire e), d)
    | ok fields ↦
        let positions = new_described d.ctx.resolved (map field_of fields) in
        described_next positions (check_for_stale_mapping texts fields d.ctx.resolved positions d)
  ]

  unfoldable pub forget : Tracked (Described S) → RowDecryptor S → RowDecryptor S
  forget portals d = record d { portals = portals; described = none }

  unfoldable pub inspect :
      Texts → ℕ → Bytes → RowDecryptor S → Result Error (Option Bytes) × RowDecryptor S
  unfolding forget is_completion
  inspect texts msg_type body d =
      if msg_type == b'T'
      then row_description texts body d
      else if msg_type == b'n'
      then (ok none, forget (no_data (nothing_described S) d.portals) d)
      else if msg_type == b'D'
      then data_row texts body (row_source d.portals) d
      else if is_completion msg_type
      then (ok none, forget (execute_answered d.portals) d)
      else if msg_type == b'Z'
      then (ok none, forget (batch_answered d.portals) d)
      else if msg_type == b'V'
      then function_call_answer d
      else (ok none, d)

  unfoldable pub on_frame :
      Texts → ℕ → Bytes → RowDecryptor S → Result Error FrameAction × RowDecryptor S
  unfolding action_of
  on_frame texts msg_type body d =
      let (r, d') = inspect texts msg_type body d in (action_of texts r, d')

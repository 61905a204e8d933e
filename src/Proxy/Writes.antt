-- ===== src/Proxy/Writes.antt =====
-- crates/proxy/src/encrypt/frame.rs: one client frame of one session. How a statement's text is
-- rewritten (`rewrite_sql`, which also seals its literals) is a parameter: it works on the syntax
-- trees of another crate. The log is left out, and the texts of refusals are parameters.
pub mod Frames
pub mod Discards
pub mod Sealed
pub mod Tests
use dbsec.Prelude.{
  ℕ, ◌+◌, Bool, true, false, ◌||◌, Option, none, some, List, [], ◌∷◌, ◌++◌, ◌==◌, if◌then◌else◌,
  Result, ok, err, ◌>>=◌, Bytes, ℤ, pos, negsuc,
}
use dbsec.Core
use dbsec.Core.{RowKeyFault, malformed}
use dbsec.Core.Envelope.{RowKey}
use dbsec.Core.RowKeys
use dbsec.Core.RowKeys.{canonical}
use dbsec.Core.Transform.{WireForm, bytea, text}
use dbsec.Pgwire.Cursor.{take_cstr}
use dbsec.Pgwire.Messages.{BindMessage, parse_parse, parse_bind, param_format, result_format_codes}
use dbsec.Pgwire.Messages.Encode.{encode_parse, encode_bind}
use dbsec.Proxy.{
  Error, wire, pgwire, FrameAction, relay, replace_body, reply, OnUnprotected, warn, reject,
}
use dbsec.Proxy.Arrays.Text.{index_array}
use dbsec.Proxy.Params.{
  TransformId, RowKeySource, unkeyed, literal, param, ParamAction, seal_param, search_param,
  search_array_param, ParamTransforms, saturating_suc, value_format,
}
use dbsec.Proxy.Portals
use dbsec.Proxy.Portals.{
  Tracked, Target, on_statement, on_portal, parse, close_statement, close_portal, expect_describe,
  expect_execute, expect_batch,
}
use dbsec.Proxy.Portals.Answers.{copy_data}
use dbsec.Proxy.Responses.{error_response, frame}
use dbsec.Proxy.Rows.{FieldTransform}
use dbsec.Proxy.Rows.Cells.{Hex, hex_text_form}
use dbsec.Proxy.Rows.Decrypt.{Values, set_value, value_at}

pub data Rejection : Type 0 where
  fatal : Error → Rejection
  refused : Bytes → Rejection

pub data SqlOutcome : Type 0 where
  rewrite : Option Bytes → ParamTransforms → SqlOutcome
  refuse : Bytes → SqlOutcome

-- `Q` is what the rewriting of statements keeps, and `S` what the transforms keep.
pub record Rewriting (Q S : Type 0) : Type 0 where
  pub rewrite_sql : Bytes → Q → S → Result Error SqlOutcome × Q × S
  pub transform_at : TransformId → FieldTransform S
  pub hex : Hex
  pub texts : RowKeys.Texts
  pub row_key_message : ℕ → Bytes → RowKeyFault → Bytes
  pub unindexed_message : List Bytes → Bytes

pub record QueryRewriter (Q S P : Type 0) : Type 0 where
  pub sql : Q
  pub keys : S
  pub portals : Tracked P
  pub tx_status : ℕ
  pub on_unprotected : OnUnprotected
  pub awaiting_sync : Bool

unfoldable pub ready_for_query : ℕ → Bytes
ready_for_query tx_status =
    frame b'Z' ((if tx_status == b'T' || tx_status == b'E' then b'E' else b'I') ∷ [])

unfoldable pub encode_param : Hex → Bytes → WireForm → Bool → Bytes
encode_param hex value text binary = value
encode_param hex value bytea true = value
encode_param hex value bytea false = hex_text_form hex value

target_of : ℕ → Option Target
target_of kind =
    if kind == b'S' then some on_statement else if kind == b'P' then some on_portal else none

unfoldable pub describe_target : Bytes → Result Error (Target × Bytes)
unfolding target_of
describe_target [] = err (wire malformed)
describe_target (kind ∷ rest) = elim (target_of kind) [
  | none ↦ err (wire malformed)
  | some target ↦ elim (take_cstr rest) [
    | err e ↦ err (pgwire e)
    | ok (name, left) ↦ ok (target, name)
  ]
]

-- a parameter of the message, where a missing one is a NULL: `get(index).copied().flatten()`
unfoldable pub key_of_param : RowKeys.Texts → BindMessage → ℕ → ℕ → Result Core.Error RowKey
key_of_param texts m index type_oid = do
  format ← value_format (param_format m index)
  canonical texts type_oid format (value_at m.params index)

unfoldable pub is_binary : ℤ → Bool
is_binary (pos code) = code == 1
is_binary (negsuc n) = false

push_unindexed : List Bytes → Option Bytes → Bytes → List Bytes
push_unindexed unindexed none column = unindexed ++ column ∷ []
push_unindexed unindexed (some indexed) column = unindexed

put_value : Values → ℕ → Option Bytes → Values
put_value values index none = values
put_value values index (some replacement) = set_value values index (some replacement)

module _ {Q S : Type 0} (rw' : Rewriting Q S) where
  key_rejected : ℕ → Bytes → Core.Error → Rejection
  key_rejected index column (Core.Error.row_key_type fault) =
      refused (rw'.row_key_message (saturating_suc index) column fault)
  key_rejected index column e = fatal (wire e)

  unfoldable pub bind_row_key : RowKeySource → BindMessage → Result Rejection (Option RowKey)
  unfolding key_rejected key_of_param
  bind_row_key unkeyed m = ok none
  bind_row_key (literal key) m = ok (some key)
  bind_row_key (param index type_oid column) m = elim (key_of_param rw'.texts m index type_oid) [
    | ok key ↦ ok (some key)
    | err e ↦ err (key_rejected index column e)
  ]

  sealed_param : TransformId → Bool → Result Core.Error Bytes → Result Rejection (Option Bytes)
  unfolding encode_param
  sealed_param id binary (err e) = err (fatal (wire e))
  sealed_param id binary (ok sealed) =
      ok (some (encode_param rw'.hex sealed (rw'.transform_at id).wire binary))

  searched_param : Bool → Result Core.Error (Option Bytes) → Result Rejection (Option Bytes)
  unfolding encode_param
  searched_param binary (err e) = err (fatal (wire e))
  searched_param binary (ok none) = err (fatal (wire malformed))
  searched_param binary (ok (some token)) = ok (some (encode_param rw'.hex token bytea binary))

  indexed_param : Result Error (Option Bytes) → Result Rejection (Option Bytes)
  indexed_param (err e) = err (fatal e)
  indexed_param (ok indexed) = ok indexed

  -- What a parameter is replaced by; `none` for an array that is not indexed.
  unfoldable pub param_value :
      ParamAction → BindMessage → Bool → Bytes → S → Result Rejection (Option Bytes) × S
  unfolding sealed_param searched_param indexed_param
  param_value (seal_param id row) m binary value s = elim (bind_row_key row m) [
    | err e ↦ (err e, s)
    | ok key ↦
        let (r, s') = (rw'.transform_at id).seal value key s in (sealed_param id binary r, s')
  ]
  param_value (search_param id) m binary value s =
      let (r, s') = (rw'.transform_at id).search_index value s in (searched_param binary r, s')
  param_value (search_array_param id column) m binary value s =
      let (r, s') = index_array rw'.texts rw'.hex value binary (rw'.transform_at id) s in
      (indexed_param r, s')

  -- the column of an array that is not indexed
  column_of : ParamAction → Bytes
  column_of (seal_param id row) = []
  column_of (search_param id) = []
  column_of (search_array_param id column) = column

  -- One round of the loop over a statement's actions: a missing or NULL parameter stays.
  unfoldable pub bind_param :
      ℕ × ParamAction
      → BindMessage
      → Values × List Bytes
      → S
      → Result Rejection (Values × List Bytes) × S
  unfolding is_binary push_unindexed put_value column_of
  bind_param (index, action) m (values, unindexed) s = elim (value_at values index) [
    | none ↦ (ok (values, unindexed), s)
    | some value ↦
        let (r, s') = param_value action m (is_binary (param_format m index)) value s in
        (
          (do
            replacement ← r
            ok (
              put_value values index replacement,
              push_unindexed unindexed replacement (column_of action),
            )),
          s',
        )
  ]

  unfoldable pub bind_params :
      ParamTransforms
      → BindMessage
      → Values × List Bytes
      → S
      → Result Rejection (Values × List Bytes) × S
  bind_params [] m state s = (ok state, s)
  bind_params (entry ∷ rest) m state s =
      let (r, s') = bind_param entry m state s in
      elim r [ ok state' ↦ bind_params rest m state' s' | err e ↦ (err e, s') ]

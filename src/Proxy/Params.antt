-- ===== src/Proxy/Params.antt =====
-- The values of crates/proxy/src/portal.rs: what Bind does to each parameter of a statement, and
-- the result formats that a Bind chose. A transform's `Arc` is its address, a number.
pub mod Recorded
use dbsec.Prelude.{
  ℕ, ◌+◌, ◌-◌, ◌^◌, Bool, true, false, ◌&&◌, Option, none, some, List, [], ◌∷◌, ◌++◌, ◌==◌,
  if◌then◌else◌, ltb, Result, ok, err, ℤ, pos, negsuc, Bytes, bytes_eq,
}
use dbsec.Core
use dbsec.Core.{unknown_format}
use dbsec.Core.RowKeys.{Format, text, binary}
use dbsec.Core.Envelope.{RowKey}
use dbsec.Pgwire.Messages.{format_code}
use dbsec.Proxy.{Error, conflicting_parameter}

abbrev pub TransformId : Type 0
TransformId = ℕ

pub data RowKeySource : Type 0 where
  unkeyed : RowKeySource
  literal : RowKey → RowKeySource
  param : ℕ → ℕ → Bytes → RowKeySource

pub data ParamAction : Type 0 where
  seal_param : TransformId → RowKeySource → ParamAction
  search_param : TransformId → ParamAction
  search_array_param : TransformId → Bytes → ParamAction

-- The derived `PartialEq`.
unfoldable pub source_eq : RowKeySource → RowKeySource → Bool
source_eq unkeyed unkeyed = true
source_eq (literal k) (literal l) = bytes_eq k.canonical l.canonical
source_eq (param i t c) (param j u d) = i == j && (t == u && bytes_eq c d)
source_eq _ _ = false

unfoldable pub agrees_with : ParamAction → ParamAction → Bool
unfolding source_eq
agrees_with (seal_param a left) (seal_param b right) = a == b && source_eq left right
agrees_with (search_param a) (search_param b) = a == b
agrees_with (search_array_param a left) (search_array_param b right) = a == b && bytes_eq left right
agrees_with _ _ = false

abbrev pub ParamTransforms : Type 0
ParamTransforms = List (ℕ × ParamAction)

-- `entries.iter().find(|(existing, _)| *existing == index)`
unfoldable pub find_action : ℕ → ParamTransforms → Option ParamAction
find_action index [] = none
find_action index ((existing, action) ∷ rest) =
    if existing == index then some action else find_action index rest

-- `saturating_add` of a usize
unfoldable pub saturating_suc : ℕ → ℕ
saturating_suc n = if ltb (n + 1) (2 ^ 64) then n + 1 else 2 ^ 64 - 1

unfoldable pub record_action : ParamTransforms → ℕ → ParamAction → Result Error ParamTransforms
unfolding find_action saturating_suc agrees_with
record_action entries index action = elim (find_action index entries) [
  | some existing ↦
      if agrees_with existing action
      then ok entries
      else err (conflicting_parameter (saturating_suc index))
  | none ↦ ok (entries ++ (index, action) ∷ [])
]

-- `None` is the all-text default.
abbrev pub ResultFormats : Type 0
ResultFormats = Option (List ℤ)

unfoldable pub for_column : ResultFormats → ℕ → ℤ
for_column (some codes) index = format_code codes index
for_column none index = pos 0

-- The format that a code of the wire stands for; the error is the library's.
unfoldable pub value_format : ℤ → Result Core.Error Format
value_format (pos code) =
    if code == 0
    then ok text
    else if code == 1
    then ok binary
    else err (Core.Error.row_key_type (unknown_format (pos code)))
value_format (negsuc n) = err (Core.Error.row_key_type (unknown_format (negsuc n)))

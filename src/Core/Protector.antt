-- ===== src/Core/Protector.antt =====
-- crates/core/src/protector.rs and `Policy::build`: the columns of a policy by name. The columns
-- that encrypt share one `Ciphers`, which is a field here. The key source is an argument.
pub mod Calls
pub mod Opens
pub mod Names
mod Tests
use dbsec.Prelude.{
  ℕ, ◌+◌, Bool, true, false, not, Option, none, some, List, [], ◌∷◌, ◌++◌, ◌==◌, if◌then◌else◌, map,
  Result, ok, err, ◌>>=◌, ◌>>◌, ok_or, Bytes,
}
use dbsec.NameMap.{get, insert}
use dbsec.Core.{
  Error, unknown_column, row_key_required, row_key_not_declared, not_readable, unprotected,
}
use dbsec.Core.Crypto.{Aead, Hmac, Ff1}
use dbsec.Core.Envelope.{CellContext, RowKey}
use dbsec.Core.Cipher.{max_encryptions_per_key}
use dbsec.Core.Ciphers.{KeySource, Ciphers, ciphers_with_budget}
use dbsec.Core.Transform.{
  EncryptTransform, encrypt_transform, strict_row_binding, seal_value, open_stored, search_index,
}
use dbsec.Core.Fpe.{FpeTransform, fpe_transform, fpe_seal, fpe_open}
use dbsec.Core.Token.{TokenTransform, token_transform, token_seal, token_open}
use dbsec.Core.Mask.{MaskSpec, Utf8, apply}
use dbsec.Core.Policy.{
  TransformKind, ColumnPolicy, TablePolicy, Policy, split_table, split_once_dot, join_dot,
  qualified_name, any, same_table, strict_for, validate,
}

-- The implementations of the trait `FieldTransform`.
pub data Transform : Type 0 where
  encrypting : EncryptTransform → Transform
  pseudonymous : FpeTransform → Transform
  tokenising : TokenTransform → Transform

pub record ProtectedColumn : Type 0 where
  pub schema : Bytes
  pub table : Bytes
  pub column : Bytes
  pub transform : Option Transform
  pub searchable : Bool
  pub readable : Bool
  pub mask : Option MaskSpec

pub record Column : Type 0 where
  pub spec : ProtectedColumn
  pub row_bound : Bool

pub record Protector : Type 0 where
  pub columns : List (Bytes × Column)
  pub ciphers : Ciphers

pub data Opened : Type 0 where
  value : Bytes → Opened
  unprotected_value : Bytes → Opened

pub into_value : Opened → Bytes → Result Error Bytes
into_value (value bytes) column = ok bytes
into_value (unprotected_value bytes) column = err (unprotected column)

build_transform : TransformKind → ColumnPolicy → List TablePolicy → Option Transform × Bool
build_transform TransformKind.encrypt c tables =
    let index_key = if c.searchable then some (qualified_name c) else none in
    let t = encrypt_transform (record { name = qualified_name c }) index_key in
    (some (encrypting (strict_row_binding t (strict_for c.table tables))), true)
build_transform TransformKind.fpe c tables =
    (some (pseudonymous (fpe_transform (qualified_name c) c.detokenize)), c.detokenize)
build_transform TransformKind.token c tables =
    (some (tokenising (token_transform (qualified_name c))), false)
build_transform TransformKind.untransformed c tables = (none, false)

unfoldable pub build_column : List TablePolicy → ColumnPolicy → ProtectedColumn
unfolding build_transform
build_column tables c =
    let (transform, readable) = build_transform c.transform c tables in
    record {
      schema = (split_table c.table).0;
      table = (split_table c.table).1;
      column = c.column;
      transform = transform;
      searchable = c.searchable;
      readable = readable;
      mask = c.mask;
    }

pub build : Policy → List ProtectedColumn
unfolding build_column
build p = map (build_column p.tables) p.columns

-- `columns.collect()`: each column under its qualified name, with whether its table declares a key
unfoldable pub collect : Policy → List (Bytes × Column) → List ColumnPolicy → List (Bytes × Column)
unfolding build_column
collect p columns [] = columns
collect p columns (c ∷ cs) =
    let entry : Column = record {
      spec = build_column p.tables c;
      row_bound = any (λ (t : TablePolicy). same_table t.table c.table) p.tables;
    } in
    collect p (insert (qualified_name c) entry columns) cs

unfoldable pub new_protector : Policy → Result Error Protector
unfolding collect
new_protector p = do
  validate p
  ok (record {
    columns = collect p [] p.columns;
    ciphers = ciphers_with_budget max_encryptions_per_key;
  })

unfoldable pub count_dots : Bytes → ℕ
count_dots [] = 0
count_dots (b ∷ bs) = let rest = count_dots bs in if b == b'.' then rest + 1 else rest

-- The name that a column is kept under: `table.column` is in the default schema.
unfoldable pub lookup_key : Bytes → Bytes
unfolding count_dots
lookup_key name =
    if count_dots name == 1
    then elim (split_once_dot name) [
      | none ↦ name
      | some (table, column) ↦
          join_dot (join_dot (split_table table).0 (split_table table).1) column
    ]
    else name

unfoldable pub find_column : Protector → Bytes → Result Error Column
unfolding lookup_key
find_column p name = ok_or (unknown_column name) (get (lookup_key name) p.columns)

unfoldable pub check_row : Bool → Bytes → Option RowKey → Result Error (Unit {0})
check_row true name none = err (row_key_required name)
check_row false name (some key) = err (row_key_not_declared name)
check_row _ name row = ok tt

-- A transform's own cache and the shared ciphers after a call.
abbrev pub store : Protector → Bytes → Column → Transform → Ciphers → Protector
store p name entry t s = record {
  columns =
      insert (lookup_key name) (record entry { spec = record entry.spec { transform = some t } })
        p.columns;
  ciphers = s;
}

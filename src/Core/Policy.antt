-- ===== src/Core/Policy.antt =====
-- crates/core/src/policy.rs: which columns are protected and how. A name is its bytes. The text of an
-- error and the warning about letter case are left out.
pub mod Accepted
pub mod Columns
pub mod Tables
mod Tests
use dbsec.Prelude.{
  is_empty, ℕ, Bool, true, false, not, ◌&&◌, Option, none, some, List, [], ◌∷◌, ◌++◌, ltb, ◌==◌,
  if◌then◌else◌, length, Result, ok, err, ◌>>=◌, ◌>>◌, Bytes, bytes_eq, codes,
}
use dbsec.Core.{
  Error, PolicyFault, duplicate_column, searchable_not_encrypt, detokenize_not_fpe,
  none_without_mask, identifier_too_long, duplicate_table, nothing_to_bind, binds_nothing,
  row_key_transformed,
}
use dbsec.Core.Ident.{max_identifier_bytes}
use dbsec.Core.Mask.{MaskSpec}

abbrev pub default_schema : Bytes
default_schema = codes "public"

-- `str::split_once('.')`
unfoldable pub split_once_dot : Bytes → Option (Bytes × Bytes)
split_once_dot [] = none
split_once_dot (b ∷ bs) =
    let rest = split_once_dot bs in
    if b == b'.'
    then some ([], bs)
    else elim rest [ none ↦ none | some (head, tail) ↦ some (b ∷ head, tail) ]

unfoldable pub split_table : Bytes → Bytes × Bytes
unfolding split_once_dot
split_table name = elim (split_once_dot name) [ none ↦ (default_schema, name) | some p ↦ p ]

pub data TransformKind : Type 0 where
  encrypt fpe token untransformed : TransformKind

-- The derived `PartialEq`.
abbrev pub kind_eq : TransformKind → TransformKind → Bool
kind_eq encrypt encrypt = true
kind_eq fpe fpe = true
kind_eq token token = true
kind_eq untransformed untransformed = true
kind_eq _ _ = false

pub record ColumnPolicy : Type 0 where
  pub table : Bytes
  pub column : Bytes
  pub transform : TransformKind
  pub searchable : Bool
  pub detokenize : Bool
  pub mask : Option MaskSpec

pub record TablePolicy : Type 0 where
  pub table : Bytes
  pub row_key : Bytes
  pub strict_row_binding : Bool

pub record Policy : Type 0 where
  pub columns : List ColumnPolicy
  pub tables : List TablePolicy

abbrev pub column_policy : Bytes → Bytes → ColumnPolicy
column_policy table column = record {
  table = table;
  column = column;
  transform = encrypt;
  searchable = false;
  detokenize = true;
  mask = none;
}

abbrev pub join_dot : Bytes → Bytes → Bytes
join_dot a b = a ++ b'.' ∷ b

-- `format!("{schema}.{table}")` of a table as it is configured
unfoldable pub qualified_table : Bytes → Bytes
qualified_table name = let (schema, table) = split_table name in join_dot schema table

unfoldable pub qualified_name : ColumnPolicy → Bytes
unfolding qualified_table
qualified_name c = join_dot (qualified_table c.table) c.column

-- `HashSet::contains`
unfoldable pub seen_before : Bytes → List Bytes → Bool
seen_before name [] = false
seen_before name (n ∷ seen) = if bytes_eq n name then true else seen_before name seen

-- `if test { return Err(..) }`
unfoldable pub refuse : Bool → PolicyFault → Result Error (Unit {0})
refuse test fault = if test then err (Error.policy fault) else ok tt

unfoldable pub check_identifiers : Bytes → Bytes → Result Error (Unit {0})
unfolding refuse split_table
check_identifiers table column =
    refuse (ltb max_identifier_bytes (length (split_table table).0)) identifier_too_long
    >> (refuse (ltb max_identifier_bytes (length (split_table table).1)) identifier_too_long
        >> refuse (ltb max_identifier_bytes (length column)) identifier_too_long)

abbrev pub has_mask : Option MaskSpec → Bool
has_mask none = false
has_mask (some m) = true

-- the tests of one column, in their order
unfoldable pub check_column : List Bytes → ColumnPolicy → Result Error (Unit {0})
unfolding refuse seen_before qualified_name check_identifiers
check_column seen c =
    refuse (seen_before (qualified_name c) seen) duplicate_column
    >> (refuse (c.searchable && not (kind_eq c.transform encrypt)) searchable_not_encrypt
        >> (refuse (not c.detokenize && not (kind_eq c.transform fpe)) detokenize_not_fpe
            >> (refuse (kind_eq c.transform untransformed && not (has_mask c.mask))
                  none_without_mask
                >> check_identifiers c.table c.column)))

unfoldable pub check_columns : List Bytes → List ColumnPolicy → Result Error (Unit {0})
unfolding check_column
check_columns seen [] = ok tt
check_columns seen (c ∷ cs) = check_column seen c >> check_columns (qualified_name c ∷ seen) cs

-- `schema_and_table() == schema_and_table()`
unfoldable pub same_table : Bytes → Bytes → Bool
unfolding split_table
same_table a b =
    bytes_eq (split_table a).0 (split_table b).0 && bytes_eq (split_table a).1 (split_table b).1

unfoldable pub columns_of : Bytes → List ColumnPolicy → List ColumnPolicy
unfolding same_table
columns_of table [] = []
columns_of table (c ∷ cs) =
    let rest = columns_of table cs in if same_table c.table table then c ∷ rest else rest

unfoldable pub any {ℓ} : {A : Type ℓ} → (A → Bool) → List A → Bool
any test [] = false
any test (x ∷ xs) = if test x then true else any test xs

unfoldable pub encrypts : ColumnPolicy → Bool
encrypts c = kind_eq c.transform encrypt

unfoldable pub hides_row_key : Bytes → ColumnPolicy → Bool
hides_row_key row_key c = bytes_eq c.column row_key && not (kind_eq c.transform untransformed)

unfoldable pub check_table : List Bytes → List ColumnPolicy → TablePolicy → Result Error (Unit {0})
unfolding refuse seen_before qualified_table check_identifiers columns_of any encrypts hides_row_key
check_table seen columns t =
    refuse (seen_before (qualified_table t.table) seen) duplicate_table
    >> (check_identifiers t.table t.row_key
        >> (refuse (is_empty (columns_of t.table columns)) nothing_to_bind
            >> (refuse (not (any encrypts (columns_of t.table columns))) binds_nothing
                >> refuse (any (hides_row_key t.row_key) (columns_of t.table columns))
                    row_key_transformed)))

unfoldable pub check_tables :
    List Bytes → List ColumnPolicy → List TablePolicy → Result Error (Unit {0})
unfolding check_table
check_tables seen columns [] = ok tt
check_tables seen columns (t ∷ ts) =
    check_table seen columns t >> check_tables (qualified_table t.table ∷ seen) columns ts

pub validate : Policy → Result Error (Unit {0})
unfolding check_columns check_tables
validate p = check_columns [] p.columns >> check_tables [] p.columns p.tables

-- `find(..).is_some_and(|entry| entry.strict_row_binding)`
unfoldable pub strict_for : Bytes → List TablePolicy → Bool
unfolding same_table
strict_for table [] = false
strict_for table (t ∷ ts) =
    if same_table t.table table then t.strict_row_binding else strict_for table ts

pub record RowKeyDecl : Type 0 where
  pub schema : Bytes
  pub table : Bytes
  pub column : Bytes

pub row_keys : List TablePolicy → List RowKeyDecl
unfolding split_table
row_keys [] = []
row_keys (t ∷ ts) =
    record { schema = (split_table t.table).0; table = (split_table t.table).1; column = t.row_key }
    ∷ row_keys ts

-- ===== src/Core/Policy/Tables.antt =====
-- `Policy::validate_row_keys`: the checks of the tables with a row key.
use mathlib.Core.List.{Memᴰ}
use dbsec.Prelude.{
  is_empty, ◌≡◌, ◌⊎◌, inl, inr, refl, ap₂, true, false, not, List, [], ◌∷◌, All, ok, Bytes,
  bytes_eq, bytes_eq_iff, arith, Bool-cases,
}
use dbsec.Core.{duplicate_table, nothing_to_bind, binds_nothing, row_key_transformed}
use dbsec.Core.Policy.{
  split_table, TransformKind, encrypt, fpe, token, untransformed, kind_eq, ColumnPolicy,
  TablePolicy, qualified_table, seen_before, refuse, check_identifiers, same_table, columns_of, any,
  encrypts, hides_row_key, check_table, check_tables,
}
use dbsec.Core.Policy.Columns.{
  refuse-eq-ok, both-eq-ok, FitsIdentifiers, check_identifiers-FitsIdentifiers,
}

same_table-eq : (a b : Bytes) → same_table a b ≡ true → split_table a ≡ split_table b
unfolding same_table
same_table-eq a b h =
    let schemas = (bytes_eq_iff (split_table a).0 (split_table b).0).0 (ground arith) in
    let tables = (bytes_eq_iff (split_table a).1 (split_table b).1).0 (ground arith) in
    ap₂ (λ x y. (x, y)) schemas tables

-- A column of the table that encrypts.
pub record Bound (table : Bytes) (cs : List ColumnPolicy) : Type 0 where
  pub bound : ColumnPolicy
  pub listed : Memᴰ bound cs
  pub in_table : split_table bound.table ≡ split_table table
  pub encrypting : bound.transform ≡ encrypt

kind_eq-eq : (k l : TransformKind) → kind_eq k l ≡ true → k ≡ l
kind_eq-eq encrypt encrypt h = refl
kind_eq-eq fpe fpe h = refl
kind_eq-eq token token h = refl
kind_eq-eq untransformed untransformed h = refl
kind_eq-eq _ _ h = ground arith

wider :
    (table : Bytes) (c : ColumnPolicy) (cs : List ColumnPolicy)
    → Bound table cs
    → Bound table (c ∷ cs)
wider table c cs b = record {
  bound = b.bound;
  listed = Memᴰ.tail b.listed;
  in_table = b.in_table;
  encrypting = b.encrypting;
}

any-Bound :
    (table : Bytes) (cs : List ColumnPolicy)
    → any encrypts (columns_of table cs) ≡ true
    → Bound table cs
unfolding columns_of any encrypts
any-Bound table [] h = ground arith
any-Bound table (c ∷ cs) h = elim (Bool-cases (same_table c.table table)) [
  | inr other ↦ wider table c cs (any-Bound table cs (rw (columns_of, other) at h))
  | inl same ↦ elim (Bool-cases (encrypts c)) [
    | inl yes' ↦ record {
      bound = c;
      listed = Memᴰ.head refl;
      in_table = same_table-eq c.table table same;
      encrypting = kind_eq-eq c.transform encrypt yes';
    }
    | inr no' ↦ wider table c cs (any-Bound table cs (rw (columns_of, same, any, no') at h))
  ]
]

-- The column is not the row key of the table, or it is stored as it is.
abbrev pub LeavesRowKey : TablePolicy → ColumnPolicy → Type 0
LeavesRowKey t c =
    (same_table c.table t.table ≡ false)
    ⊎ ((bytes_eq c.column t.row_key ≡ false) ⊎ (c.transform ≡ untransformed))

leaves :
    (row_key : Bytes) (c : ColumnPolicy)
    → hides_row_key row_key c ≡ false
    → (bytes_eq c.column row_key ≡ false) ⊎ (c.transform ≡ untransformed)
unfolding hides_row_key
leaves row_key c h = elim (Bool-cases (kind_eq c.transform untransformed)) [
  | inl same ↦ inr (kind_eq-eq c.transform untransformed same)
  | inr other ↦ inl (ground (arith, other))
]

any-LeavesRowKey :
    (t : TablePolicy) (cs : List ColumnPolicy)
    → any (hides_row_key t.row_key) (columns_of t.table cs) ≡ false
    → All (LeavesRowKey t) cs
unfolding columns_of any
any-LeavesRowKey t [] h = tt
any-LeavesRowKey t (c ∷ cs) h = elim (Bool-cases (same_table c.table t.table)) [
  | inr other ↦ (inl other, any-LeavesRowKey t cs (rw (columns_of, other) at h))
  | inl same ↦ elim (Bool-cases (hides_row_key t.row_key c)) [
    | inl hides ↦ let h' = rw (columns_of, same, any, hides) at h in ground arith
    | inr shows ↦ (
      inr (leaves t.row_key c shows),
      any-LeavesRowKey t cs (rw (columns_of, same, any, shows) at h),
    )
  ]
]

pub record IsTable (seen : List Bytes) (cs : List ColumnPolicy) (t : TablePolicy) : Type 0 where
  pub unseen : seen_before (qualified_table t.table) seen ≡ false
  pub fits : FitsIdentifiers t.table t.row_key
  pub binds : Bound t.table cs
  pub readable_key : All (LeavesRowKey t) cs

check_table-IsTable :
    (seen : List Bytes) (cs : List ColumnPolicy) (t : TablePolicy)
    → check_table seen cs t ≡ ok tt
    → IsTable seen cs t
unfolding check_table
check_table-IsTable seen cs t h =
    let (r₁, h₁) =
      both-eq-ok (refuse (seen_before (qualified_table t.table) seen) duplicate_table) _ h in
    let (r₂, h₂) = both-eq-ok (check_identifiers t.table t.row_key) _ h₁ in
    let (r₃, h₃) = both-eq-ok (refuse (is_empty (columns_of t.table cs)) nothing_to_bind) _ h₂ in
    let (r₄, r₅) =
      both-eq-ok (refuse (not (any encrypts (columns_of t.table cs))) binds_nothing) _ h₃ in
    let some' = refuse-eq-ok (not (any encrypts (columns_of t.table cs))) binds_nothing r₄ in
    record {
      unseen = refuse-eq-ok _ duplicate_table r₁;
      fits = check_identifiers-FitsIdentifiers t.table t.row_key r₂;
      binds = any-Bound t.table cs (ground (arith, some'));
      readable_key = any-LeavesRowKey t cs (refuse-eq-ok _ row_key_transformed r₅);
    }

abbrev pub AreTables : List Bytes → List ColumnPolicy → List TablePolicy → Type 0
AreTables seen cs [] = Unit
AreTables seen cs (t ∷ ts) = IsTable seen cs t × AreTables (qualified_table t.table ∷ seen) cs ts

pub check_tables-AreTables :
    (seen : List Bytes) (cs : List ColumnPolicy) (ts : List TablePolicy)
    → check_tables seen cs ts ≡ ok tt
    → AreTables seen cs ts
unfolding check_tables
check_tables-AreTables seen cs [] h = tt
check_tables-AreTables seen cs (t ∷ ts) h =
    let (first, rest) = both-eq-ok (check_table seen cs t) _ h in
    (
      check_table-IsTable seen cs t first,
      check_tables-AreTables (qualified_table t.table ∷ seen) cs ts rest,
    )

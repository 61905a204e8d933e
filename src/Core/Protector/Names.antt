-- ===== src/Core/Protector/Names.antt =====
-- `Protector::lookup` of crates/core/src/protector.rs: the names of columns.
use dbsec.Prelude.{
  ◌+◌, ◌≡◌, refl, false, none, some, [], ◌∷◌, ◌++◌, ◌==◌, Bytes, arith, Bool-cases, inl, inr,
}
use dbsec.Core.Policy.{split_once_dot, split_table, join_dot, default_schema}
use dbsec.Core.Protector.{count_dots, lookup_key}

-- the name has no dot in it
abbrev pub HasNoDot : Bytes → Type 0
HasNoDot name = count_dots name ≡ 0

count_dots-append : (a b : Bytes) → count_dots (a ++ b) ≡ count_dots a + count_dots b
unfolding count_dots
count_dots-append [] b = omega arith
count_dots-append (x ∷ a) b = ground (arith, count_dots-append a b)

split_once_dot-join_dot : (a b : Bytes) → HasNoDot a → split_once_dot (join_dot a b) ≡ some (a, b)
unfolding split_once_dot count_dots
split_once_dot-join_dot [] b h = refl
split_once_dot-join_dot (x ∷ a) b h = elim (Bool-cases (x == b'.')) [
  | inl dot ↦ absurd (let h' = rw (count_dots, dot) at h in omega arith)
  | inr other ↦
      rw (split_once_dot, other, split_once_dot-join_dot a b (rw (count_dots, other) at h))
]

split_once_dot-HasNoDot : (a : Bytes) → HasNoDot a → split_once_dot a ≡ none
unfolding split_once_dot count_dots
split_once_dot-HasNoDot [] h = refl
split_once_dot-HasNoDot (x ∷ a) h = elim (Bool-cases (x == b'.')) [
  | inl dot ↦ absurd (let h' = rw (count_dots, dot) at h in omega arith)
  | inr other ↦ rw (split_once_dot, other, split_once_dot-HasNoDot a (rw (count_dots, other) at h))
]

count_dots-join_dot : (a b : Bytes) → count_dots (join_dot a b) ≡ count_dots a + count_dots b + 1
unfolding count_dots
count_dots-join_dot a b = omega (arith, count_dots-append a (b'.' ∷ b))

split_table_default : (table : Bytes) → HasNoDot table → split_table table ≡ (default_schema, table)
unfolding split_table
split_table_default table h = rw (split_table, split_once_dot-HasNoDot table h)

-- For a table and a column with no dot in their names, `table.column` and `public.table.column`
-- look up one column: the latter name.
pub lookup_key-join_dot :
    (table column : Bytes)
    → HasNoDot table
    → HasNoDot column
    → (lookup_key (join_dot table column) ≡ join_dot (join_dot default_schema table) column)
      × (lookup_key (join_dot (join_dot default_schema table) column)
          ≡ join_dot (join_dot default_schema table) column)
unfolding lookup_key
lookup_key-join_dot table column h k =
    let one : count_dots (join_dot table column) ≡ 1 =
      omega (arith, count_dots-join_dot table column, h, k) in
    let two : (count_dots (join_dot (join_dot default_schema table) column) == 1) ≡ false = ground (
      arith,
      count_dots-join_dot (join_dot default_schema table) column,
      count_dots-join_dot default_schema table,
      h,
      k,
    ) in
    (
      rw (lookup_key, one, split_once_dot-join_dot table column h, split_table_default table h),
      rw (lookup_key, two),
    )

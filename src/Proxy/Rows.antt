-- ===== src/Proxy/Rows.antt =====
-- crates/proxy/src/rows.rs: the read path. What the proxy knows of the protected columns is here,
-- and which values of a described row they cover. A HashMap is the function that looks a key up.
pub mod Cells
pub mod Decrypt
pub mod Frames
pub mod Rederived
pub mod Kept
pub mod Replaced
pub mod Shown
pub mod Columns
pub mod Opened
pub mod KeyRef
pub mod Tests
use dbsec.Prelude.{
  ℕ, ◌+◌, ◌^◌, Bool, true, false, not, ◌&&◌, Option, none, some, List, [], ◌∷◌, ◌++◌, ◌==◌, leb,
  ltb, if◌then◌else◌, Result, Bytes, ℤ, pos, negsuc,
}
use dbsec.Core
use dbsec.Core.Envelope.{RowKey}
use dbsec.Core.Mask.{MaskSpec}
use dbsec.Core.Transform.{WireForm}
use dbsec.Proxy.Params.{saturating_suc}

-- The methods of the trait `FieldTransform` of crates/core that the relay calls. `S` is what the
-- transforms keep behind their `Arc`s, their caches of keys.
pub record FieldTransform (S : Type 0) : Type 0 where
  pub wire : WireForm
  pub supports_search : Bool
  pub seal : Bytes → Option RowKey → S → Result Core.Error Bytes × S
  pub open_stored : Bytes → Option RowKey → S → Result Core.Error (Option Bytes) × S
  pub search_index : Bytes → S → Result Core.Error (Option Bytes) × S

pub data RowKeyRef : Type 0 where
  absent : RowKeyRef
  slot : ℕ → ℕ → RowKeyRef
  ambiguous : Bytes → Bytes → RowKeyRef
  type_changed : Bytes → Bytes → ℕ → ℕ → RowKeyRef

pub record ResolvedRowKey : Type 0 where
  pub attnum : ℤ
  pub type_oid : ℕ
  pub name : Bytes
  pub table : Bytes

-- `(table_oid, attnum, type_oid)` of a described field.
pub record Field : Type 0 where
  pub table_oid : ℕ
  pub attnum : ℤ
  pub type_oid : ℕ

unfoldable pub int_eq : ℤ → ℤ → Bool
int_eq (pos m) (pos n) = m == n
int_eq (negsuc m) (negsuc n) = m == n
int_eq _ _ = false

-- `enumerate()`, from a first index on
unfoldable pub enumerate_from {ℓ} : {A : Type ℓ} → ℕ → List A → List (ℕ × A)
enumerate_from index [] = []
enumerate_from index (x ∷ xs) = (index, x) ∷ enumerate_from (index + 1) xs

-- `filter_map` and `filter`, whose results keep the order
unfoldable pub filter_map {ℓ κ} : {A : Type ℓ} {B : Type κ} → (A → Option B) → List A → List B
filter_map f [] = []
filter_map f (x ∷ xs) = let rest = filter_map f xs in elim (f x) [ none ↦ rest | some y ↦ y ∷ rest ]

unfoldable pub filter {ℓ} : {A : Type ℓ} → (A → Bool) → List A → List A
filter keep [] = []
filter keep (x ∷ xs) = let rest = filter keep xs in if keep x then x ∷ rest else rest

unfoldable pub any {ℓ} : {A : Type ℓ} → (A → Bool) → List A → Bool
any test [] = false
any test (x ∷ xs) = let rest = any test xs in if test x then true else rest

-- the fields of a result that are a table's declared key
unfoldable pub key_fields : ℕ → ResolvedRowKey → List Field → List (ℕ × Field)
unfolding filter enumerate_from int_eq
key_fields table_oid declared fields =
    filter (λ (e : ℕ × Field). e.1.table_oid == table_oid && int_eq e.1.attnum declared.attnum)
      (enumerate_from 0 fields)

-- what the matches say: none, one of the resolved type or of another, or several
unfoldable pub key_ref : ResolvedRowKey → List (ℕ × Field) → RowKeyRef
key_ref declared [] = absent
key_ref declared ((index, field) ∷ []) =
    if field.type_oid == declared.type_oid
    then slot index field.type_oid
    else type_changed declared.table declared.name field.type_oid declared.type_oid
key_ref declared (first ∷ second ∷ more) = ambiguous declared.table declared.name

module _ (S : Type 0) where
  pub record ReadColumn : Type 0 where
    pub name : Bytes
    pub transform : Option (FieldTransform S)
    pub mask : Option MaskSpec

  -- A result position with what protects it and its row's key.
  pub record Position : Type 0 where
    pub index : ℕ
    pub column : ReadColumn
    pub key : RowKeyRef

  pub record Resolved : Type 0 where
    pub columns : ℕ → ℤ → Option ReadColumn
    pub names : Bytes → Bool
    pub positions : Bytes → Option (ℕ × ℤ)
    pub row_keys : ℕ → Option ResolvedRowKey
    pub row_key_by_table : Bytes → Bytes → Option ResolvedRowKey
    pub generation : ℕ

  pub record Described : Type 0 where
    pub generation : ℕ
    pub fields : List Field
    pub columns : List Position

  -- `Described::default()`
  abbrev pub nothing_described : Described
  nothing_described = record { generation = 0; fields = []; columns = [] }

module _ {S : Type 0} where
  unfoldable pub row_key_ref : Resolved S → ℕ → List Field → RowKeyRef
  unfolding key_ref
  row_key_ref r table_oid fields = elim (r.row_keys table_oid) [
    | none ↦ absent
    | some declared ↦ key_ref declared (key_fields table_oid declared fields)
  ]

  unfoldable pub protected_field : Resolved S → List Field → ℕ × Field → Option (Position S)
  protected_field r fields (index, field) = elim (r.columns field.table_oid field.attnum) [
    | none ↦ none
    | some column ↦
        some (record { index = index; column = column; key = row_key_ref r field.table_oid fields })
  ]

  unfoldable pub protected : Resolved S → List Field → List (Position S)
  unfolding filter_map enumerate_from
  protected r fields = filter_map (protected_field r fields) (enumerate_from 0 fields)

  unfoldable pub new_described : Resolved S → List Field → Described S
  new_described r fields = record {
    generation = r.generation;
    fields = fields;
    columns = protected r fields;
  }

  unfoldable pub covers : ℕ → List (Position S) → Bool
  unfolding any
  covers index = any (λ (p : Position S). p.index == index)

  -- the positions that the new map leaves out, at the end
  unfoldable pub keep_covered : List (Position S) → List (Position S) → List (Position S)
  keep_covered columns [] = columns
  keep_covered columns (p ∷ before) =
      let columns' = if covers p.index columns then columns else columns ++ p ∷ [] in
      keep_covered columns' before

  -- `sort_unstable_by_key`: std's sort, here by insertion
  unfoldable pub insert_position : Position S → List (Position S) → List (Position S)
  insert_position p [] = p ∷ []
  insert_position p (q ∷ qs) =
      let later = insert_position p qs in if leb p.index q.index then p ∷ q ∷ qs else q ∷ later

  unfoldable pub sort_positions : List (Position S) → List (Position S)
  unfolding insert_position
  sort_positions [] = []
  sort_positions (p ∷ ps) = insert_position p (sort_positions ps)

  unfoldable pub rederived : Described S → Resolved S → Described S
  unfolding keep_covered sort_positions
  rederived d r = record {
    generation = r.generation;
    fields = d.fields;
    columns = sort_positions (keep_covered (protected r d.fields) d.columns);
  }

  -- `RowContext::publish`: the map in force is replaced, under the generation after its own.
  unfoldable pub publish : Resolved S → Resolved S → Resolved S
  publish replacement held = record replacement { generation = saturating_suc held.generation }

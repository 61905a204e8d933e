-- ===== src/Core/Policy/Columns.antt =====
-- The checks of the columns in `Policy::validate`.
use dbsec.Prelude.{
  ◌≤◌, ◌≡◌, ◌≢◌, ◌⊎◌, inl, inr, refl, Bool, true, false, not, ◌&&◌, Option, List, [], ◌∷◌, ltb,
  length, Result, ok, err, ◌>>◌, Bytes, arith,
}
use dbsec.Core.{
  Error, PolicyFault, duplicate_column, searchable_not_encrypt, detokenize_not_fpe,
  none_without_mask, identifier_too_long,
}
use dbsec.Core.Ident.{max_identifier_bytes}
use dbsec.Core.Mask.{MaskSpec}
use dbsec.Core.Policy.{
  split_table, TransformKind, encrypt, fpe, token, untransformed, kind_eq, ColumnPolicy,
  qualified_name, seen_before, refuse, check_identifiers, has_mask, check_column, check_columns,
}

pub refuse-eq-ok : (test : Bool) (fault : PolicyFault) → refuse test fault ≡ ok tt → test ≡ false
unfolding refuse
refuse-eq-ok test fault h = ground arith

pub both-eq-ok : (m k : Result Error (Unit {0})) → (m >> k) ≡ ok tt → (m ≡ ok tt) × (k ≡ ok tt)
both-eq-ok (ok done) k h = (refl, h)
both-eq-ok (err e) k h = ground arith

pub record FitsIdentifiers (table column : Bytes) : Type 0 where
  pub schema_fits : length (split_table table).0 ≤ max_identifier_bytes
  pub table_fits : length (split_table table).1 ≤ max_identifier_bytes
  pub column_fits : length column ≤ max_identifier_bytes

pub check_identifiers-FitsIdentifiers :
    (table column : Bytes) → check_identifiers table column ≡ ok tt → FitsIdentifiers table column
unfolding check_identifiers
check_identifiers-FitsIdentifiers table column h =
    let (a, h') =
      both-eq-ok (refuse (ltb 63 (length (split_table table).0)) identifier_too_long) _ h in
    let (b, c) =
      both-eq-ok (refuse (ltb 63 (length (split_table table).1)) identifier_too_long) _ h' in
    let a' = refuse-eq-ok (ltb 63 (length (split_table table).0)) identifier_too_long a in
    let b' = refuse-eq-ok (ltb 63 (length (split_table table).1)) identifier_too_long b in
    let c' = refuse-eq-ok (ltb 63 (length column)) identifier_too_long c in
    record { schema_fits = ground arith; table_fits = ground arith; column_fits = ground arith }

-- The settings of a column are compatible.
abbrev pub CompatibleIn : TransformKind → Bool → Bool → Option MaskSpec → Type 0
CompatibleIn transform searchable detokenize mask =
    ((searchable ≡ false) ⊎ (transform ≡ encrypt))
    × ((detokenize ≡ true) ⊎ (transform ≡ fpe))
    × ((transform ≢ untransformed) ⊎ (has_mask mask ≡ true))

compatible :
    (k : TransformKind) (searchable detokenize : Bool) (mask : Option MaskSpec)
    → (searchable && not (kind_eq k encrypt)) ≡ false
    → (not detokenize && not (kind_eq k fpe)) ≡ false
    → (kind_eq k untransformed && not (has_mask mask)) ≡ false
    → CompatibleIn k searchable detokenize mask
compatible encrypt searchable detokenize mask a b c =
    (inr refl, ground arith, inl (λ e. ground arith))
compatible fpe searchable detokenize mask a b c = (ground arith, inr refl, inl (λ e. ground arith))
compatible token searchable detokenize mask a b c =
    (ground arith, ground arith, inl (λ e. ground arith))
compatible untransformed searchable detokenize mask a b c =
    (ground arith, ground arith, inr (ground arith))

pub record IsColumn (seen : List Bytes) (c : ColumnPolicy) : Type 0 where
  pub unseen : seen_before (qualified_name c) seen ≡ false
  pub compatible_settings : CompatibleIn c.transform c.searchable c.detokenize c.mask
  pub fits : FitsIdentifiers c.table c.column

check_column-IsColumn :
    (seen : List Bytes) (c : ColumnPolicy) → check_column seen c ≡ ok tt → IsColumn seen c
unfolding check_column
check_column-IsColumn seen c h =
    let (r₁, h₁) = both-eq-ok (refuse (seen_before (qualified_name c) seen) duplicate_column) _ h in
    let (r₂, h₂) =
      both-eq-ok (refuse (c.searchable && not (kind_eq c.transform encrypt)) searchable_not_encrypt)
        _ h₁ in
    let (r₃, h₃) =
      both-eq-ok (refuse (not c.detokenize && not (kind_eq c.transform fpe)) detokenize_not_fpe) _
        h₂ in
    let (r₄, h₄) =
      both-eq-ok
        (refuse (kind_eq c.transform untransformed && not (has_mask c.mask)) none_without_mask) _
        h₃ in
    record {
      unseen = refuse-eq-ok _ duplicate_column r₁;
      compatible_settings =
          compatible c.transform c.searchable c.detokenize c.mask
            (refuse-eq-ok _ searchable_not_encrypt r₂) (refuse-eq-ok _ detokenize_not_fpe r₃)
            (refuse-eq-ok _ none_without_mask r₄);
      fits = check_identifiers-FitsIdentifiers c.table c.column h₄;
    }

-- No column has a name in use, the names of the columns before it included.
abbrev pub AreColumns : List Bytes → List ColumnPolicy → Type 0
AreColumns seen [] = Unit
AreColumns seen (c ∷ cs) = IsColumn seen c × AreColumns (qualified_name c ∷ seen) cs

pub check_columns-AreColumns :
    (seen : List Bytes) (cs : List ColumnPolicy)
    → check_columns seen cs ≡ ok tt
    → AreColumns seen cs
unfolding check_columns
check_columns-AreColumns seen [] h = tt
check_columns-AreColumns seen (c ∷ cs) h =
    let (first, rest) = both-eq-ok (check_column seen c) _ h in
    (check_column-IsColumn seen c first, check_columns-AreColumns (qualified_name c ∷ seen) cs rest)

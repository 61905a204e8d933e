-- ===== src/Proxy/Rows/Replaced.antt =====
-- `RowDecryptor::decrypt_row` of crates/proxy/src/rows.rs: a value is replaced, and the others stay.
use dbsec.Prelude.{
  ℕ, zero, suc, ◌≤◌, ◌≡◌, ◌≢◌, refl, ap, true, false, Option, none, some, [], ◌∷◌, ltb, length,
  get_elem?, ok, Bytes, arith, inl, inr, Bool-cases, ok-injective, subst,
}
use dbsec.Core.Mask.{usize_add, usize_sub}
use dbsec.Proxy.Rows.Decrypt.{Bounds, Values, Row, set_value, replace, replace_with, value_at}

abbrev pub value_or : Bytes → Option Bytes → Bytes
value_or value none = value
value_or value (some replacement) = replacement

pub get_elem?-set_value :
    (values : Values) (at : ℕ) (v : Option Bytes) (i : ℕ)
    → i ≢ at
    → get_elem? (set_value values at v) i ≡ get_elem? values i
unfolding set_value
get_elem?-set_value [] at v i h = refl
get_elem?-set_value (x ∷ xs) zero v zero h = absurd (h refl)
get_elem?-set_value (x ∷ xs) zero v (suc i) h = refl
get_elem?-set_value (x ∷ xs) (suc at) v zero h = refl
get_elem?-set_value (x ∷ xs) (suc at) v (suc i) h =
    get_elem?-set_value xs at v i (λ e. h (ap suc e))

pub value_at-set_value :
    (values : Values) (at : ℕ) (v : Option Bytes) {value : Bytes}
    → value_at values at ≡ some value
    → value_at (set_value values at v) at ≡ v
unfolding set_value value_at
value_at-set_value [] at v h = ground arith
value_at-set_value (x ∷ xs) zero v h = refl
value_at-set_value (x ∷ xs) (suc at) v h = value_at-set_value xs at v h

pub value_at-get_elem? :
    (xs ys : Values) (at : ℕ) → get_elem? xs at ≡ get_elem? ys at → value_at xs at ≡ value_at ys at
unfolding value_at
value_at-get_elem? xs ys at h = rw (value_at, h) refl

abbrev replaced : ℕ → Bytes → Bytes → Row → Row
replaced at value x row = record {
  values = set_value row.values at (some x);
  projected = usize_add (usize_sub row.projected (length value)) (length x);
  changed = true;
}

module _ (bounds : Bounds) where
  replace-eq-ok :
      (at : ℕ) (value x : Bytes) (row row' : Row)
      → replace bounds at value x row ≡ ok row'
      → (replaced at value x row ≡ row') × (row'.projected ≤ bounds.max_body)
  unfolding replace
  replace-eq-ok at value x row row' h =
      elim (Bool-cases (ltb bounds.max_body (replaced at value x row).projected)) [
        | inl e ↦ ground (arith, e)
        | inr e ↦
            let same = ok-injective (rw (replace, e) at h) in
            (same, subst (λ (r : Row). r.projected ≤ bounds.max_body) same (ground (arith, e)))
      ]

  -- The row after one value was replaced or left.
  abbrev pub Effect : ℕ → Bytes → Option Bytes → Row → Row → Type 0
  Effect at value o row row' =
      (value_at row'.values at ≡ some (value_or value o))
      × ((i : ℕ) → i ≢ at → get_elem? row'.values i ≡ get_elem? row.values i)
      × (row'.changed ≡ false → (row'.values ≡ row.values) × (row.changed ≡ false))

  pub replace_with-eq-ok :
      (at : ℕ) (value : Bytes) (o : Option Bytes) (row row' : Row)
      → value_at row.values at ≡ some value
      → replace_with bounds at value o row ≡ ok row'
      → Effect at value o row row'
  unfolding replace_with
  replace_with-eq-ok at value none row row' v h =
      subst (Effect at value none row) (ok-injective h) (v, (λ i n. refl), λ e. (refl, e))
  replace_with-eq-ok at value (some x) row row' v h =
      subst (Effect at value (some x) row) (replace-eq-ok at value x row row' h).0 (
        value_at-set_value row.values at (some x) v,
        get_elem?-set_value row.values at (some x),
        λ e. absurd (cc),
      )

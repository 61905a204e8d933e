-- ===== src/NameMap.antt =====
-- `HashMap` from byte strings, such as the maps of crates/core/src/protector.rs and
-- crates/proxy/src/portal.rs: an association list with one entry for each name.
use dbsec.Prelude.{
  ◌≤◌, ◌<◌, ◌≡◌, Bool, true, false, Option, none, some, List, [], ◌∷◌, if◌then◌else◌, length, All,
  Bytes, bytes_eq, bytes_eq_iff, arith, Bool-cases, inl, inr,
}

module _ {ℓ} {V : Type ℓ} where
  unfoldable pub get : Bytes → List (Bytes × V) → Option V
  get name [] = none
  get name ((k, v) ∷ m) = if bytes_eq k name then some v else get name m

  unfoldable pub contains_key : Bytes → List (Bytes × V) → Bool
  contains_key name [] = false
  contains_key name ((k, v) ∷ m) = if bytes_eq k name then true else contains_key name m

  unfoldable pub remove : Bytes → List (Bytes × V) → List (Bytes × V)
  remove name [] = []
  remove name ((k, v) ∷ m) =
      let rest = remove name m in if bytes_eq k name then rest else (k, v) ∷ rest

  unfoldable pub insert : Bytes → V → List (Bytes × V) → List (Bytes × V)
  insert name v m = (name, v) ∷ remove name m

  -- keeps the entries whose value passes
  unfoldable pub retain : (V → Bool) → List (Bytes × V) → List (Bytes × V)
  retain keep [] = []
  retain keep ((k, v) ∷ m) = let rest = retain keep m in if keep v then (k, v) ∷ rest else rest

module _ {ℓ} {V : Type ℓ} where
  pub length-remove : (name : Bytes) (m : List (Bytes × V)) → length (remove name m) ≤ length m
  unfolding remove
  length-remove name [] = omega arith
  length-remove name ((k, v) ∷ m) = ground (arith, length-remove name m)

  pub length-remove-contains_key :
      (name : Bytes) (m : List (Bytes × V))
      → contains_key name m ≡ true
      → length (remove name m) < length m
  unfolding remove contains_key
  length-remove-contains_key name [] h = ground arith
  length-remove-contains_key name ((k, v) ∷ m) h = elim (Bool-cases (bytes_eq k name)) [
    | inl same ↦ rw same (omega (arith, length-remove name m))
    | inr other ↦ rw other (omega (arith, length-remove-contains_key name m (rw other at h)))
  ]

  pub length-retain : (keep : V → Bool) (m : List (Bytes × V)) → length (retain keep m) ≤ length m
  unfolding retain
  length-retain keep [] = omega arith
  length-retain keep ((k, v) ∷ m) = ground (arith, length-retain keep m)

module _ {ℓ κ} {V : Type ℓ} (P : Bytes × V → Type κ) where
  pub All-remove : (name : Bytes) (m : List (Bytes × V)) → All P m → All P (remove name m)
  unfolding remove
  All-remove name [] h = tt
  All-remove name ((k, v) ∷ m) h = elim (Bool-cases (bytes_eq k name)) [
    | inl same ↦ rw (remove, same) (All-remove name m h.1)
    | inr other ↦ rw (remove, other) (h.0, All-remove name m h.1)
  ]

  pub All-insert :
      (name : Bytes) (v : V) (m : List (Bytes × V))
      → P (name, v)
      → All P m
      → All P (insert name v m)
  unfolding insert
  All-insert name v m p h = (p, All-remove name m h)

  pub All-retain : (keep : V → Bool) (m : List (Bytes × V)) → All P m → All P (retain keep m)
  unfolding retain
  All-retain keep [] h = tt
  All-retain keep ((k, v) ∷ m) h = elim (Bool-cases (keep v)) [
    | inl same ↦ rw (retain, same) (h.0, All-retain keep m h.1)
    | inr other ↦ rw (retain, other) (All-retain keep m h.1)
  ]

  pub All-get :
      (name : Bytes) (m : List (Bytes × V)) {v : V} → All P m → get name m ≡ some v → P (name, v)
  unfolding get
  All-get name [] h e = ground arith
  All-get name ((k, v') ∷ m) {v} h e = elim (Bool-cases (bytes_eq k name)) [
    | inl same ↦ let is_v : v' ≡ v = ground arith in rw (← is_v, ← (bytes_eq_iff k name).0 same) h.0
    | inr other ↦ All-get name m h.1 (rw (get, other) at e)
  ]

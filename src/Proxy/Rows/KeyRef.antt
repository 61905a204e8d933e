-- ===== src/Proxy/Rows/KeyRef.antt =====
-- `Resolved::row_key_ref` of crates/proxy/src/rows.rs: which field of a result carries the row key.
use mathlib.Core.List.{Memᴰ}
use mathlib.Core.List.Memᴰ
use dbsec.Prelude.{
  ℕ, zero, suc, ◌+◌, ◌≡◌, refl, ap₂, subst, Bool, true, false, ◌&&◌, if◌then◌else◌, some, List, [],
  ◌∷◌, ◌==◌, get_elem?, length, arith, inl, inr, Bool-cases, Option-cases,
}
use dbsec.Proxy.Rows.{
  Field, Resolved, ResolvedRowKey, slot, int_eq, enumerate_from, filter, key_fields, key_ref,
  row_key_ref,
}

-- A field that is the declared key of its table.
abbrev pub is_key : ℕ → ResolvedRowKey → Field → Bool
is_key table_oid declared f = f.table_oid == table_oid && int_eq f.attnum declared.attnum

start_here : (start : ℕ) → start + 0 ≡ start
start_here start = omega arith

same_head {ℓ} : {A : Type ℓ} (x y : A) (ys : List A) → get_elem? (y ∷ ys) 0 ≡ some x → x ≡ y
same_head x y ys h = cc

pub mem-filter_enumerate {ℓ} :
    {A : Type ℓ} (test : ℕ × A → Bool) (xs : List A) (start j : ℕ) {x : A}
    → get_elem? xs j ≡ some x
    → test (start + j, x) ≡ true
    → Memᴰ (start + j, x) (filter test (enumerate_from start xs))
unfolding filter enumerate_from
mem-filter_enumerate test [] start j h t = absurd (cc)
mem-filter_enumerate {A = A} test (y ∷ ys) start zero {x} h t =
    let here = ap₂ {C = ℕ × A} (λ n z. (n, z)) (start_here start) (same_head x y ys h) in
    rw (filter, rw here at t) (Memᴰ.head here)
mem-filter_enumerate {A = A} test (y ∷ ys) start (suc j) {x} h t =
    let step : start + 1 + j ≡ start + suc j = omega arith in
    let later =
      subst (λ n. Memᴰ (n, x) (filter test (enumerate_from (start + 1) ys))) step
        (mem-filter_enumerate test ys (start + 1) j h (rw step t)) in
    elim (Bool-cases (test (start, y))) [
      | inl e ↦ rw (filter, e) (Memᴰ.tail later)
      | inr e ↦ rw (filter, e) later
    ]

pub filter_enumerate-nil {ℓ} :
    {A : Type ℓ} (test : ℕ × A → Bool) (xs : List A) (j : ℕ) {x : A}
    → filter test (enumerate_from 0 xs) ≡ []
    → get_elem? xs j ≡ some x
    → test (j, x) ≡ false
filter_enumerate-nil {A = A} test xs j {x} none' at = elim (Bool-cases (test (j, x))) [
  | inr e ↦ e
  | inl e ↦
      let same : 0 + j ≡ j = omega arith in
      let t : test (0 + j, x) ≡ true = rw same e in
      absurd (
        Memᴰ.not-nil
          (subst (Memᴰ (0 + j, x)) none' (mem-filter_enumerate {A = A} test xs 0 j at t)))
]

-- how many elements of a list pass a test
abbrev pub occurrences {ℓ} : {A : Type ℓ} → (A → Bool) → List A → ℕ
occurrences test [] = 0
occurrences test (x ∷ xs) = (if test x then 1 else 0) + occurrences test xs

length-filter_enumerate {ℓ} :
    {A : Type ℓ} (test : A → Bool) (xs : List A) (start : ℕ)
    → length (filter (λ (e : ℕ × A). test e.1) (enumerate_from start xs)) ≡ occurrences test xs
unfolding filter enumerate_from
length-filter_enumerate test [] start = refl
length-filter_enumerate test (x ∷ xs) start =
    let later = length-filter_enumerate test xs (start + 1) in
    elim (Bool-cases (test x)) [
      | inl e ↦ rw (filter, e, later) (omega arith)
      | inr e ↦ rw (filter, e, later) (omega arith)
    ]

-- The first element that a filter keeps stands at its number, and passes the test.
filter_enumerate-cons {ℓ} :
    {A : Type ℓ} (test : ℕ × A → Bool) (xs : List A) (start index : ℕ) {x : A} {rest : List (ℕ × A)}
    → filter test (enumerate_from start xs) ≡ (index, x) ∷ rest
    → (j : ℕ) × (index ≡ start + j) × (get_elem? xs j ≡ some x) × (test (index, x) ≡ true)
unfolding filter enumerate_from
filter_enumerate-cons test [] start index h = absurd (cc)
filter_enumerate-cons {A = A} test (y ∷ ys) start index {x} h =
    elim (Bool-cases (test (start, y))) [
      | inl e ↦
          let kept = rw (filter, e) at h in
          let place : start ≡ index = cc in
          let same : y ≡ x = cc in (0, omega (arith, place), cc, cc)
      | inr e ↦
          let (j, place, at, passes) =
            filter_enumerate-cons {A = A} test ys (start + 1) index (rw (filter, e) at h) in
          (suc j, omega (arith, place), at, passes)
    ]

key_ref-eq-slot :
    (declared : ResolvedRowKey) (found : List (ℕ × Field)) (index type_oid : ℕ)
    → key_ref declared found ≡ slot index type_oid
    → (g : Field) × (found ≡ (index, g) ∷ [])
      × (g.type_oid ≡ type_oid)
      × (declared.type_oid ≡ type_oid)
unfolding key_ref
key_ref-eq-slot declared [] index type_oid h = absurd (cc)
key_ref-eq-slot declared (e ∷ f ∷ more) index type_oid h = absurd (cc)
key_ref-eq-slot declared ((i, field) ∷ []) index type_oid h =
    elim (Bool-cases (field.type_oid == declared.type_oid)) [
      | inl b ↦
          let taken = rw (key_ref, b) at h in
          let same : field.type_oid ≡ declared.type_oid = ground (arith, b) in (field, cc, cc, cc)
      | inr b ↦ let refused = rw (key_ref, b) at h in absurd (cc)
    ]

module _ {S : Type 0} where
  -- Where a row's key is read from a slot, the result's table declares a key, the field at the
  -- slot's index is this key, with the type of the slot and of the declaration, and no other field
  -- of the result is this key: a key that is not declared, that a result carries twice, or that it
  -- carries in another type, is never read.
  pub row_key_ref-slot :
      (r : Resolved S) (table_oid : ℕ) (fields : List Field) (index type_oid : ℕ)
      → row_key_ref r table_oid fields ≡ slot index type_oid
      → (declared : ResolvedRowKey) × (g : Field) × (r.row_keys table_oid ≡ some declared)
        × (get_elem? fields index ≡ some g)
        × (is_key table_oid declared g ≡ true)
        × (g.type_oid ≡ type_oid)
        × (declared.type_oid ≡ type_oid)
        × (occurrences (is_key table_oid declared) fields ≡ 1)
  unfolding row_key_ref key_fields
  row_key_ref-slot r table_oid fields index type_oid h =
      elim (Option-cases (r.row_keys table_oid)) [
        | inl e ↦ let undeclared = rw (row_key_ref, e) at h in absurd (cc)
        | inr (declared, e) ↦
            let (g, found, of_type, as_declared) =
              key_ref-eq-slot declared (key_fields table_oid declared fields) index type_oid
                (rw (row_key_ref, e) at h) in
            let (j, place, at, passes) =
              filter_enumerate-cons (λ (x : ℕ × Field). is_key table_oid declared x.1) fields 0
                index found in
            let placed : index ≡ j = omega (arith, place) in
            (
              declared,
              g,
              e,
              rw placed at,
              passes,
              of_type,
              as_declared,
              rw (← length-filter_enumerate (is_key table_oid declared) fields 0, found) refl,
            )
      ]

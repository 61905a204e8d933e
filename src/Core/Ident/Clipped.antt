-- ===== src/Core/Ident/Clipped.antt =====
-- `fold_identifier` and `truncate_identifier` of crates/core/src/ident.rs.
use dbsec.Prelude.{
  ℕ, zero, suc, ◌+◌, ◌≤◌, ◌≡◌, refl, ap, Bool, true, false, [], ◌∷◌, leb, le→leb, if◌then◌else◌,
  length, length-take, Bytes, arith, Bool-cases, inl, inr,
}
use dbsec.Core.Ident.{
  max_identifier_bytes, boundary_below, truncate_identifier, is_ascii_uppercase, to_ascii_lowercase,
  any_uppercase, fold_identifier,
}

boundary_below-le : (value : Bytes) (at : ℕ) → boundary_below value at ≤ at
unfolding boundary_below
boundary_below-le value zero = omega arith
boundary_below-le value (suc at) = ground (arith, boundary_below-le value at)

-- A truncated identifier has at most 63 bytes.
pub length-truncate_identifier :
    (value : Bytes) → length (truncate_identifier value) ≤ max_identifier_bytes
unfolding truncate_identifier
length-truncate_identifier value = elim (Bool-cases (leb (length value) 63)) [
  | inl short ↦ rw (truncate_identifier, short) (ground (arith, short))
  | inr long ↦
      rw (truncate_identifier, long)
        (omega (arith, length-take (boundary_below value 63) value, boundary_below-le value 63))
]

truncate_short :
    (value : Bytes) → length value ≤ max_identifier_bytes → truncate_identifier value ≡ value
unfolding truncate_identifier
truncate_short value h = rw (le→leb (length value) 63 h)

length-to_ascii_lowercase : (bs : Bytes) → length (to_ascii_lowercase bs) ≡ length bs
unfolding to_ascii_lowercase
length-to_ascii_lowercase [] = refl
length-to_ascii_lowercase (b ∷ bs) = ap suc (length-to_ascii_lowercase bs)

lowered : (b : ℕ) → is_ascii_uppercase (if is_ascii_uppercase b then b + 32 else b) ≡ false
unfolding is_ascii_uppercase
lowered b = ground arith

any_uppercase-to_ascii_lowercase : (bs : Bytes) → any_uppercase (to_ascii_lowercase bs) ≡ false
unfolding any_uppercase to_ascii_lowercase
any_uppercase-to_ascii_lowercase [] = refl
any_uppercase-to_ascii_lowercase (b ∷ bs) = rw (lowered b, any_uppercase-to_ascii_lowercase bs)

length-fold_identifier :
    (value : Bytes) (quoted : Bool) → length (fold_identifier value quoted) ≤ max_identifier_bytes
unfolding fold_identifier
length-fold_identifier value quoted =
    ground (
      arith,
      length-truncate_identifier value,
      length-to_ascii_lowercase (truncate_identifier value),
    )

folded : (value : Bytes) → any_uppercase (fold_identifier value false) ≡ false
unfolding fold_identifier
folded value = elim (Bool-cases (any_uppercase (truncate_identifier value))) [
  | inl upper ↦
      rw (fold_identifier, upper) (any_uppercase-to_ascii_lowercase (truncate_identifier value))
  | inr lower ↦ rw (fold_identifier, lower) lower
]

refolded :
    (value : Bytes) (quoted : Bool)
    → length value ≤ max_identifier_bytes
    → any_uppercase value ≡ false
    → fold_identifier value quoted ≡ value
unfolding fold_identifier
refolded value true h k = rw (truncate_short value h)
refolded value false h k = rw (truncate_short value h, k)

-- Folding an unquoted identifier gives at most 63 bytes with no upper-case letter, and folding the
-- result again, as a quoted name or not, changes nothing: a name that was configured or looked up
-- in folded form is compared with itself.
pub fold_identifier_lem :
    (value : Bytes) (quoted : Bool)
    → (length (fold_identifier value false) ≤ max_identifier_bytes)
      × (any_uppercase (fold_identifier value false) ≡ false)
      × (fold_identifier (fold_identifier value false) quoted ≡ fold_identifier value false)
fold_identifier_lem value quoted = (
  length-fold_identifier value false,
  folded value,
  refolded (fold_identifier value false) quoted (length-fold_identifier value false) (folded value),
)

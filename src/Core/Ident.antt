-- ===== src/Core/Ident.antt =====
-- crates/core/src/ident.rs: identifiers as PostgreSQL folds and clips them. An identifier is its
-- UTF-8 bytes; a byte from 128 to 191 continues a character.
pub mod Clipped
use dbsec.Prelude.{
  ℕ, zero, suc, ◌+◌, ◌-◌, Bool, true, false, not, ◌&&◌, ◌||◌, Option, none, some, List, [], ◌∷◌,
  leb, ltb, ◌==◌, if◌then◌else◌, length, take, get_elem?, Bytes,
}

abbrev pub max_identifier_bytes : ℕ
max_identifier_bytes = 63

abbrev continues : Option ℕ → Bool
continues none = false
continues (some b) = leb 128 b && ltb b 192

-- `str::is_char_boundary`, within the text
unfoldable pub is_char_boundary : Bytes → ℕ → Bool
is_char_boundary value at = at == 0 || not (continues (get_elem? value at))

-- `while !value.is_char_boundary(end) { end -= 1; }`
unfoldable pub boundary_below : Bytes → ℕ → ℕ
unfolding is_char_boundary
boundary_below value zero = 0
boundary_below value (suc at) =
    let lower = boundary_below value at in if is_char_boundary value (suc at) then suc at else lower

unfoldable pub truncate_identifier : Bytes → Bytes
unfolding boundary_below
truncate_identifier value =
    if leb (length value) max_identifier_bytes
    then value
    else take (boundary_below value max_identifier_bytes) value

unfoldable pub is_ascii_uppercase : ℕ → Bool
is_ascii_uppercase b = leb b'A' b && leb b b'Z'

unfoldable pub to_ascii_lowercase : Bytes → Bytes
unfolding is_ascii_uppercase
to_ascii_lowercase [] = []
to_ascii_lowercase (b ∷ bs) = (if is_ascii_uppercase b then b + 32 else b) ∷ to_ascii_lowercase bs

unfoldable pub any_uppercase : Bytes → Bool
unfolding is_ascii_uppercase
any_uppercase [] = false
any_uppercase (b ∷ bs) = is_ascii_uppercase b || any_uppercase bs

unfoldable pub fold_identifier : Bytes → Bool → Bytes
unfolding truncate_identifier any_uppercase to_ascii_lowercase
fold_identifier value quoted =
    let clipped = truncate_identifier value in
    if quoted || not (any_uppercase clipped) then clipped else to_ascii_lowercase clipped

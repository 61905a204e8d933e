-- ===== src/Proxy/Arrays.antt =====
-- crates/proxy/src/encrypt/array.rs: the array that a Bind carries for `= ANY($n)`, in both formats.
-- A position in a text is the list of the bytes from there on.
pub mod Binary
pub mod Text
mod Tests
use dbsec.Prelude.{
  ℕ, zero, suc, ◌+◌, ◌-◌, ◌^◌, Bool, true, false, not, ◌&&◌, ◌||◌, Option, none, some, List, [],
  ◌∷◌, ◌++◌, ◌==◌, leb, ltb, if◌then◌else◌, length, take, drop, Result, ok, err, Bytes, bytes_eq,
  codes, from_be, be32, be_i32, i32_of, ℤ, pos, negsuc, starts_with,
}
use dbsec.Core.RowKeys.{Texts, strip_brace}
use dbsec.Core.Transform.{WireForm, bytea, text}
use dbsec.Proxy.{Error, wire}
use dbsec.Proxy.Rows.{FieldTransform, any}
use dbsec.Proxy.Rows.Cells.{Hex, hex_decoded}

infixl 5 ◌>>=◌
abbrev pub ◌>>=◌ {ℓ κ} : {A : Type ℓ} {B : Type κ} → Option A → (A → Option B) → Option B
none >>= f = none
some a >>= f = f a

abbrev pub bytea_oid : ℕ
bytea_oid = 17

abbrev pub indexable_element_oids : List ℕ
indexable_element_oids = bytea_oid ∷ 19 ∷ 25 ∷ 705 ∷ 1042 ∷ 1043 ∷ []

abbrev pub max_array_elements : ℕ
max_array_elements = 65536

abbrev pub Elements : Type 0
Elements = List (Option Bytes)

pub record BoundArray : Type 0 where
  pub elements : Elements
  pub lower_bound : ℤ

unfoldable pub take_i32 : Bytes → Option (ℤ × Bytes)
take_i32 buf = if ltb (length buf) 4 then none else some (i32_of (from_be (take 4 buf)), drop 4 buf)

unfoldable pub is_indexable : ℤ → Bool
unfolding any
is_indexable (pos oid) = any (λ known. known == oid) indexable_element_oids
is_indexable (negsuc n) = false

-- one element behind its size, which is -1 for a NULL
unfoldable pub element_body : ℤ → Bytes → Option (Option Bytes × Bytes)
element_body (pos size) raw =
    if ltb (length raw) size then none else some (some (take size raw), drop size raw)
element_body (negsuc zero) raw = some (none, raw)
element_body (negsuc (suc n)) raw = none

-- `for _ in 0..count`
unfoldable pub binary_elements : ℕ → Bytes → Option (Elements × Bytes)
unfolding element_body
binary_elements zero raw = some ([], raw)
binary_elements (suc count) raw = do
  (size, rest) ← take_i32 raw
  (element, rest') ← element_body size rest
  (elements, rest'') ← binary_elements count rest'
  some (element ∷ elements, rest'')

-- `raw.is_empty().then_some(..)`
unfoldable pub whole_array : Elements → ℤ → Bytes → Option BoundArray
whole_array elements lower_bound [] =
    some (record { elements = elements; lower_bound = lower_bound })
whole_array elements lower_bound (b ∷ rest) = none

-- `usize::try_from(count).ok().filter(..)`
unfoldable pub element_count : ℤ → Option ℕ
element_count (pos count) = if leb count max_array_elements then some count else none
element_count (negsuc n) = none

unfoldable pub one_dimension : Bytes → Option BoundArray
unfolding element_count binary_elements whole_array
one_dimension raw = do
  (count, rest) ← take_i32 raw
  (lower_bound, rest') ← take_i32 rest
  n ← element_count count
  (elements, rest'') ← binary_elements n rest'
  whole_array elements lower_bound rest''

unfoldable pub dimensions : ℤ → Bytes → Option BoundArray
unfolding one_dimension whole_array
dimensions (pos ndim) raw =
    if ndim == 0 then whole_array [] (pos 1) raw else if ndim == 1 then one_dimension raw else none
dimensions (negsuc n) raw = none

unfoldable pub decode_binary_array : Bytes → Option BoundArray
unfolding dimensions is_indexable
decode_binary_array raw = do
  (ndim, rest) ← take_i32 raw
  (flags, rest') ← take_i32 rest
  (element_oid, rest'') ← take_i32 rest'
  if is_indexable element_oid then dimensions ndim rest'' else none

is_none : Option Bytes → Bool
is_none none = true
is_none (some b) = false

unfoldable pub encode_elements : Bytes → Elements → Option Bytes
encode_elements out [] = some out
encode_elements out (none ∷ es) = encode_elements (out ++ be32 (2 ^ 32 - 1)) es
encode_elements out (some token ∷ es) =
    let rest = encode_elements (out ++ (be32 (length token) ++ token)) es in
    if ltb (length token) (2 ^ 31) then rest else none

-- the dimensions, whether there is a NULL, and the element type
unfoldable pub array_header : Elements → Bytes
unfolding any is_none
array_header elements =
    be32 (elim elements [ [] ↦ 0 | e ∷ es ↦ 1 ])
    ++ (be32 (if any is_none elements then 1 else 0) ++ be32 bytea_oid)

unfoldable pub encode_binary_array : Elements → ℤ → Option Bytes
unfolding array_header encode_elements
encode_binary_array elements lower_bound =
    if ltb (length elements) (2 ^ 31)
    then elim elements [
      | [] ↦ some (array_header [])
      | e ∷ es ↦
          encode_elements (array_header (e ∷ es) ++ (be32 (length (e ∷ es)) ++ be_i32 lower_bound))
            (e ∷ es)
    ]
    else none

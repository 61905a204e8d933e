-- ===== src/Pgwire/Cursor.antt =====
-- The primitives that read from the front of a body, and their inverses that append to a buffer.
-- A function on `&mut &[u8]` is a function from the bytes left to its result and the bytes that
-- it leaves; after an error nothing reads the cursor again.
pub mod Laws
pub mod Exact
use dbsec.Prelude.{
  ℕ, zero, suc, ◌-◌, ◌^◌, Option, none, some, List, [], ◌∷◌, ◌++◌, ltb, leb, ◌==◌, if◌then◌else◌,
  length, drop, Result, ok, err, Bytes, from_be, be16, be32, ℤ, pos, negsuc, i16_of, i32_of,
}
use dbsec.Prelude
use dbsec.Pgwire.{Error, malformed_backend, wire_field_overflow}

abbrev pub Cursor {ℓ} : Type ℓ → Type ℓ
Cursor A = Bytes → Result Error (A × Bytes)

module _ {ℓ κ} {A : Type ℓ} {B : Type κ} where
  abbrev continue : Result Error (A × Bytes) → (A → Cursor B) → Result Error (B × Bytes)
  continue (ok (a, rest)) f = f a rest
  continue (err e) f = err e

  infixl 5 ◌>>=◌
  abbrev pub ◌>>=◌ : Cursor A → (A → Cursor B) → Cursor B
  ◌>>=◌ m f buf = continue (m buf) f

infixl 5 ◌>>◌
abbrev pub ◌>>◌ {ℓ κ} : {A : Type ℓ} {B : Type κ} → Cursor A → Cursor B → Cursor B
m >> k = m >>= λ _. k

abbrev pub pure {ℓ} : {A : Type ℓ} → A → Cursor A
pure a buf = ok (a, buf)

abbrev pub fail {ℓ} : {A : Type ℓ} → Error → Cursor A
fail e buf = err e

unfoldable pub take : ℕ → Cursor Bytes
take n buf =
    if leb n (length buf) then ok (Prelude.take n buf, drop n buf) else err malformed_backend

-- `position(|&b| b == 0)` and the split there: the bytes before the terminator, and those behind.
split_nul : Bytes → Option (Bytes × Bytes)
split_nul [] = none
split_nul (b ∷ bs) =
    let rest = split_nul bs in
    if b == 0
    then some ([], bs)
    else elim rest [ none ↦ none | some (head, tail) ↦ some (b ∷ head, tail) ]

unfoldable pub take_cstr : Cursor Bytes
unfolding split_nul
take_cstr buf = elim (split_nul buf) [ none ↦ err malformed_backend | some p ↦ ok p ]

unfoldable pub take_u32 : Cursor ℕ
unfolding take
take_u32 = do bytes ← take 4; pure (from_be bytes)

unfoldable pub take_i16 : Cursor ℤ
unfolding take
take_i16 = do bytes ← take 2; pure (i16_of (from_be bytes))

nullable_body : ℤ → Cursor (Option Bytes)
unfolding take
nullable_body (pos len) = do v ← take len; pure (some v)
nullable_body (negsuc zero) = pure none
nullable_body (negsuc (suc n)) = fail malformed_backend

unfoldable pub take_nullable : Cursor (Option Bytes)
unfolding take nullable_body
take_nullable = do len ← take 4; nullable_body (i32_of (from_be len))

-- `for _ in 0..count { out.push(item(&mut body)?) }`
unfoldable pub take_times {ℓ} : {A : Type ℓ} → ℕ → Cursor A → Cursor (List A)
take_times zero item = pure []
take_times (suc n) item = do x ← item; xs ← take_times n item; pure (x ∷ xs)

-- The length of the range `0..count`: a negative count gives no round.
abbrev pub rounds : ℤ → ℕ
rounds (pos n) = n
rounds (negsuc n) = 0

-- A parser that must read its whole body: `if !body.is_empty() { return Err(..) }` at its end.
finish {ℓ} : {A : Type ℓ} → A → Bytes → Result Error A
finish a [] = ok a
finish a (b ∷ rest) = err malformed_backend

unfoldable pub whole {ℓ} : {A : Type ℓ} → Cursor A → Bytes → Result Error A
unfolding finish
whole item body = elim (item body) [ ok (a, rest) ↦ finish a rest | err e ↦ err e ]

unfoldable pub push_nullable : Bytes → Option Bytes → Result Error Bytes
push_nullable out none = ok (out ++ be32 (2 ^ 32 - 1))
push_nullable out (some v) =
    if ltb (length v) (2 ^ 31) then ok (out ++ (be32 (length v) ++ v)) else err wire_field_overflow

unfoldable pub wire_count : ℕ → Result Error ℕ
wire_count len = if ltb len (2 ^ 15) then ok len else err wire_field_overflow

-- `for value in values { push_nullable(&mut out, value)?; }`
unfoldable pub push_all : Bytes → List (Option Bytes) → Result Error Bytes
unfolding push_nullable
push_all out [] = ok out
push_all out (v ∷ vs) = elim (push_nullable out v) [ ok out' ↦ push_all out' vs | err e ↦ err e ]

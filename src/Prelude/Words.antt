-- ===== src/Prelude/Words.antt =====
-- Fixed-width integers: big-endian bytes, and the signed reading of a bit pattern.
use Prim.Native.Nat.{ℕ, ◌+◌, ◌-◌, ◌*◌, ◌/◌, ◌%◌, ◌^◌, ◌<◌}
use mathlib.Core.Path.{◌≡◌}
use mathlib.Core.List.{[], ◌∷◌}
use native.Mathlib.Omega.{arith}
use dbsec.Prelude.Tests.{ltb, if◌then◌else◌}
use dbsec.Prelude.ByteStrings.{Bytes, IsBytes}

-- `negsuc n` is -(n + 1).
pub data ℤ : Type 0 where
  pos : ℕ → ℤ
  negsuc : ℕ → ℤ

-- `from_be_bytes` of an unsigned integer: the first byte is the most significant.
abbrev from_be_onto : ℕ → Bytes → ℕ
from_be_onto acc [] = acc
from_be_onto acc (b ∷ bs) = from_be_onto (acc * 256 + b) bs

abbrev pub from_be : Bytes → ℕ
from_be = from_be_onto 0

-- `to_be_bytes` of a u16 and of a u32.
abbrev pub be16 : ℕ → Bytes
be16 n = (n / 256 % 256) ∷ (n % 256) ∷ []

abbrev pub be32 : ℕ → Bytes
be32 n = (n / 2 ^ 24 % 256) ∷ (n / 2 ^ 16 % 256) ∷ (n / 2 ^ 8 % 256) ∷ (n % 256) ∷ []

-- The two's complement reading of a w-bit pattern, `m` being 2 ^ w and `h` its half.
abbrev signed : ℕ → ℕ → ℕ → ℤ
signed h m n = if ltb n h then pos n else negsuc (m - 1 - n)

abbrev pattern_of : ℕ → ℤ → ℕ
pattern_of m (pos n) = n % m
pattern_of m (negsuc n) = m - 1 - n % m

abbrev pub i16_of : ℕ → ℤ
i16_of = signed (2 ^ 15) (2 ^ 16)

abbrev pub i32_of : ℕ → ℤ
i32_of = signed (2 ^ 31) (2 ^ 32)

-- `i16::to_be_bytes`.
abbrev pub be_i16 : ℤ → Bytes
be_i16 z = be16 (pattern_of (2 ^ 16) z)

-- The values of an i16 and of an i32.
abbrev pub IsI16 : ℤ → Type 0
IsI16 (pos n) = n < 2 ^ 15
IsI16 (negsuc n) = n < 2 ^ 15

pub from_be-be16 : (n : ℕ) → n < 2 ^ 16 → from_be (be16 n) ≡ n
from_be-be16 n h = omega arith

pub from_be-be32 : (n : ℕ) → n < 2 ^ 32 → from_be (be32 n) ≡ n
from_be-be32 n h = omega arith

pub i16_of-be_i16 : (z : ℤ) → IsI16 z → i16_of (from_be (be_i16 z)) ≡ z
i16_of-be_i16 (pos n) h = ground arith
i16_of-be_i16 (negsuc n) h = ground arith

-- Four bytes are the big-endian bytes of the number that they stand for.
pub be32-from_be :
    (a b c d : ℕ)
    → IsBytes (a ∷ b ∷ c ∷ d ∷ [])
    → be32 (from_be (a ∷ b ∷ c ∷ d ∷ [])) ≡ a ∷ b ∷ c ∷ d ∷ []
be32-from_be a b c d h = ground arith

pub be16-from_be : (a b : ℕ) → IsBytes (a ∷ b ∷ []) → be16 (from_be (a ∷ b ∷ [])) ≡ a ∷ b ∷ []
be16-from_be a b h = ground arith

-- `i32::to_be_bytes`.
abbrev pub be_i32 : ℤ → Bytes
be_i32 z = be32 (pattern_of (2 ^ 32) z)

abbrev pub IsI32 : ℤ → Type 0
IsI32 (pos n) = n < 2 ^ 31
IsI32 (negsuc n) = n < 2 ^ 31

pub i32_of-be_i32 : (z : ℤ) → IsI32 z → i32_of (from_be (be_i32 z)) ≡ z
i32_of-be_i32 (pos n) h = ground arith
i32_of-be_i32 (negsuc n) h = ground arith

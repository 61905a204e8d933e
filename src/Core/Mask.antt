-- ===== src/Core/Mask.antt =====
-- crates/core/src/mask.rs: masking of a value. A text is a list of characters; what decodes UTF-8 is
-- std's `from_utf8`, a parameter, and a `String`'s bytes are its inverse.
pub mod Hidden
use dbsec.Prelude.{
  ℕ, zero, suc, ◌+◌, ◌-◌, ◌%◌, ◌^◌, Bool, true, false, ◌||◌, Option, none, some, List, [], ◌∷◌, leb,
  ltb, if◌then◌else◌, length, replicate, Bytes,
}

pub record MaskSpec : Type 0 where
  pub keep_first : ℕ
  pub keep_last : ℕ
  pub mask_with : ℕ

-- `std::str::from_utf8` and `String::into_bytes`, on characters as code points.
pub record Utf8 : Type 0 where
  pub decode_text : Bytes → Option (List ℕ)
  pub encode_text : List ℕ → Bytes

abbrev pub default_mask_with : ℕ
default_mask_with = b'*'

-- usize arithmetic as a release build does it
unfoldable pub usize_add : ℕ → ℕ → ℕ
usize_add a b = (a + b) % 2 ^ 64

unfoldable pub usize_sub : ℕ → ℕ → ℕ
usize_sub a b = (a + 2 ^ 64 - b) % 2 ^ 64

unfoldable pub shown : MaskSpec → ℕ → ℕ → ℕ → ℕ
unfolding usize_sub
shown m count i c =
    if ltb i m.keep_first || leb (usize_sub count m.keep_last) i then c else m.mask_with

unfoldable pub shown_from : MaskSpec → ℕ → ℕ → List ℕ → List ℕ
unfolding shown
shown_from m count i [] = []
shown_from m count i (c ∷ cs) = shown m count i c ∷ shown_from m count (i + 1) cs

unfoldable pub apply_chars : MaskSpec → List ℕ → List ℕ
unfolding usize_add shown_from
apply_chars m cs =
    if leb (length cs) (usize_add m.keep_first m.keep_last)
    then replicate (length cs) m.mask_with
    else shown_from m (length cs) 0 cs

unfoldable pub apply : Utf8 → MaskSpec → Bytes → Bytes
unfolding apply_chars
apply utf8 m value = elim (utf8.decode_text value) [
  | some cs ↦ utf8.encode_text (apply_chars m cs)
  | none ↦ utf8.encode_text (replicate (length value) m.mask_with)
]

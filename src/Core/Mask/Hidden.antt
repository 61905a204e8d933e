-- ===== src/Core/Mask/Hidden.antt =====
-- `MaskSpec::apply` of crates/core/src/mask.rs: which characters show.
use dbsec.Prelude.{
  ℕ, ◌+◌, ◌-◌, ◌^◌, ◌<◌, ◌≤◌, ◌≡◌, refl, false, List, [], ◌∷◌, ◌++◌, leb, length, length-append,
  replicate, arith, ap, ap₂, ◌∙◌,
}
use dbsec.Core.Mask.{MaskSpec, usize_add, usize_sub, shown, shown_from, apply_chars}

shown_first : (m : MaskSpec) (count i c : ℕ) → i < m.keep_first → shown m count i c ≡ c
unfolding shown
shown_first m count i c h = ground arith

-- the characters in front, all within what is kept
shown_from-first :
    (m : MaskSpec) (count i : ℕ) (cs rest : List ℕ)
    → i + length cs ≤ m.keep_first
    → shown_from m count i (cs ++ rest) ≡ cs ++ shown_from m count (i + length cs) rest
unfolding shown_from
shown_from-first m count i [] rest h = ap (λ n. shown_from m count n rest) (omega arith)
shown_from-first m count i (c ∷ cs) rest h = ap₂ ◌∷◌ (shown_first m count i c (omega arith)) (
    shown_from-first m count (i + 1) cs rest (omega arith)
    ∙ ap (λ n. cs ++ shown_from m count n rest) (omega arith))

module _ (m : MaskSpec) (count : ℕ) (fits : count < 2 ^ 64)
    (longer : m.keep_first + m.keep_last < count) where
  shown_last : (i c : ℕ) → count - m.keep_last ≤ i → shown m count i c ≡ c
  unfolding shown usize_sub
  shown_last i c h = ground arith

  shown_middle :
      (i c : ℕ) → m.keep_first ≤ i → i < count - m.keep_last → shown m count i c ≡ m.mask_with
  unfolding shown usize_sub
  shown_middle i c h k = ground arith

  shown_from-last : (i : ℕ) (cs : List ℕ) → count - m.keep_last ≤ i → shown_from m count i cs ≡ cs
  unfolding shown_from
  shown_from-last i [] h = refl
  shown_from-last i (c ∷ cs) h =
      ap₂ ◌∷◌ (shown_last i c h) (shown_from-last (i + 1) cs (omega arith))

  shown_from-middle :
      (i : ℕ) (cs rest : List ℕ)
      → m.keep_first ≤ i
      → i + length cs ≤ count - m.keep_last
      → shown_from m count i (cs ++ rest)
        ≡ replicate (length cs) m.mask_with ++ shown_from m count (i + length cs) rest
  unfolding shown_from
  shown_from-middle i [] rest h k = ap (λ n. shown_from m count n rest) (omega arith)
  shown_from-middle i (c ∷ cs) rest h k = ap₂ ◌∷◌ (shown_middle i c h (omega arith)) (
      shown_from-middle (i + 1) cs rest (omega arith) (omega arith)
      ∙ ap (λ n. replicate (length cs) m.mask_with ++ shown_from m count n rest) (omega arith))

-- A text longer than what is kept, of fewer than 2^64 characters, shows its first `keep_first`
-- and its last `keep_last` characters, and each character between them is the masking character.
pub apply_chars_lem :
    (m : MaskSpec) (first middle last : List ℕ)
    → length first ≡ m.keep_first
    → length last ≡ m.keep_last
    → 0 < length middle
    → length first + length middle + length last < 2 ^ 64
    → apply_chars m (first ++ (middle ++ last))
      ≡ first ++ (replicate (length middle) m.mask_with ++ last)
unfolding apply_chars usize_add
apply_chars_lem m first middle last f l some_middle fits =
    let count = length (first ++ (middle ++ last)) in
    let total : length (first ++ (middle ++ last)) ≡ length first + (length middle + length last) =
      omega (arith, length-append {0} first (middle ++ last), length-append {0} middle last) in
    let long : leb count (usize_add m.keep_first m.keep_last) ≡ false = ground (arith, total) in
    rw long (
      shown_from-first m count 0 first (middle ++ last) (omega arith)
      ∙ ap (λ n. first ++ shown_from m count n (middle ++ last)) (omega arith)
      ∙ ap (◌++◌ first) (
          shown_from-middle m count (omega (arith, total)) (omega (arith, total)) (length first)
            middle last (omega arith) (omega (arith, total))
          ∙ ap (◌++◌ (replicate (length middle) m.mask_with)) (
              shown_from-last m count (omega (arith, total)) (omega (arith, total)) _ last
                (omega (arith, total)))))

shown_from-whole :
    (m : MaskSpec) (count i : ℕ) (cs : List ℕ)
    → i + length cs ≤ m.keep_first
    → shown_from m count i cs ≡ cs
unfolding shown_from
shown_from-whole m count i [] h = refl
shown_from-whole m count i (c ∷ cs) h =
    ap₂ ◌∷◌ (shown_first m count i c (omega arith))
      (shown_from-whole m count (i + 1) cs (omega arith))

-- Where `keep_first + keep_last` is 2^64, the sum wraps around to 0, and a text no longer than
-- `keep_first` is shown whole instead of being masked whole.
pub apply_chars_wraps :
    (m : MaskSpec) (cs : List ℕ)
    → m.keep_first + m.keep_last ≡ 2 ^ 64
    → 0 < length cs
    → length cs ≤ m.keep_first
    → apply_chars m cs ≡ cs
unfolding apply_chars usize_add
apply_chars_wraps m cs wraps pos' fits =
    let long : leb (length cs) (usize_add m.keep_first m.keep_last) ≡ false = ground arith in
    rw long (shown_from-whole m (length cs) 0 cs (omega arith))

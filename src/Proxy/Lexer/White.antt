-- ===== src/Proxy/Lexer/White.antt =====
-- `str::trim` and `str::trim_start` on UTF-8 text, which crates/proxy/src/encrypt/lexer.rs calls: the
-- characters of Unicode's White_Space property are dropped.
use dbsec.Prelude.{
  is_empty, ℕ, ◌≤◌, Bool, ◌&&◌, ◌||◌, [], ◌∷◌, ◌==◌, leb, if◌then◌else◌, length, Bytes, arith, inl,
  inr, Bool-cases,
}

-- U+0009 to U+000D and the space
is_ascii_white : ℕ → Bool
is_ascii_white a = (leb 9 a && leb a 13) || a == 32

-- U+0085 and U+00A0
is_latin_white : ℕ → ℕ → Bool
is_latin_white a b = a == 194 && (b == 133 || b == 160)

-- U+1680, U+2000 to U+200A, U+2028, U+2029, U+202F, U+205F and U+3000
is_wide_white : ℕ → ℕ → ℕ → Bool
is_wide_white a b c =
    (a == 225 && (b == 154 && c == 128))
    || (a == 226
        && ((b == 128 && ((leb 128 c && leb c 138) || (c == 168 || (c == 169 || c == 175))))
            || (b == 129 && c == 159)))
    || (a == 227 && (b == 128 && c == 128))

unfoldable pub trim_start : Bytes → Bytes
unfolding is_ascii_white is_latin_white is_wide_white
trim_start [] = []
trim_start (a ∷ []) = if is_ascii_white a then [] else a ∷ []
trim_start (a ∷ b ∷ []) =
    let rest = trim_start (b ∷ []) in
    if is_ascii_white a then rest else if is_latin_white a b then [] else a ∷ b ∷ []
trim_start (a ∷ b ∷ c ∷ bs) =
    let one = trim_start (b ∷ c ∷ bs) in
    let two = trim_start (c ∷ bs) in
    let three = trim_start bs in
    if is_ascii_white a
    then one
    else if is_latin_white a b
    then two
    else if is_wide_white a b c
    then three
    else a ∷ b ∷ c ∷ bs

-- A text whose rest is white space ends where that rest begins.
unfoldable pub trim_end : Bytes → Bytes
trim_end [] = []
trim_end (b ∷ bs) =
    let rest = trim_end bs in if is_empty (trim_start (b ∷ bs)) then [] else b ∷ rest

unfoldable pub trim : Bytes → Bytes
trim text = trim_end (trim_start text)

pub length-trim_start : (text : Bytes) → length (trim_start text) ≤ length text
unfolding trim_start
length-trim_start [] = omega arith
length-trim_start (a ∷ []) = ground arith
length-trim_start (a ∷ b ∷ []) = ground (arith, length-trim_start (b ∷ []))
length-trim_start (a ∷ b ∷ c ∷ bs) =
    ground (arith, length-trim_start (b ∷ c ∷ bs), length-trim_start (c ∷ bs), length-trim_start bs)

length-trim_end : (text : Bytes) → length (trim_end text) ≤ length text
unfolding trim_end
length-trim_end [] = omega arith
length-trim_end (b ∷ bs) = elim (Bool-cases (is_empty (trim_start (b ∷ bs)))) [
  | inl e ↦ rw (trim_end, e) (omega arith)
  | inr e ↦ rw (trim_end, e) (omega (arith, length-trim_end bs))
]

pub length-trim : (text : Bytes) → length (trim text) ≤ length (trim_start text)
unfolding trim
length-trim text = length-trim_end (trim_start text)

-- ===== src/Proxy/Lexer/Skips.antt =====
-- The skipping functions of crates/proxy/src/encrypt/lexer.rs: how far they move.
use dbsec.Prelude.{
  ℕ, ◌+◌, ◌-◌, ◌≤◌, ◌<◌, ◌≡◌, Bool, true, false, ◌&&◌, Option, none, some, [], ◌∷◌, ◌==◌, length,
  length-drop, take, drop, Bytes, starts_with, arith, inl, inr, Bool-cases, Option-cases,
}
use dbsec.Proxy.Lexer.{
  slice, quoted_end, skip_quoted, backslash_escapes, position_of, body_end, tag_length,
  is_dollar_tag, skip_dollar_quoted, comment_end, skip_block_comment, line_end,
}

-- A position between `low` and `high`, if there is one.
abbrev pub Within : ℕ → ℕ → Option ℕ → Type 0
Within low high none = Unit
Within low high (some at) = (low ≤ at) × (at ≤ high)

widen : (l h l' h' : ℕ) (o : Option ℕ) → Within l h o → l' ≤ l → h ≤ h' → Within l' h' o
widen l h l' h' none w p q = tt
widen l h l' h' (some a) w p q = omega arith

quoted_end-Within :
    (quote : ℕ) (escapes : Bool) (at : ℕ) (bs : Bytes)
    → Within at (at + length bs) (quoted_end quote escapes at bs)
unfolding quoted_end
quoted_end-Within quote escapes at [] = tt
quoted_end-Within quote escapes at (b ∷ []) = ground arith
quoted_end-Within quote escapes at (b ∷ c ∷ bs) =
    let two =
      widen _ _ at (at + length (b ∷ c ∷ bs)) _ (quoted_end-Within quote escapes (at + 2) bs)
        (omega arith) (omega arith) in
    let one =
      widen _ _ at (at + length (b ∷ c ∷ bs)) _ (quoted_end-Within quote escapes (at + 1) (c ∷ bs))
        (omega arith) (omega arith) in
    elim (Bool-cases (b == b'\\' && escapes)) [
      | inl e ↦ rw (quoted_end, e) two
      | inr e ↦ elim (Bool-cases (b == quote)) [
        | inl f ↦ elim (Bool-cases (c == quote)) [
          | inl g ↦ rw (quoted_end, e, f, g) two
          | inr g ↦ rw (quoted_end, e, f, g) (omega arith)
        ]
        | inr f ↦ rw (quoted_end, e, f) one
      ]
    ]

comment_end-Within :
    (depth at : ℕ) (bs : Bytes) → Within (at + 1) (at + length bs) (comment_end depth at bs)
unfolding comment_end
comment_end-Within depth at [] = tt
comment_end-Within depth at (b ∷ []) = tt
comment_end-Within depth at (b ∷ c ∷ bs) =
    let two : (d : ℕ) → Within (at + 1) (at + length (b ∷ c ∷ bs)) (comment_end d (at + 2) bs) =
      λ d. widen _ _ _ _ _ (comment_end-Within d (at + 2) bs) (omega arith) (omega arith) in
    let one =
      widen _ _ (at + 1) (at + length (b ∷ c ∷ bs)) _ (comment_end-Within depth (at + 1) (c ∷ bs))
        (omega arith) (omega arith) in
    elim (Bool-cases (b == b'/' && c == b'*')) [
      | inl e ↦ rw (comment_end, e) (two (depth + 1))
      | inr e ↦ elim (Bool-cases (b == b'*' && c == b'/')) [
        | inl f ↦ elim (Bool-cases (depth - 1 == 0)) [
          | inl g ↦ rw (comment_end, e, f, g) (omega arith)
          | inr g ↦ rw (comment_end, e, f, g) (two (depth - 1))
        ]
        | inr f ↦ rw (comment_end, e, f) one
      ]
    ]

length-starts_with : (xs ys : Bytes) → starts_with xs ys ≡ true → length ys ≤ length xs
unfolding starts_with
length-starts_with xs [] h = omega arith
length-starts_with [] (y ∷ ys) h = ground arith
length-starts_with (x ∷ xs) (y ∷ ys) h = ground (arith, length-starts_with xs ys)

body_end-Within :
    (tag : Bytes) (at : ℕ) (bs : Bytes) → Within at (at + length bs) (body_end tag at bs)
unfolding body_end
body_end-Within tag at [] = tt
body_end-Within tag at (b ∷ bs) = elim (Bool-cases (starts_with (b ∷ bs) tag)) [
  | inl e ↦ rw (body_end, e) (omega (arith, length-starts_with (b ∷ bs) tag e))
  | inr e ↦
      rw (body_end, e)
        (widen _ _ _ _ _ (body_end-Within tag (at + 1) bs) (omega arith) (omega arith))
]

position_of_lt : (byte : ℕ) (bs : Bytes) {n : ℕ} → position_of byte bs ≡ some n → n < length bs
unfolding position_of
position_of_lt byte [] h = ground arith
position_of_lt byte (b ∷ bs) h = elim (Option-cases (position_of byte bs)) [
  | inl e ↦ ground (arith, h, e)
  | inr (m, e) ↦ ground (arith, h, e, position_of_lt byte bs e)
]

tag_length_lt : (behind : Bytes) {n : ℕ} → tag_length behind ≡ some n → n < length behind
unfolding tag_length
tag_length_lt behind h = elim (Option-cases (position_of b'$' behind)) [
  | inl e ↦ ground (arith, h, e)
  | inr (m, e) ↦ elim (Bool-cases (is_dollar_tag (take m behind))) [
    | inl f ↦ ground (arith, h, e, f, position_of_lt b'$' behind e)
    | inr f ↦ ground (arith, h, e, f)
  ]
]

module _ (sql : Bytes) (at : ℕ) (inside : at < length sql) where
  -- what a function skips from `at` on
  abbrev pub Moves : Option ℕ → Type 0
  Moves = Within (at + 1) (length sql)

  pub skip_quoted-Moves : (quote : ℕ) → Moves (skip_quoted sql quote at)
  unfolding skip_quoted
  skip_quoted-Moves quote =
      widen _ _ _ _ _
        (quoted_end-Within quote (backslash_escapes sql quote at) (at + 1) (drop (at + 1) sql))
        (omega arith) (omega (arith, length-drop (at + 1) sql, inside))

  pub skip_block_comment-Moves : Moves (skip_block_comment sql at)
  unfolding skip_block_comment
  skip_block_comment-Moves =
      widen _ _ _ _ _ (comment_end-Within 0 at (drop at sql)) (omega arith)
        (omega (arith, length-drop at sql, inside))

  pub skip_dollar_quoted-Moves : Moves (skip_dollar_quoted sql at)
  unfolding skip_dollar_quoted
  skip_dollar_quoted-Moves = elim (Option-cases (tag_length (drop (at + 1) sql))) [
    | inl e ↦ rw (skip_dollar_quoted, e) (omega (arith, inside))
    | inr (n, e) ↦
        rw (skip_dollar_quoted, e)
          (widen _ _ _ _ _
            (body_end-Within (slice sql at (at + n + 2)) (at + n + 2) (drop (at + n + 2) sql))
            (omega arith)
            (omega (
              arith,
              length-drop (at + n + 2) sql,
              tag_length_lt (drop (at + 1) sql) e,
              length-drop (at + 1) sql,
              inside,
            )))
  ]

  pub line_end-Moves :
      (b : ℕ) (rest : Bytes)
      → (b == b'\n') ≡ false
      → drop at sql ≡ b ∷ rest
      → Moves (some (line_end at (position_of b'\n' (b ∷ rest)) (length sql)))
  unfolding line_end position_of
  line_end-Moves b rest ne h =
      let size : length (b ∷ rest) ≡ length sql - at = rw h at (length-drop at sql) in
      elim (Option-cases (position_of b'\n' rest)) [
        | inl e ↦ rw (position_of, ne, e) (omega (arith, inside))
        | inr (n, e) ↦
            rw (position_of, ne, e) (omega (arith, inside, size, position_of_lt b'\n' rest e))
      ]

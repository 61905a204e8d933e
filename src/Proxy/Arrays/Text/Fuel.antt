-- ===== src/Proxy/Arrays/Text/Fuel.antt =====
-- The loop of `decode_text_array` in crates/proxy/src/encrypt/array.rs ends: each round but the last
-- leaves less of the text.
use dbsec.Prelude.{
  ℕ, zero, suc, ◌+◌, ◌≤◌, ◌<◌, ◌≡◌, refl, false, ◌||◌, Option, none, some, [], ◌∷◌, ◌==◌, ltb,
  length, length-drop, drop, Bytes, arith, inl, inr, Bool-cases, Option-cases,
}
use dbsec.Core.RowKeys.{Texts}
use dbsec.Core.Transform.{WireForm}
use dbsec.Proxy.Rows.Cells.{Hex}
use dbsec.Proxy.Arrays.{Elements, max_array_elements}
use dbsec.Proxy.Arrays.Text.{
  skip_whitespace, push_front, quoted_bytes, Unquoted, unquoted_bytes, trimmed, element,
  quoted_element, unquoted_element, from_utf8, text_elements, after_element,
}

length-skip_whitespace : (bs : Bytes) → length (skip_whitespace bs) ≤ length bs
unfolding skip_whitespace
length-skip_whitespace [] = omega arith
length-skip_whitespace (b ∷ bs) = ground (arith, length-skip_whitespace bs)

-- what a reader leaves, if it reads
abbrev Leaves {ℓ} : {A : Type ℓ} → ℕ → Option (A × Bytes) → Type 0
Leaves n none = Unit
Leaves n (some (a, rest)) = length rest ≤ n

push_front-Leaves :
    (n m b : ℕ) (o : Option (Bytes × Bytes)) → Leaves n o → n ≤ m → Leaves m (push_front b o)
unfolding push_front
push_front-Leaves n m b none h l = tt
push_front-Leaves n m b (some (v, rest)) h l = omega (arith, h, l)

quoted_bytes-Leaves : (bs : Bytes) → Leaves (length bs) (quoted_bytes bs)
unfolding quoted_bytes
quoted_bytes-Leaves [] = tt
quoted_bytes-Leaves (b ∷ []) = ground arith
quoted_bytes-Leaves (b ∷ c ∷ bs) = elim (Bool-cases (b == b'\\')) [
  | inl e ↦
      rw (quoted_bytes, e)
        (push_front-Leaves (length bs) _ c (quoted_bytes bs) (quoted_bytes-Leaves bs) (omega arith))
  | inr e ↦ elim (Bool-cases (b == b'"')) [
    | inl f ↦ rw (quoted_bytes, e, f) (omega arith)
    | inr f ↦
        rw (quoted_bytes, e, f)
          (push_front-Leaves (suc (length bs)) _ b (quoted_bytes (c ∷ bs))
            (quoted_bytes-Leaves (c ∷ bs)) (omega arith))
  ]
]

weaken {ℓ} : {A : Type ℓ} (n m : ℕ) (o : Option (A × Bytes)) → Leaves n o → n ≤ m → Leaves m o
weaken n m none h l = tt
weaken n m (some (a, rest)) h l = omega (arith, h, l)

unquoted_bytes-Leaves : (bs : Bytes) (u : Unquoted) → Leaves (length bs) (unquoted_bytes bs u)
unfolding unquoted_bytes
unquoted_bytes-Leaves [] u = omega arith
unquoted_bytes-Leaves (b ∷ []) u = ground arith
unquoted_bytes-Leaves (b ∷ c ∷ bs) u = elim (Bool-cases (b == b',')) [
  | inl e ↦ rw (unquoted_bytes, e) (omega arith)
  | inr e ↦ elim (Bool-cases (b == b'\\')) [
    | inl f ↦
        rw (unquoted_bytes, e, f)
          (weaken (length bs) _ _ (unquoted_bytes-Leaves bs _) (omega arith))
    | inr f ↦ elim (Bool-cases (b == b'{' || b == b'}')) [
      | inl g ↦ rw (unquoted_bytes, e, f, g) tt
      | inr g ↦
          rw (unquoted_bytes, e, f, g)
            (weaken (suc (length bs)) _ _ (unquoted_bytes-Leaves (c ∷ bs) _) (omega arith))
    ]
  ]
]

module _ (texts : Texts) where
  quoted_element-Leaves : (bs : Bytes) → Leaves (length bs) (quoted_element texts bs)
  unfolding quoted_element
  quoted_element-Leaves bs = elim (Option-cases (quoted_bytes bs)) [
    | inl e ↦ rw (quoted_element, e) tt
    | inr ((v, rest), e) ↦ elim (Option-cases (from_utf8 texts v)) [
      | inl f ↦ rw (quoted_element, e, f) tt
      | inr (t, f) ↦ rw (quoted_element, e, f) (rw e at (quoted_bytes-Leaves bs))
    ]
  ]

  unquoted_element-Leaves : (bs : Bytes) → Leaves (length bs) (unquoted_element texts bs)
  unfolding unquoted_element
  unquoted_element-Leaves bs =
      let start : Unquoted = record { value = []; escaped = false; kept = 0 } in
      elim (Option-cases (unquoted_bytes bs start)) [
        | inl e ↦ rw (unquoted_element, e) tt
        | inr ((u, rest), e) ↦ elim (Option-cases (from_utf8 texts (trimmed u))) [
          | inl f ↦ rw (unquoted_element, e, f) tt
          | inr (t, f) ↦ rw (unquoted_element, e, f) (rw e at (unquoted_bytes-Leaves bs start))
        ]
      ]

  element-Leaves : (bs : Bytes) → Leaves (length bs) (element texts bs)
  unfolding element
  element-Leaves [] = unquoted_element-Leaves []
  element-Leaves (b ∷ bs) = elim (Bool-cases (b == b'"')) [
    | inl e ↦
        rw (element, e)
          (weaken (length bs) _ (quoted_element texts bs) (quoted_element-Leaves bs) (omega arith))
    | inr e ↦ rw (element, e) (unquoted_element-Leaves (b ∷ bs))
  ]

  module _ (hex : Hex) (form : WireForm) where
    after_element-same :
        (e : Option Bytes) (more more' : Option Elements) (rest : Bytes)
        → (0 < length rest → more ≡ more')
        → after_element texts hex form e more rest ≡ after_element texts hex form e more' rest
    unfolding after_element
    after_element-same e more more' [] h = refl
    after_element-same e more more' (b ∷ bs) h = rw (h (omega arith)) refl

    -- The loop over the elements ends by itself: with more fuel than the text is long, what it
    -- returns does not depend on the fuel, for every text.
    pub text_elements-fuel :
        (fuel fuel' read : ℕ) (body : Bytes)
        → length body < fuel
        → length body < fuel'
        → text_elements texts hex form fuel read body ≡ text_elements texts hex form fuel' read body
    unfolding text_elements
    text_elements-fuel zero fuel' read body l l' = absurd (omega arith)
    text_elements-fuel (suc fuel) zero read body l l' = absurd (omega arith)
    text_elements-fuel (suc fuel) (suc fuel') read body l l' =
        elim (Option-cases (element texts (skip_whitespace body))) [
          | inl e ↦ rw (text_elements, e) refl
          | inr ((v, rest), e) ↦
              let left = rw e at (element-Leaves (skip_whitespace body)) in
              elim (Bool-cases (ltb max_array_elements (read + 1))) [
                | inl f ↦ rw (text_elements, e, f) refl
                | inr f ↦
                    rw (text_elements, e, f)
                      (after_element-same v _ _ (skip_whitespace rest) λ p.
                        let less : length (drop 1 (skip_whitespace rest)) < length body = omega (
                          arith,
                          length-drop 1 (skip_whitespace rest),
                          length-skip_whitespace rest,
                          length-skip_whitespace body,
                          left,
                          p,
                        ) in
                        text_elements-fuel fuel fuel' (read + 1) (drop 1 (skip_whitespace rest))
                          (omega (arith, less, l)) (omega (arith, less, l')))
              ]
        ]

-- ===== src/Proxy/Arrays/Binary.antt =====
-- The binary format of crates/proxy/src/encrypt/array.rs: an array that is encoded is decoded.
use dbsec.Prelude.{
  ℕ, ◌-◌, ◌^◌, ◌≤◌, ◌<◌, ◌≡◌, refl, sym, ◌∙◌, ap, Bool, true, false, none, some, [], ◌∷◌, ◌++◌,
  append_assoc, append-nil, ltb, le→leb, if◌then◌else◌, length, length-append, take_of_length,
  drop_of_length, Bytes, All, from_be, from_be-be32, be32, be_i32, i32_of, i32_of-be_i32, IsI32, ℤ,
  pos, ltb→lt, some-injective, arith, inl, inr, Bool-cases, subst,
}
use dbsec.Pgwire.Cursor.Laws.{flat_map, nullable_bytes, FitsI32}
use dbsec.Proxy.Rows.{any}
use dbsec.Proxy.Arrays.{
  Elements, take_i32, is_indexable, element_body, binary_elements, whole_array, element_count,
  one_dimension, dimensions, decode_binary_array, is_none, encode_elements, array_header,
  encode_binary_array, max_array_elements,
}

take_i32_word :
    (a b c d : ℕ) (rest : Bytes)
    → take_i32 (a ∷ b ∷ c ∷ d ∷ rest) ≡ some (i32_of (from_be (a ∷ b ∷ c ∷ d ∷ [])), rest)
unfolding take_i32
take_i32_word a b c d rest = ground arith

le→ltb_false : (a b : ℕ) → a ≤ b → ltb b a ≡ false
le→ltb_false a b h = ground arith

take_i32-be32 :
    (n : ℕ) (rest : Bytes) → n < 2 ^ 32 → take_i32 (be32 n ++ rest) ≡ some (i32_of n, rest)
take_i32-be32 n rest h =
    take_i32_word _ _ _ _ rest ∙ ap (λ m. some (i32_of m, rest)) (from_be-be32 n h)

take_i32-be_i32 : (z : ℤ) (rest : Bytes) → IsI32 z → take_i32 (be_i32 z ++ rest) ≡ some (z, rest)
take_i32-be_i32 z rest h = take_i32_word _ _ _ _ rest ∙ ap (λ m. some (m, rest)) (i32_of-be_i32 z h)

i32_of-length : (t : Bytes) → length t < 2 ^ 31 → i32_of (length t) ≡ pos (length t)
i32_of-length t h = ground arith

element_body-length :
    (t rest : Bytes) → element_body (pos (length t)) (t ++ rest) ≡ some (some t, rest)
unfolding element_body
element_body-length t rest =
    let long = le→ltb_false (length t) (length (t ++ rest)) (omega (arith, length-append t rest)) in
    rw (long, take_of_length (length t) t rest refl, drop_of_length (length t) t rest refl) refl

encode_elements-eq-some :
    (out : Bytes) (es : Elements) {bytes : Bytes}
    → encode_elements out es ≡ some bytes
    → All FitsI32 es × (bytes ≡ out ++ flat_map nullable_bytes es)
unfolding encode_elements
encode_elements-eq-some out [] h = (tt, rw append-nil (sym (some-injective h)))
encode_elements-eq-some out (none ∷ es) h =
    let (fits, e) = encode_elements-eq-some (out ++ be32 (2 ^ 32 - 1)) es h in
    ((tt, fits), e ∙ append_assoc out (be32 (2 ^ 32 - 1)) (flat_map nullable_bytes es))
encode_elements-eq-some out (some t ∷ es) h = elim (Bool-cases (ltb (length t) (2 ^ 31))) [
  | inl b ↦
      let (fits, e) =
        encode_elements-eq-some (out ++ (be32 (length t) ++ t)) es (rw (encode_elements, b) at h) in
      (
        (ltb→lt (length t) (2 ^ 31) b, fits),
        e ∙ append_assoc out (be32 (length t) ++ t) (flat_map nullable_bytes es),
      )
  | inr b ↦ let refused = rw (encode_elements, b) at h in absurd (cc)
]

binary_elements-flat_map :
    (es : Elements) (rest : Bytes)
    → All FitsI32 es
    → binary_elements (length es) (flat_map nullable_bytes es ++ rest) ≡ some (es, rest)
unfolding binary_elements
binary_elements-flat_map [] rest h = refl
binary_elements-flat_map (none ∷ es) rest h =
    rw
      (
        take_i32-be32 (2 ^ 32 - 1) (flat_map nullable_bytes es ++ rest) (omega arith),
        binary_elements-flat_map es rest h.1,
      )
      refl
binary_elements-flat_map (some t ∷ es) rest h =
    rw
      (
        append_assoc t (flat_map nullable_bytes es) rest,
        take_i32-be32 (length t) (t ++ (flat_map nullable_bytes es ++ rest)) (omega (arith, h.0)),
        i32_of-length t h.0,
        element_body-length t (flat_map nullable_bytes es ++ rest),
        binary_elements-flat_map es rest h.1,
      )
      refl

-- An empty array has no dimension, and so no lower bound of its own.
abbrev pub read_bound : Elements → ℤ → ℤ
read_bound [] lower_bound = pos 1
read_bound (e ∷ es) lower_bound = lower_bound

decode_header :
    (dims : ℕ) (flags : Bool) (rest : Bytes)
    → dims < 2
    → decode_binary_array (be32 dims ++ (be32 (if flags then 1 else 0) ++ (be32 17 ++ rest)))
      ≡ dimensions (pos dims) rest
unfolding decode_binary_array is_indexable any
decode_header dims flags rest h =
    let small : i32_of dims ≡ pos dims = ground arith in
    rw
      (
        take_i32-be32 dims (be32 (if flags then 1 else 0) ++ (be32 17 ++ rest)) (omega arith),
        take_i32-be32 (if flags then 1 else 0) (be32 17 ++ rest) (ground arith),
        take_i32-be32 17 rest (omega arith),
        small,
      )
      refl

small_count : (n : ℕ) → n ≤ max_array_elements → i32_of n ≡ pos n
small_count n h = ground arith

whole_elements :
    (es : Elements)
    → All FitsI32 es
    → binary_elements (length es) (flat_map nullable_bytes es) ≡ some (es, [])
whole_elements es fits =
    subst (λ bytes. binary_elements (length es) bytes ≡ some (es, []))
      (append-nil (flat_map nullable_bytes es)) (binary_elements-flat_map es [] fits)

one_dimension-flat_map :
    (es : Elements) (lb : ℤ)
    → length es ≤ max_array_elements
    → IsI32 lb
    → All FitsI32 es
    → one_dimension (be32 (length es) ++ (be_i32 lb ++ flat_map nullable_bytes es))
      ≡ some (record { elements = es; lower_bound = lb })
unfolding one_dimension element_count whole_array
one_dimension-flat_map es lb n l fits =
    rw
      (
        take_i32-be32 (length es) (be_i32 lb ++ flat_map nullable_bytes es) (omega (arith, n)),
        take_i32-be_i32 lb (flat_map nullable_bytes es) l,
        small_count (length es) n,
        le→leb (length es) max_array_elements n,
        whole_elements es fits,
      )
      refl

-- An array of at most 65536 elements that the proxy encodes is read back: the same elements, the
-- NULLs among them, and the same lower bound, if it is an i32, which an empty array has not.
pub decode_binary_array-encode_binary_array :
    (es : Elements) (lb : ℤ) {out : Bytes}
    → length es ≤ max_array_elements
    → IsI32 lb
    → encode_binary_array es lb ≡ some out
    → decode_binary_array out ≡ some (record { elements = es; lower_bound = read_bound es lb })
unfolding encode_binary_array array_header
decode_binary_array-encode_binary_array [] lb n l h =
    subst
      (λ bytes. decode_binary_array bytes ≡ some (record { elements = []; lower_bound = pos 1 }))
      (some-injective h)
      (decode_header 0 false [] (omega arith) ∙ unfold dimensions whole_array in refl)
decode_binary_array-encode_binary_array (e ∷ es) lb {out} n l h =
    let small : ltb (length (e ∷ es)) (2 ^ 31) ≡ true = ground (arith, n) in
    let (fits, is_out) =
      encode_elements-eq-some (array_header (e ∷ es) ++ (be32 (length (e ∷ es)) ++ be_i32 lb))
        (e ∷ es) (rw (encode_binary_array, small) at h) in
    rw is_out (
      decode_header 1 (any is_none (e ∷ es))
        (be32 (length (e ∷ es)) ++ (be_i32 lb ++ flat_map nullable_bytes (e ∷ es))) (omega arith)
      ∙ unfold dimensions in one_dimension-flat_map (e ∷ es) lb n l fits)

-- ===== src/Proxy/Arrays/Text/RoundTrip.antt =====
-- The text format of crates/proxy/src/encrypt/array.rs: an array that is encoded is decoded.
use dbsec.Prelude.{
  ℕ, zero, suc, ◌+◌, ◌≤◌, ◌<◌, ◌≡◌, refl, sym, ◌∙◌, ap, true, false, Option, none, some, [], ◌∷◌,
  ◌++◌, append_assoc, append-nil, ◌==◌, ltb, length, length-append, drop, Bytes, All, All-append,
  codes, pos, starts_with, bytes_eq, arith, subst,
}
use dbsec.Core.RowKeys.{Texts, is_hex_digit, strip_brace}
use dbsec.Core.RowKeys.Uuid.{IsLowerHex, IsPrintable, printable}
use dbsec.Core.Transform.{bytea}
use dbsec.Proxy.Rows.Cells.{Hex, hex_decoded}
use dbsec.Proxy.Arrays.{Elements, max_array_elements}
use dbsec.Proxy.Arrays.Text.{
  text_plaintext, is_ascii_whitespace, skip_whitespace, quoted_bytes, push_front, unquoted_bytes,
  trimmed, trim_ascii_end, is_null_word, unless_null, ascii_lower, element, quoted_element,
  unquoted_element, text_elements, after_element, push_element, plaintext_of, elements_of,
  decode_text_array, element_text, elements_text, encode_text_array, from_utf8, strip_prefix_brace,
}

-- What std's functions do with printable ASCII text: it is UTF-8, and nothing of it is trimmed.
pub record TrimsPrintable (texts : Texts) : Type 0 where
  pub is_utf8 : (t : Bytes) → All IsPrintable t → texts.is_utf8 t ≡ true
  pub trim : (t : Bytes) → All IsPrintable t → texts.trim t ≡ t

-- The hex digits of a token, which decode to it.
abbrev pub IsToken : Hex → Option Bytes → Type 0
IsToken hex none = Unit
IsToken hex (some token) =
    All IsLowerHex (hex.hex_encode token) × (hex.hex_decode (hex.hex_encode token) ≡ some token)

-- The text behind an element: nothing, or a comma and more.
abbrev Follows : Bytes → Type 0
Follows [] = Unit
Follows (b ∷ bs) = b ≡ b','

hex_plain : (d : ℕ) → is_hex_digit d ≡ true → ((d == b'\\') ≡ false) × ((d == b'"') ≡ false)
unfolding is_hex_digit
hex_plain d h = ground arith

quoted_bytes_end : (rest : Bytes) → quoted_bytes (b'"' ∷ rest) ≡ some ([], rest)
unfolding quoted_bytes push_front
quoted_bytes_end [] = refl
quoted_bytes_end (r ∷ rest) = refl

quoted_bytes_plain :
    (d b : ℕ) (bs : Bytes)
    → (d == b'\\') ≡ false
    → (d == b'"') ≡ false
    → quoted_bytes (d ∷ b ∷ bs) ≡ push_front d (quoted_bytes (b ∷ bs))
unfolding quoted_bytes
quoted_bytes_plain d b bs p q = rw (quoted_bytes, p, q) refl

quoted_bytes-digits :
    (ds rest : Bytes) → All IsLowerHex ds → quoted_bytes (ds ++ b'"' ∷ rest) ≡ some (ds, rest)
unfolding push_front
quoted_bytes-digits [] rest h = quoted_bytes_end rest
quoted_bytes-digits (d ∷ []) rest h =
    let (p, q) = hex_plain d h.0.0 in
    quoted_bytes_plain d b'"' rest p q ∙ ap (push_front d) (quoted_bytes_end rest)
quoted_bytes-digits (d ∷ e ∷ ds) rest h =
    let (p, q) = hex_plain d h.0.0 in
    quoted_bytes_plain d e (ds ++ b'"' ∷ rest) p q
    ∙ ap (push_front d) (quoted_bytes-digits (e ∷ ds) rest h.1)

-- what a token's text holds in its quotes
abbrev escaped : Bytes → Bytes
escaped ds = b'\\' ∷ b'x' ∷ ds

quoted_bytes-escaped :
    (ds rest : Bytes)
    → All IsLowerHex ds
    → quoted_bytes (b'\\' ∷ escaped (ds ++ b'"' ∷ rest)) ≡ some (escaped ds, rest)
unfolding quoted_bytes push_front
quoted_bytes-escaped [] rest h =
    ap (push_front b'\\')
      (quoted_bytes_plain b'x' b'"' rest refl refl ∙ ap (push_front b'x') (quoted_bytes_end rest))
quoted_bytes-escaped (d ∷ ds) rest h = ap (push_front b'\\') (
    quoted_bytes_plain b'x' d (ds ++ b'"' ∷ rest) refl refl
    ∙ ap (push_front b'x') (quoted_bytes-digits (d ∷ ds) rest h))

escaped-IsPrintable : (ds : Bytes) → All IsLowerHex ds → All IsPrintable (escaped ds)
escaped-IsPrintable ds h =
    ((omega arith, omega arith), ((omega arith, omega arith), printable ds h))

strip_brace-append : (t : Bytes) → strip_brace (t ++ b'}' ∷ []) ≡ some t
unfolding strip_brace
strip_brace-append [] = refl
strip_brace-append (c ∷ []) = refl
strip_brace-append (c ∷ d ∷ t) = rw (strip_brace-append (d ∷ t)) refl

module _ (texts : Texts) (law : TrimsPrintable texts) (hex : Hex) where
  quoted_element-token :
      (token rest : Bytes)
      → IsToken hex (some token)
      → quoted_element texts (b'\\' ∷ (escaped (hex.hex_encode token) ++ b'"' ∷ rest))
        ≡ some (some (escaped (hex.hex_encode token)), rest)
  unfolding quoted_element from_utf8
  quoted_element-token token rest h =
      rw
        (
          quoted_bytes-escaped (hex.hex_encode token) rest h.0,
          law.is_utf8 (escaped (hex.hex_encode token))
              (escaped-IsPrintable (hex.hex_encode token) h.0),
        )
        refl

  unquoted_element-null :
      (rest : Bytes)
      → Follows rest
      → unquoted_element texts (codes "NULL" ++ rest) ≡ some (none, rest)
  unfolding unquoted_element unquoted_bytes from_utf8 trimmed trim_ascii_end is_ascii_whitespace
      unless_null is_null_word ascii_lower bytes_eq
  unquoted_element-null [] f = rw (law.is_utf8 (codes "NULL") (omega arith)) refl
  unquoted_element-null (b ∷ []) f =
      subst (λ c. unquoted_element texts (codes "NULL" ++ c ∷ []) ≡ some (none, c ∷ [])) (sym f)
        (rw (law.is_utf8 (codes "NULL") (omega arith)) refl)
  unquoted_element-null (b ∷ d ∷ bs) f =
      subst (λ c. unquoted_element texts (codes "NULL" ++ c ∷ d ∷ bs) ≡ some (none, c ∷ d ∷ bs))
        (sym f) (rw (law.is_utf8 (codes "NULL") (omega arith)) refl)

  -- how the element reads that the encoder wrote
  read_as : Option Bytes → Option Bytes
  read_as none = none
  read_as (some token) = some (escaped (hex.hex_encode token))

  element-element_text :
      (e : Option Bytes) (rest : Bytes)
      → IsToken hex e
      → Follows rest
      → element texts (element_text hex e ++ rest) ≡ some (read_as e, rest)
  unfolding element element_text read_as
  element-element_text none rest h f = unquoted_element-null rest f
  element-element_text (some token) rest h f =
      rw (append_assoc (hex.hex_encode token) (b'"' ∷ []) rest) (quoted_element-token token rest h)

  plaintext_of-read_as :
      (e : Option Bytes) → IsToken hex e → plaintext_of texts hex bytea (read_as e) ≡ e
  unfolding plaintext_of read_as text_plaintext hex_decoded starts_with
  plaintext_of-read_as none h = refl
  plaintext_of-read_as (some token) h = rw h.1 refl

  -- An element's text begins with no white space.
  skip_whitespace-element_text :
      (e : Option Bytes) (rest : Bytes)
      → skip_whitespace (element_text hex e ++ rest) ≡ element_text hex e ++ rest
  unfolding skip_whitespace element_text is_ascii_whitespace
  skip_whitespace-element_text none rest = refl
  skip_whitespace-element_text (some token) rest = refl

  one_round :
      (fuel read : ℕ) (e : Option Bytes) (rest : Bytes)
      → IsToken hex e
      → Follows rest
      → read < max_array_elements
      → text_elements texts hex bytea (suc fuel) read (element_text hex e ++ rest)
        ≡ after_element texts hex bytea
            (read_as e)
            (text_elements texts hex bytea fuel (read + 1) (drop 1 (skip_whitespace rest)))
            (skip_whitespace rest)
  unfolding text_elements
  one_round fuel read e rest h f n =
      let few : ltb max_array_elements (read + 1) ≡ false = ground (arith, n) in
      rw (text_elements, skip_whitespace-element_text e rest, element-element_text e rest h f, few)
        refl

  text_elements-elements_text :
      (e : Option Bytes) (es : Elements) (fuel read : ℕ)
      → All (IsToken hex) (e ∷ es)
      → length es < fuel
      → read + length (e ∷ es) ≤ max_array_elements
      → text_elements texts hex bytea fuel read (elements_text hex (e ∷ es)) ≡ some (e ∷ es)
  unfolding elements_text after_element push_element skip_whitespace is_ascii_whitespace
  text_elements-elements_text e es zero read h f n = absurd (omega arith)
  text_elements-elements_text e [] (suc fuel) read h f n =
      subst (λ t. text_elements texts hex bytea (suc fuel) read t ≡ some (e ∷ []))
        (append-nil (element_text hex e))
        (one_round fuel read e [] h.0 tt (omega (arith, n))
          ∙ ap (λ x. some (x ∷ [])) (plaintext_of-read_as e h.0))
  text_elements-elements_text e (f' ∷ es) (suc fuel) read h f n =
      let later =
        text_elements-elements_text f' es fuel (read + 1) h.1 (omega (arith, f))
          (omega (arith, n)) in
      one_round fuel read e (b',' ∷ elements_text hex (f' ∷ es)) h.0 refl (omega (arith, n))
      ∙ rw (later, plaintext_of-read_as e h.0) refl

  element_text-IsPrintable :
      (e : Option Bytes) → IsToken hex e → All IsPrintable (element_text hex e)
  unfolding element_text
  element_text-IsPrintable none h = omega arith
  element_text-IsPrintable (some token) h =
      All-append IsPrintable (codes "\"\\\\x") (hex.hex_encode token ++ b'"' ∷ []) (omega arith) (
        All-append IsPrintable (hex.hex_encode token) (b'"' ∷ [])
          (printable (hex.hex_encode token) h.0) (omega arith))

  elements_text-IsPrintable :
      (es : Elements) → All (IsToken hex) es → All IsPrintable (elements_text hex es)
  unfolding elements_text
  elements_text-IsPrintable [] h = tt
  elements_text-IsPrintable (e ∷ []) h = element_text-IsPrintable e h.0
  elements_text-IsPrintable (e ∷ f ∷ es) h =
      All-append IsPrintable (element_text hex e) (b',' ∷ elements_text hex (f ∷ es))
        (element_text-IsPrintable e h.0)
        ((omega arith, omega arith), elements_text-IsPrintable (f ∷ es) h.1)

  length-elements_text :
      (e : Option Bytes) (es : Elements) → length es ≤ length (elements_text hex (e ∷ es))
  unfolding elements_text
  length-elements_text e [] = omega arith
  length-elements_text e (f ∷ es) = omega (
    arith,
    length-elements_text f es,
    length-append (element_text hex e) (b',' ∷ elements_text hex (f ∷ es)),
  )

  elements_text-cons :
      (e : Option Bytes) (es : Elements)
      → (b : ℕ) × (bs : Bytes) × (elements_text hex (e ∷ es) ≡ b ∷ bs)
  unfolding elements_text element_text
  elements_text-cons none [] = (_, _, refl)
  elements_text-cons none (f ∷ es) = (_, _, refl)
  elements_text-cons (some t) [] = (_, _, refl)
  elements_text-cons (some t) (f ∷ es) = (_, _, refl)

  elements_of-cons :
      (body : Bytes) {b : ℕ} {bs : Bytes} {es : Elements}
      → texts.trim body ≡ b ∷ bs
      → text_elements texts hex bytea (suc (length body)) 0 body ≡ some es
      → elements_of texts hex bytea body ≡ some (record { elements = es; lower_bound = pos 1 })
  unfolding elements_of
  elements_of-cons body h e = rw (elements_of, h, e) refl

  elements_of-elements_text :
      (es : Elements)
      → All (IsToken hex) es
      → length es ≤ max_array_elements
      → elements_of texts hex bytea (elements_text hex es)
        ≡ some (record { elements = es; lower_bound = pos 1 })
  elements_of-elements_text [] h n =
      unfold elements_of elements_text in rw (elements_of, law.trim [] tt) refl
  elements_of-elements_text (e ∷ es) h n =
      let (b, bs, is_cons) = elements_text-cons e es in
      elements_of-cons (elements_text hex (e ∷ es))
        (law.trim (elements_text hex (e ∷ es)) (elements_text-IsPrintable (e ∷ es) h) ∙ is_cons)
        (text_elements-elements_text e es (suc (length (elements_text hex (e ∷ es)))) 0 h
          (omega (arith, length-elements_text e es)) (omega (arith, n)))

  -- An array of at most 65536 elements that the proxy writes as text reads back, for a column that is
  -- a bytea on the wire, as the same elements, the NULLs among them, where the hex of each token is
  -- lower-case digits that decode to it and std leaves printable ASCII as it is.
  pub decode_text_array-encode_text_array :
      (es : Elements)
      → All (IsToken hex) es
      → length es ≤ max_array_elements
      → decode_text_array texts hex bytea (encode_text_array hex es)
        ≡ some (record { elements = es; lower_bound = pos 1 })
  unfolding decode_text_array encode_text_array from_utf8 strip_prefix_brace
  decode_text_array-encode_text_array es h n =
      let shown : All IsPrintable (b'{' ∷ (elements_text hex es ++ b'}' ∷ [])) = (
        (omega arith, omega arith),
        All-append IsPrintable (elements_text hex es) (b'}' ∷ []) (elements_text-IsPrintable es h)
            (omega arith),
      ) in
      rw (law.is_utf8 _ shown, law.trim _ shown, strip_brace-append (elements_text hex es))
        (elements_of-elements_text es h n)

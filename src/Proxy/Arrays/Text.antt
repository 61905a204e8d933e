-- ===== src/Proxy/Arrays/Text.antt =====
-- The text format of crates/proxy/src/encrypt/array.rs, and `text_plaintext` of encrypt/mod.rs. A
-- position in a text is the bytes from there on, and what std does with UTF-8 is a parameter.
pub mod RoundTrip
pub mod Fuel
use dbsec.Prelude.{
  ℕ, zero, suc, ◌+◌, ◌-◌, Bool, true, false, not, ◌&&◌, ◌||◌, Option, none, some, List, [], ◌∷◌,
  ◌++◌, ◌==◌, leb, ltb, if◌then◌else◌, length, take, drop, Result, ok, err, Bytes, bytes_eq, codes,
  map, pos,
}
use dbsec.Core.RowKeys.{Texts, strip_brace}
use dbsec.Core.Transform.{WireForm, bytea, text}
use dbsec.Proxy.{Error, wire}
use dbsec.Proxy.Rows.{FieldTransform}
use dbsec.Proxy.Rows.Cells.{Hex, hex_decoded}
use dbsec.Proxy.Arrays.{
  Elements, BoundArray, max_array_elements, decode_binary_array, encode_binary_array, ◌>>=◌,
}

unfoldable pub text_plaintext : Hex → Bytes → WireForm → Bytes
text_plaintext hex value text = value
text_plaintext hex value bytea = elim (hex_decoded hex value) [
  | some decoded ↦ decoded
  | none ↦ value
]

-- `u8::is_ascii_whitespace`
unfoldable pub is_ascii_whitespace : ℕ → Bool
is_ascii_whitespace b = (b == 32 || (b == 9 || b == 10)) || (b == 12 || b == 13)

unfoldable pub skip_whitespace : Bytes → Bytes
unfolding is_ascii_whitespace
skip_whitespace [] = []
skip_whitespace (b ∷ bs) =
    let rest = skip_whitespace bs in if is_ascii_whitespace b then rest else b ∷ bs

push_front : ℕ → Option (Bytes × Bytes) → Option (Bytes × Bytes)
push_front b none = none
push_front b (some (value, rest)) = some (b ∷ value, rest)

-- what stands in front of the closing quote, unescaped, and what stands behind it
unfoldable pub quoted_bytes : Bytes → Option (Bytes × Bytes)
unfolding push_front
quoted_bytes [] = none
quoted_bytes (b ∷ []) = if b == b'"' then some ([], []) else none
quoted_bytes (b ∷ c ∷ bs) =
    let escaped = push_front c (quoted_bytes bs) in
    let plain = push_front b (quoted_bytes (c ∷ bs)) in
    if b == b'\\' then escaped else if b == b'"' then some ([], c ∷ bs) else plain

-- the value so far, whether a byte of it was escaped, and how much of it an escape keeps
pub record Unquoted : Type 0 where
  pub value : Bytes
  pub escaped : Bool
  pub kept : ℕ

unfoldable pub unquoted_bytes : Bytes → Unquoted → Option (Unquoted × Bytes)
unquoted_bytes [] u = some (u, [])
unquoted_bytes (b ∷ []) u =
    if b == b','
    then some (u, b ∷ [])
    else if b == b'\\' || (b == b'{' || b == b'}')
    then none
    else some (record u { value = u.value ++ b ∷ [] }, [])
unquoted_bytes (b ∷ c ∷ bs) u =
    let escaped =
      unquoted_bytes bs
        (record { value = u.value ++ c ∷ []; escaped = true; kept = length u.value + 1 }) in
    let plain = unquoted_bytes (c ∷ bs) (record u { value = u.value ++ b ∷ [] }) in
    if b == b','
    then some (u, b ∷ c ∷ bs)
    else if b == b'\\'
    then escaped
    else if b == b'{' || b == b'}'
    then none
    else plain

-- `truncate` by the whitespace that the reversed tail begins with
unfoldable pub trim_ascii_end : Bytes → Bytes
unfolding is_ascii_whitespace
trim_ascii_end [] = []
trim_ascii_end (b ∷ bs) = elim (trim_ascii_end bs) [
  | [] ↦ if is_ascii_whitespace b then [] else b ∷ []
  | c ∷ cs ↦ b ∷ c ∷ cs
]

unfoldable pub ascii_lower : ℕ → ℕ
ascii_lower b = if leb b'A' b && leb b b'Z' then b + 32 else b

unfoldable pub trimmed : Unquoted → Bytes
unfolding trim_ascii_end
trimmed u = take u.kept u.value ++ trim_ascii_end (drop u.kept u.value)

-- `eq_ignore_ascii_case("null")`
unfoldable pub is_null_word : Bytes → Bool
unfolding ascii_lower
is_null_word value = bytes_eq (map ascii_lower value) (codes "null")

-- `None` for the word NULL with nothing of it escaped
unfoldable pub unless_null : Bool → Bytes → Option Bytes
unfolding is_null_word
unless_null escaped value = if escaped || not (is_null_word value) then some value else none

module _ (texts : Texts) where
  -- `String::from_utf8(..).ok()`
  from_utf8 : Bytes → Option Bytes
  from_utf8 value = if texts.is_utf8 value then some value else none

  quoted_element : Bytes → Option (Option Bytes × Bytes)
  unfolding from_utf8
  quoted_element bytes = do
    (value, rest) ← quoted_bytes bytes
    v ← from_utf8 value
    some (some v, rest)

  unquoted_element : Bytes → Option (Option Bytes × Bytes)
  unfolding from_utf8
  unquoted_element bytes = do
    (u, rest) ← unquoted_bytes bytes (record { value = []; escaped = false; kept = 0 })
    v ← from_utf8 (trimmed u)
    some (unless_null u.escaped v, rest)

  unfoldable pub element : Bytes → Option (Option Bytes × Bytes)
  unfolding quoted_element unquoted_element
  element [] = unquoted_element []
  element (b ∷ bs) = if b == b'"' then quoted_element bs else unquoted_element (b ∷ bs)

  module _ (hex : Hex) (form : WireForm) where
    plaintext_of : Option Bytes → Option Bytes
    plaintext_of none = none
    plaintext_of (some value) = some (text_plaintext hex value form)

    push_element : Option Bytes → Option Elements → Option Elements
    push_element e none = none
    push_element e (some es) = some (plaintext_of e ∷ es)

    -- what stands behind an element: nothing, or a comma and the elements behind it
    after_element : Option Bytes → Option Elements → Bytes → Option Elements
    unfolding push_element plaintext_of
    after_element e more [] = push_element e (some [])
    after_element e more (b ∷ bs) = if b == b',' then push_element e more else none

    -- The loop, on fuel: `read` is how many elements there are so far. Each round but the last ends
    -- behind a comma, so one more than the length of the text is enough.
    unfoldable pub text_elements : ℕ → ℕ → Bytes → Option Elements
    unfolding skip_whitespace after_element
    text_elements zero read body = none
    text_elements (suc fuel) read body = elim (element (skip_whitespace body)) [
      | none ↦ none
      | some (e, rest) ↦
          let more = text_elements fuel (read + 1) (drop 1 (skip_whitespace rest)) in
          if ltb max_array_elements (read + 1)
          then none
          else after_element e more (skip_whitespace rest)
    ]

    elements_of : Bytes → Option BoundArray
    unfolding text_elements
    elements_of body = elim (texts.trim body) [
      | [] ↦ some (record { elements = []; lower_bound = pos 1 })
      | b ∷ bs ↦ do
        es ← text_elements (suc (length body)) 0 body
        some (record { elements = es; lower_bound = pos 1 })
    ]

    strip_prefix_brace : Bytes → Option Bytes
    strip_prefix_brace [] = none
    strip_prefix_brace (b ∷ bs) = if b == b'{' then some bs else none

    unfoldable pub decode_text_array : Bytes → Option BoundArray
    unfolding from_utf8 elements_of strip_prefix_brace
    decode_text_array raw = do
      valid ← from_utf8 raw
      inner ← strip_prefix_brace (texts.trim valid)
      body ← strip_brace inner
      elements_of body

-- An element as the proxy writes it: NULL, or the bytea text of a token in quotes.
unfoldable pub element_text : Hex → Option Bytes → Bytes
element_text hex none = codes "NULL"
element_text hex (some token) = codes "\"\\\\x" ++ (hex.hex_encode token ++ b'"' ∷ [])

-- a comma in front of every element but the first
unfoldable pub elements_text : Hex → Elements → Bytes
unfolding element_text
elements_text hex [] = []
elements_text hex (e ∷ []) = element_text hex e
elements_text hex (e ∷ f ∷ es) = element_text hex e ++ b',' ∷ elements_text hex (f ∷ es)

unfoldable pub encode_text_array : Hex → Elements → Bytes
unfolding elements_text
encode_text_array hex es = b'{' ∷ (elements_text hex es ++ b'}' ∷ [])

push_indexed : Option Bytes → Result Error (Option Elements) → Result Error (Option Elements)
push_indexed e (err f) = err f
push_indexed e (ok none) = ok none
push_indexed e (ok (some es)) = ok (some (e ∷ es))

-- the encoding in the format that the array came in
encode_indexed : Hex → Bool → BoundArray → Option Elements → Option Bytes
encode_indexed hex binary array none = none
encode_indexed hex true array (some es) = encode_binary_array es array.lower_bound
encode_indexed hex false array (some es) = some (encode_text_array hex es)

module _ {S : Type 0} where
  -- `none` where the transform has no index for an element
  unfoldable pub index_elements :
      FieldTransform S → Elements → S → Result Error (Option Elements) × S
  unfolding push_indexed
  index_elements transform [] s = (ok (some []), s)
  index_elements transform (none ∷ es) s =
      let (r, s') = index_elements transform es s in (push_indexed none r, s')
  index_elements transform (some value ∷ es) s =
      let (r, s') = transform.search_index value s in
      elim r [
        | err e ↦ (err (wire e), s')
        | ok none ↦ (ok none, s')
        | ok (some token) ↦
            let (r', s'') = index_elements transform es s' in (push_indexed (some token) r', s'')
      ]

  decoded : Texts → Hex → Bytes → Bool → FieldTransform S → Option BoundArray
  decoded texts hex value true transform = decode_binary_array value
  decoded texts hex value false transform = decode_text_array texts hex transform.wire value

  -- `none` for an array that is not indexed; every element is in the order of its own.
  unfoldable pub index_array :
      Texts → Hex → Bytes → Bool → FieldTransform S → S → Result Error (Option Bytes) × S
  unfolding decoded index_elements encode_indexed
  index_array texts hex value binary transform s = elim (decoded texts hex value binary transform) [
    | none ↦ (ok none, s)
    | some array ↦
        let (r, s') = index_elements transform array.elements s in
        elim r [ err e ↦ (err e, s') | ok es ↦ (ok (encode_indexed hex binary array es), s') ]
  ]

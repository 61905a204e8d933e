-- ===== src/Proxy/Arrays/Tests.antt =====
-- Runs of the array codecs on the source's own cases, and the theorems at concrete arrays. Texts are
-- ASCII, trimmed of nothing, and hex digits are decoded by a table of two tokens.
use dbsec.Prelude.{
  ◌≡◌, refl, true, none, some, [], ◌∷◌, if◌then◌else◌, All, bytes_eq, codes, pos, negsuc, arith,
  starts_with,
}
use dbsec.Core.RowKeys.{Texts, strip_brace, is_hex_digit, lower_hex}
use dbsec.Core.RowKeys.Uuid.{IsLowerHex}
use dbsec.Core.Transform.{bytea, text}
use dbsec.Proxy.Rows.{any}
use dbsec.Proxy.Rows.Cells.{Hex, hex_decoded}
use dbsec.Proxy.Arrays.{
  Elements, decode_binary_array, encode_binary_array, array_header, encode_elements,
}
use dbsec.Proxy.Arrays.Binary.{decode_binary_array-encode_binary_array}
use dbsec.Proxy.Arrays.Text.{
  text_plaintext, is_ascii_whitespace, skip_whitespace, quoted_bytes, unquoted_bytes,
  trim_ascii_end, trimmed, ascii_lower, is_null_word, unless_null, element, text_elements,
  decode_text_array, element_text, elements_text, encode_text_array,
}
use dbsec.Proxy.Arrays.Text.RoundTrip.{decode_text_array-encode_text_array}

abbrev texts : Texts
texts = record {
  is_utf8 = λ t. true;
  trim = λ t. t;
  parse_integer = λ width t. some t;
  show_integer = λ width b. b;
  hex_encode = λ b. b;
}

abbrev hex : Hex
hex = record {
  hex_encode = λ b. if bytes_eq b (codes "abc") then codes "616263" else [];
  hex_decode = λ t. if bytes_eq t (codes "616263") then some (codes "abc") else none;
}

abbrev tokens : Elements
tokens = some (codes "abc") ∷ none ∷ some (codes "abc") ∷ []

binary-tokens :
    encode_binary_array (some (b'a' ∷ []) ∷ none ∷ []) (negsuc 0)
    ≡ some (
        0 ∷ 0 ∷ 0 ∷ 1 ∷ 0 ∷ 0 ∷ 0 ∷ 1 ∷ 0 ∷ 0 ∷ 0 ∷ 17 ∷ 0 ∷ 0 ∷ 0 ∷ 2 ∷ 255 ∷ 255 ∷ 255 ∷ 255 ∷ 0
        ∷ 0 ∷ 0 ∷ 1 ∷ b'a' ∷ 255 ∷ 255 ∷ 255 ∷ 255 ∷ [])
unfolding encode_binary_array array_header encode_elements any
binary-tokens = refl

decode_binary_array-encode_binary_array_example :
    decode_binary_array (
      0 ∷ 0 ∷ 0 ∷ 1 ∷ 0 ∷ 0 ∷ 0 ∷ 1 ∷ 0 ∷ 0 ∷ 0 ∷ 17 ∷ 0 ∷ 0 ∷ 0 ∷ 2 ∷ 255 ∷ 255 ∷ 255 ∷ 255 ∷ 0 ∷ 0
      ∷ 0 ∷ 1 ∷ b'a' ∷ 255 ∷ 255 ∷ 255 ∷ 255 ∷ [])
    ≡ some (record { elements = some (b'a' ∷ []) ∷ none ∷ []; lower_bound = negsuc 0 })
decode_binary_array-encode_binary_array_example =
    decode_binary_array-encode_binary_array (some (b'a' ∷ []) ∷ none ∷ []) (negsuc 0) (omega arith)
      (omega arith) binary-tokens

abc-IsLowerHex : All IsLowerHex (codes "616263")
unfolding is_hex_digit lower_hex
abc-IsLowerHex = (
  (refl, refl),
  ((refl, refl), ((refl, refl), ((refl, refl), ((refl, refl), ((refl, refl), tt))))),
)

decode_text_array-encode_text_array_example :
    decode_text_array texts hex bytea (codes "{\"\\\\x616263\",NULL,\"\\\\x616263\"}")
    ≡ some (record { elements = tokens; lower_bound = pos 1 })
unfolding encode_text_array elements_text element_text bytes_eq
decode_text_array-encode_text_array_example =
    decode_text_array-encode_text_array texts (record { is_utf8 = λ t h. refl; trim = λ t h. refl })
      hex tokens ((abc-IsLowerHex, refl), (tt, ((abc-IsLowerHex, refl), tt))) (omega arith)

-- What PostgreSQL writes: quotes, spaces around elements, NULL, and escapes; and what is refused.
text_runs :
    (decode_text_array texts hex text (codes "{ \"a,b\" , plain , NULL , \"q\\\"\\\\x\" }")
      ≡ some (record {
        elements = some (codes "a,b") ∷ some (codes "plain") ∷ none ∷ some (codes "q\"\\x") ∷ [];
        lower_bound = pos 1;
      }))
    × (decode_text_array texts hex text (codes "{\\NULL,NULL,a\\ }")
        ≡ some (record {
          elements = some (codes "NULL") ∷ none ∷ some (codes "a ") ∷ [];
          lower_bound = pos 1;
        }))
    × (decode_text_array texts hex bytea (codes "{\\\\x616263}")
        ≡ some (record { elements = some (codes "abc") ∷ []; lower_bound = pos 1 }))
    × (decode_text_array texts hex text (codes "{{a},{b}}") ≡ none)
    × (decode_text_array texts hex text (codes "{a,b") ≡ none)
unfolding decode_text_array text_elements element quoted_bytes unquoted_bytes skip_whitespace
    is_ascii_whitespace trimmed trim_ascii_end ascii_lower is_null_word unless_null text_plaintext
    hex_decoded starts_with strip_brace bytes_eq
text_runs = (refl, refl, refl, refl, refl)

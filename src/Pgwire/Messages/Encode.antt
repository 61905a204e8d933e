-- ===== src/Pgwire/Messages/Encode.antt =====
-- `encode_parse` and `encode_bind`.
use dbsec.Prelude.{Option, List, [], ◌∷◌, ◌++◌, length, Result, ok, Bytes, be16, be_i16, ℤ, ◌>>=◌}
use dbsec.Pgwire.{Error}
use dbsec.Pgwire.Cursor.{push_all, wire_count}

unfoldable pub encode_parse : Bytes → Bytes → Bytes → Bytes
encode_parse statement query param_types = statement ++ (0 ∷ (query ++ (0 ∷ param_types)))

-- `for format in param_formats { out.extend_from_slice(&format.to_be_bytes()); }`
abbrev pub formats_bytes : List ℤ → Bytes
formats_bytes [] = []
formats_bytes (f ∷ fs) = be_i16 f ++ formats_bytes fs

unfoldable pub encode_bind :
    Bytes → Bytes → List ℤ → List (Option Bytes) → Bytes → Result Error Bytes
encode_bind portal statement param_formats params result_formats = do
  format_count ← wire_count (length param_formats)
  param_count ← wire_count (length params)
  let names = portal ++ (0 ∷ (statement ++ (0 ∷ [])))
  let formats = be16 format_count ++ formats_bytes param_formats
  out ← push_all (names ++ (formats ++ be16 param_count)) params
  ok (out ++ result_formats)

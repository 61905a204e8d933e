-- ===== src/Core/Keys.antt =====
-- `FileKeySource` of crates/core/src/keys.rs. The crates hex and toml are parameters, what the file
-- system and the entropy source answer are arguments, and a path is left out.
mod Loaded
mod Generated
mod Tests
use dbsec.Prelude.{
  ℕ, ◌/◌, ◌%◌, Bool, true, false, Option, none, some, List, [], ◌∷◌, ◌++◌, ◌==◌, if◌then◌else◌,
  length, get_elem?, Result, ok, err, ◌>>=◌, ok_or, Bytes, codes,
}
use dbsec.NameMap.{get, insert, contains_key}
use dbsec.Core.{
  Error, unknown_key, key_source, key_file_read, key_file_write, key_file_parse, entropy,
}
use dbsec.Core.Ciphers.{KeySource}
use dbsec.Core.Envelope.{KeyId}

-- The file as serde reads it. A table is a list of its entries, with distinct names, in the order in
-- which the map gives them.
pub record KeyFile : Type 0 where
  pub active : Bytes
  pub keys : List (Bytes × Bytes)
  pub index_keys : List (Bytes × Bytes)

pub record FileKeySource : Type 0 where
  pub active : KeyId
  pub keys : List (KeyId × Bytes)
  pub index_keys : List (Bytes × Bytes)

-- `hex::encode`, `hex::decode`, and `toml::from_str` at the type of the file
pub record Formats : Type 0 where
  pub hex_encode : Bytes → Bytes
  pub hex_decode : Bytes → Option Bytes
  pub from_str : Bytes → Option KeyFile

module _ (formats : Formats) where
  unfoldable pub decode : ℕ → Bytes → Result Error Bytes
  decode n hex_str = elim (formats.hex_decode hex_str) [
    | none ↦ err key_source
    | some raw ↦ if length raw == n then ok raw else err key_source
  ]

  unfoldable pub decode_key : Bytes → Result Error Bytes
  unfolding decode
  decode_key hex_str = decode 32 hex_str

  unfoldable pub read_keys :
      List (Bytes × Bytes) → List (KeyId × Bytes) → Result Error (List (KeyId × Bytes))
  read_keys [] keys = ok keys
  read_keys ((id_hex, key_hex) ∷ entries) keys = do
    id ← decode 16 id_hex
    key ← decode_key key_hex
    read_keys entries (insert id key keys)

  unfoldable pub read_index_keys :
      List (Bytes × Bytes) → List (Bytes × Bytes) → Result Error (List (Bytes × Bytes))
  read_index_keys [] keys = ok keys
  read_index_keys ((name, key_hex) ∷ entries) keys = do
    key ← decode_key key_hex
    read_index_keys entries (insert name key keys)

  with_active : Bytes → List (KeyId × Bytes) → List (Bytes × Bytes) → Result Error FileKeySource
  with_active active keys index_keys =
      if contains_key active keys
      then ok (record { active = active; keys = keys; index_keys = index_keys })
      else err key_source

  -- `contents` is what `read_to_string` gives.
  unfoldable pub load : Option Bytes → Result Error FileKeySource
  unfolding with_active
  load contents = do
    raw ← ok_or key_file_read contents
    parsed ← ok_or key_file_parse (formats.from_str raw)
    keys ← read_keys parsed.keys []
    index_keys ← read_index_keys parsed.index_keys []
    active ← decode 16 parsed.active
    with_active active keys index_keys

  -- `none` where indexing the map would panic
  unfoldable pub active_key : FileKeySource → Option (Result Error (KeyId × Bytes))
  active_key source = elim (get source.active source.keys) [
    | none ↦ none
    | some key ↦ some (ok (source.active, key))
  ]

  unfoldable pub key : FileKeySource → KeyId → Result Error Bytes
  key source id = ok_or (unknown_key (formats.hex_encode id)) (get id source.keys)

  unfoldable pub index_key : FileKeySource → Bytes → Result Error Bytes
  index_key source name = ok_or (unknown_key name) (get name source.index_keys)

  -- `impl KeySource for FileKeySource`; a source that is loaded has its active key
  pub as_key_source : FileKeySource → KeySource
  as_key_source source = record {
    active_key = elim (active_key source) [ none ↦ err key_source | some answer ↦ answer ];
    key = key source;
    index_key = index_key source;
  }

abbrev digits : Bytes
digits = codes "0123456789abcdef"

-- `DIGITS[d]`; half a byte is always in range
unfoldable pub digit : ℕ → ℕ
digit d = elim (get_elem? digits d) [ some c ↦ c | none ↦ 0 ]

-- `>> 4` and `& 0x0f`
unfoldable pub push_hex : Bytes → Bytes → Bytes
unfolding digit
push_hex out [] = out
push_hex out (b ∷ bytes) = push_hex (out ++ digit (b / 16) ∷ digit (b % 16) ∷ []) bytes

unfoldable pub key_file_text : Bytes → Bytes → Bytes
unfolding push_hex
key_file_text id key =
    let active = push_hex (codes "active = \"") id in
    let named = push_hex (active ++ codes "\"\n\n[keys]\n") id in
    push_hex (named ++ codes " = \"") key ++ codes "\"\n"

-- The file, before and after: it is created, so one that is there is kept. `partial` is what a write
-- that fails leaves. The bytes are none where the entropy source fails.
unfoldable pub generate :
    Option Bytes
    → Option Bytes
    → Option Bytes
    → Option Bytes
    → Result Error (Unit {0}) × Option Bytes
unfolding key_file_text
generate none key partial file = (err entropy, file)
generate (some id) none partial file = (err entropy, file)
generate (some id) (some key) partial (some old) = (err key_file_write, some old)
generate (some id) (some key) (some left) none = (err key_file_write, some left)
generate (some id) (some key) none none = (ok tt, some (key_file_text id key))

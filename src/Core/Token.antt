-- ===== src/Core/Token.antt =====
-- `TokenTransform` of crates/core/src/transform.rs: irreversible tokens. `hex::encode` is a parameter.
use dbsec.Prelude.{Option, none, some, Result, ok, ◌>>=◌, Bytes}
use dbsec.Core.{Error}
use dbsec.Core.Crypto.{Hmac}
use dbsec.Core.Ciphers.{KeySource}
use dbsec.Core.BlindIndex.{compute}

pub record TokenTransform : Type 0 where
  pub key_name : Bytes
  pub key : Option Bytes

abbrev pub token_transform : Bytes → TokenTransform
token_transform key_name = record { key_name = key_name; key = none }

fetch_key : Option Bytes → TokenTransform → KeySource → Result Error (Bytes × TokenTransform)
fetch_key (some key) t keys = ok (key, t)
fetch_key none t keys = do key ← keys.index_key t.key_name; ok (key, record t { key = some key })

pub token_seal :
    Hmac
    → (Bytes → Bytes)
    → TokenTransform
    → KeySource
    → Bytes
    → Result Error (Bytes × TokenTransform)
unfolding fetch_key
token_seal mac hex_encode t keys plaintext = do
  (key, t') ← fetch_key t.key t keys
  ok (hex_encode (compute mac key plaintext), t')

-- A token is never taken back.
pub token_open : TokenTransform → Bytes → Result Error (Option Bytes)
token_open t stored = ok none

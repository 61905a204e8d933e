-- ===== src/Core/BlindIndex.antt =====
-- crates/core/src/blind_index.rs: the deterministic index in front of a searchable value.
use dbsec.Prelude.{
  ℕ, ◌≡◌, ◌&&◌, true, Option, none, some, ◌++◌, leb, if◌then◌else◌, length, take, drop, Bytes,
  arith, le→leb, length-append, take_of_length, drop_of_length,
}
use dbsec.Core.Crypto.{Hmac}
use dbsec.Core.Envelope.{is_enveloped}

abbrev pub blind_index_len : ℕ
blind_index_len = 32

unfoldable pub compute : Hmac → Bytes → Bytes → Bytes
compute mac index_key plaintext = mac.hmac index_key plaintext

unfoldable pub prepend : Bytes → Bytes → Bytes
prepend index enveloped = index ++ enveloped

unfoldable pub split : Bytes → Option (Bytes × Bytes)
split stored =
    if leb blind_index_len (length stored) && is_enveloped (drop blind_index_len stored)
    then some (take blind_index_len stored, drop blind_index_len stored)
    else none

-- An index in front of an envelope is taken off again.
pub split-prepend :
    (index enveloped : Bytes)
    → length index ≡ blind_index_len
    → is_enveloped enveloped ≡ true
    → split (prepend index enveloped) ≡ some (index, enveloped)
unfolding split prepend
split-prepend index enveloped w h =
    let long =
      le→leb 32 (length (index ++ enveloped))
        (omega (arith, w, length-append {0} index enveloped)) in
    rw (long, drop_of_length 32 index enveloped w, h, take_of_length 32 index enveloped w)

-- ===== src/Core/Transform/Tests.antt =====
-- Runs of the encrypting transform, and the theorems on it at concrete values.
use dbsec.Prelude.{◌≡◌, refl, some, take, ok, codes, starts_with}
use dbsec.Core.Crypto.Toy.{toy, toy-IsAead, toy_encrypt, toy_hmac}
use dbsec.Core.Envelope.{aad_with_row, is_enveloped}
use dbsec.Core.Cipher.{with_budget, encrypt, seal_with, choose}
use dbsec.Core.Ciphers.{active, seal}
use dbsec.Core.Transform.{
  EncryptTransform, index_key_of, blind_index, search_index, seal_value, open_stored,
}
use dbsec.Core.Transform.Encrypting.{search_index-seal_value, open_stored-seal_value}
use dbsec.Core.Transform.Bare.{open_stored-seal_value_bare}
use dbsec.Core.Samples.{
  id_one, id_two, nonce, row_seven, key_of, source, source-Agrees_one, empty-IsCached, cold, warm,
  warm-IsCached, source-Agrees_two, searchable_column, bare_column, stored_index, sealed_in_row,
  seal_value-searchable,
}

search_index-seal_value_example :
    (t : EncryptTransform) × (search_index toy_hmac searchable_column (source id_one) (codes "hi")
      ≡ ok (some (take 32 stored_index), t))
search_index-seal_value_example =
    search_index-seal_value toy_hmac toy (source id_one) (source id_one) searchable_column
      (codes "hi") (some row_seven) nonce cold refl seal_value-searchable

open_stored-seal_value_example :
    (open_stored toy (source id_two) bare_column stored_index (some row_seven) warm).0
    ≡ ok (some (codes "hi"))
open_stored-seal_value_example =
    open_stored-seal_value toy_hmac toy toy-IsAead key_of (source id_one) (source id_one)
      (source id_two) searchable_column bare_column (codes "hi") (some row_seven) nonce cold warm
      source-Agrees_one source-Agrees_one source-Agrees_two (λ i. refl) (empty-IsCached 4)
      warm-IsCached refl refl refl seal_value-searchable

seal_value-bare :
    (seal_value toy_hmac toy
      (source id_one)
      (source id_one)
      bare_column
      (codes "hi")
      (some row_seven)
      nonce
      cold).0
    ≡ ok sealed_in_row
unfolding seal_value seal active with_budget encrypt seal_with choose aad_with_row toy_encrypt
    blind_index index_key_of
seal_value-bare = refl

open_stored-seal_value_bare_example :
    (open_stored toy (source id_two) bare_column sealed_in_row (some row_seven) warm).0
    ≡ ok (some (codes "hi"))
unfolding is_enveloped starts_with
open_stored-seal_value_bare_example =
    open_stored-seal_value_bare toy_hmac toy toy-IsAead key_of (source id_one) (source id_one)
      (source id_two) bare_column bare_column (codes "hi") (some row_seven) nonce cold warm
      source-Agrees_one source-Agrees_one source-Agrees_two (λ i. refl) (empty-IsCached 4)
      warm-IsCached refl refl refl seal_value-bare refl

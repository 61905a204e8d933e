-- ===== src/Core/Samples.antt =====
-- Concrete keys, cells, caches and stored values for the runs.
use dbsec.Prelude.{ℕ, ◌≡◌, refl, none, some, [], ◌++◌, replicate, arith, false, ok, Bytes, codes}
use dbsec.Core.Crypto.Toy.{toy, toy_encrypt, toy_hmac, toy_mac}
use dbsec.Core.Envelope.{KeyId, CellContext, RowKey, Binding, magic_v3, aad_with_row}
use dbsec.Core.Cipher.{with_budget, encrypt, seal_with, choose}
use dbsec.Core.Ciphers.{KeySource, Ciphers, active, seal}
use dbsec.Core.Ciphers.Cached.{Agrees, IsCached}
use dbsec.Core.BlindIndex.{compute, prepend}
use dbsec.Core.Transform.{
  EncryptTransform, encrypt_transform, index_key_of, blind_index, seal_value,
}

abbrev pub id_one : KeyId
id_one = replicate 16 1

abbrev pub id_two : KeyId
id_two = replicate 16 2

abbrev pub nonce : Bytes
nonce = replicate 12 7

abbrev pub email : CellContext
email = record { name = codes "u.email" }

abbrev pub row_seven : RowKey
row_seven = record { canonical = codes "7" }

abbrev pub in_row : Binding
in_row = record { context = email; row = some row_seven; strict = false }

abbrev pub in_column : Binding
in_column = record { context = email; row = none; strict = false }

-- a source whose key for an id is the id
abbrev pub key_of : KeyId → Bytes
key_of id = id

abbrev pub source : KeyId → KeySource
source id = record { active_key = ok (id, id); key = λ i. ok i; index_key = λ name. ok name }

pub source-Agrees_one : Agrees key_of (source id_one)
source-Agrees_one = record {
  active_key = λ i k h. (ground arith, ground arith);
  key = λ i k h. ground arith;
}

pub empty-IsCached :
    (budget : ℕ) → IsCached key_of (record { budget = budget; active = none; by_id = [] })
empty-IsCached budget = record { active_holds = tt; by_id_hold = tt }

abbrev pub cold : Ciphers
cold = record { budget = 4; active = none; by_id = [] }

abbrev pub sealed_in_row : Bytes
sealed_in_row = magic_v3 ++ (id_one ++ (nonce ++ (replicate 16 1071 ++ codes "hi")))

abbrev pub warm : Ciphers
warm = record {
  budget = 4;
  active = some (id_one, record { key = id_one; used = 4; budget = 4 });
  by_id = [];
}

pub warm-IsCached : IsCached key_of warm
warm-IsCached = record { active_holds = (refl, refl); by_id_hold = tt }

pub source-Agrees_two : Agrees key_of (source id_two)
source-Agrees_two = record {
  active_key = λ i k h. (ground arith, ground arith);
  key = λ i k h. ground arith;
}

abbrev pub searchable_column : EncryptTransform
searchable_column = encrypt_transform email (some (codes "ix"))

abbrev pub bare_column : EncryptTransform
bare_column = encrypt_transform email none

abbrev pub stored_index : Bytes
stored_index = replicate 32 434 ++ sealed_in_row

pub seal_value-searchable :
    (seal_value toy_hmac toy
      (source id_one)
      (source id_one)
      searchable_column
      (codes "hi")
      (some row_seven)
      nonce
      cold).0
    ≡ ok stored_index
unfolding seal_value seal active with_budget encrypt seal_with choose aad_with_row toy_encrypt
    blind_index index_key_of compute prepend toy_mac
seal_value-searchable = refl

-- ===== src/Core/Tests.antt =====
-- Runs of the envelope, the cipher and the cache, and the theorems on them at concrete values.
use dbsec.Prelude.{
  ◌≡◌, ◌⊎◌, refl, none, some, ◌∷◌, [], ◌++◌, replicate, arith, true, false, ok, err, Bytes,
  bytes_eq, codes, starts_with, be32,
}
use dbsec.Core.{key_exhausted}
use dbsec.Core.Crypto.Toy.{toy, toy-IsAead, toy-IsTotal, toy_encrypt, toy_decrypt}
use dbsec.Core.Envelope.{Binding, magic, magic_v1, aad, aad_with_row, is_enveloped}
use dbsec.Core.Envelope.Aad.{aad_with_row-injective}
use dbsec.Core.Cipher.{
  with_budget, encrypt, decrypt, seal_with, remaining, choose, stored_aad, is_strict_row,
}
use dbsec.Core.Cipher.Authentic.{SameCell, Collision, decrypt-SameCell}
use dbsec.Core.Cipher.Downgrade.{decrypt-relabel_v1, relabel}
use dbsec.Core.Cipher.Budget.{Request, Fits, Spends, encrypt_all, encrypt_all-Spends}
use dbsec.Core.Ciphers.{active, seal, open_value}
use dbsec.Core.Ciphers.Sealing.{open_value-seal}
use dbsec.Core.Ciphers.Rollover.{seal_exhausted, seal_rolls}
use dbsec.Core.Samples.{
  id_one, id_two, nonce, email, row_seven, in_row, in_column, key_of, source, source-Agrees_one,
  empty-IsCached, cold, warm, warm-IsCached, source-Agrees_two, sealed_in_row,
}

abbrev associated : Bytes
associated = id_one ++ (be32 7 ++ (codes "u.email" ++ (be32 1 ++ codes "7")))

associated-in_row : aad_with_row email id_one row_seven ≡ ok associated
unfolding aad_with_row
associated-in_row = refl

seal-in_row : seal_with toy id_one id_one in_row (codes "hi") nonce ≡ ok sealed_in_row
unfolding seal_with choose aad_with_row aad toy_encrypt
seal-in_row = refl

read-in_row : decrypt toy id_one (record in_row { strict = true }) sealed_in_row ≡ ok (codes "hi")
unfolding decrypt stored_aad is_strict_row is_enveloped starts_with aad_with_row toy_decrypt
read-in_row = refl

decrypt-SameCell_example :
    (SameCell in_row (record in_row { strict = true }) × (codes "hi" ≡ codes "hi"))
    ⊎ Collision toy id_one
decrypt-SameCell_example =
    decrypt-SameCell toy toy-IsAead id_one id_one nonce (codes "hi") in_row
      (record in_row { strict = true }) refl refl seal-in_row read-in_row

aad_with_row-injective_example : (id_one ≡ id_one) × (email ≡ email) × (row_seven ≡ row_seven)
aad_with_row-injective_example =
    aad_with_row-injective email email id_one id_one row_seven row_seven refl associated-in_row
      associated-in_row

abbrev sealed_in_column : Bytes
sealed_in_column = magic ++ (id_one ++ (nonce ++ (replicate 16 1008 ++ codes "hi")))

seal-in_column : seal_with toy id_one id_one in_column (codes "hi") nonce ≡ ok sealed_in_column
unfolding seal_with choose aad toy_encrypt
seal-in_column = refl

abbrev request : Request
request = record { id = id_one; binding = in_row; plaintext = codes "hi"; nonce = nonce }

request-Fits : Fits request
request-Fits = (refl, refl, omega arith, omega arith, omega arith)

encrypt_all-Spends_example :
    Spends toy id_one
      (remaining (with_budget id_one 2))
      (request ∷ request ∷ request ∷ [])
      (encrypt_all toy (request ∷ request ∷ request ∷ []) (with_budget id_one 2)).0
unfolding with_budget
encrypt_all-Spends_example =
    encrypt_all-Spends toy toy-IsAead toy-IsTotal (request ∷ request ∷ request ∷ [])
      (with_budget id_one 2) (request-Fits, (request-Fits, (request-Fits, tt))) (omega arith)

seal_exhausted_example : seal toy (source id_one) (source id_one) in_row (codes "hi") nonce warm ≡ (
  err (key_exhausted id_one),
  record warm { active = some (id_one, record { key = id_one; used = 5; budget = 4 }) },
)
seal_exhausted_example =
    seal_exhausted toy (source id_one) (source id_one) in_row (codes "hi") nonce warm id_one
      (record { key = id_one; used = 4; budget = 4 }) refl (omega arith) refl

seal_rolls_example : seal toy (source id_one) (source id_two) in_row (codes "hi") nonce warm ≡ (
  seal_with toy id_two id_two in_row (codes "hi") nonce,
  record warm { active = some (id_two, record { key = id_two; used = 1; budget = 4 }) },
)
seal_rolls_example =
    seal_rolls toy (source id_one) (source id_two) in_row (codes "hi") nonce warm id_one
      (record { key = id_one; used = 4; budget = 4 }) refl id_two id_two (omega arith) (omega arith)
      refl (λ e. cc)

-- sealed by a cold cache, opened by a warm one that has rolled to another key since
seal-cold :
    (seal toy (source id_one) (source id_one) in_row (codes "hi") nonce cold).0 ≡ ok sealed_in_row
unfolding seal active with_budget encrypt seal_with choose aad_with_row toy_encrypt
seal-cold = refl

open_value-seal_example :
    (open_value toy (source id_two) (record in_row { strict = true }) sealed_in_row warm).0
    ≡ ok (codes "hi")
open_value-seal_example =
    open_value-seal toy toy-IsAead key_of (source id_one) (source id_one) (source id_two) in_row
      true (codes "hi") nonce cold warm source-Agrees_one source-Agrees_one source-Agrees_two
      (λ i. refl) (empty-IsCached 4) warm-IsCached refl seal-cold

-- The toy cipher's tag is a sum, so a column named by one NUL byte has a collision.
abbrev nul_column : Binding
nul_column = record { context = record { name = 0 ∷ [] }; row = none; strict = false }

abbrev sealed_in_nul : Bytes
sealed_in_nul = magic ++ (id_one ++ (nonce ++ (replicate 16 325 ++ codes "hi")))

seal-in_nul : seal_with toy id_one id_one nul_column (codes "hi") nonce ≡ ok sealed_in_nul
unfolding seal_with choose aad toy_encrypt
seal-in_nul = refl

read-relabelled : decrypt toy id_one nul_column (relabel magic_v1 sealed_in_nul) ≡ ok (codes "hi")
unfolding decrypt stored_aad is_strict_row is_enveloped starts_with toy_decrypt bytes_eq
read-relabelled = refl

decrypt-relabel_v1_example : Collision toy id_one
decrypt-relabel_v1_example =
    decrypt-relabel_v1 toy toy-IsAead id_one id_one nonce (codes "hi") nul_column nul_column refl
      refl (omega arith) seal-in_nul read-relabelled

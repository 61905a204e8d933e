-- ===== src/Core/Crypto/Toy.antt =====
-- A cipher that meets the laws, for concrete runs: the message with a tag computed from all inputs.
use dbsec.Prelude.{
  true, ℕ, ◌+◌, ◌≡◌, refl, ap, ◌∙◌, sym, Option, none, some, Bytes, [], ◌∷◌, ◌++◌, length, take,
  drop, replicate, bytes_eq, bytes_eq_iff, bytes_eq_refl, if◌then◌else◌, arith, length-append,
  take-append-drop,
}
use dbsec.Core.Crypto.{Aead, IsAead, IsTotal, Hmac}

sum : Bytes → ℕ
sum [] = 0
sum (b ∷ bs) = b + sum bs

toy_tag : Bytes → Bytes → Bytes → Bytes → Bytes
unfolding sum
toy_tag k n aad m = replicate 16 (sum k + (sum n + (sum aad + sum m)))

unfoldable pub toy_encrypt : Bytes → Bytes → Bytes → Bytes → Option Bytes
unfolding toy_tag
toy_encrypt k n aad m = some (toy_tag k n aad m ++ m)

unfoldable pub toy_decrypt : Bytes → Bytes → Bytes → Bytes → Option Bytes
unfolding toy_tag bytes_eq
toy_decrypt k n aad c =
    if bytes_eq (take 16 c) (toy_tag k n aad (drop 16 c)) then some (drop 16 c) else none

abbrev pub toy : Aead
toy = record { gcm_encrypt = toy_encrypt; gcm_decrypt = toy_decrypt }

length-toy_tag : (k n aad m : Bytes) → length (toy_tag k n aad m) ≡ 16
unfolding toy_tag
length-toy_tag k n aad m = refl

toy_opens :
    (k n aad m : Bytes) {c : Bytes}
    → toy_encrypt k n aad m ≡ some c
    → toy_decrypt k n aad c ≡ some m
unfolding toy_encrypt toy_decrypt
toy_opens k n aad m {c} h =
    let e : toy_tag k n aad m ++ m ≡ c = ground arith in rw (← e) (rw bytes_eq_refl)

toy_authentic :
    (k n aad c : Bytes) {m : Bytes}
    → toy_decrypt k n aad c ≡ some m
    → toy_encrypt k n aad m ≡ some c
unfolding toy_encrypt toy_decrypt
toy_authentic k n aad c {m} h =
    let same : bytes_eq (take 16 c) (toy_tag k n aad (drop 16 c)) ≡ true = ground arith in
    let rest : drop 16 c ≡ m = ground arith in
    let tag = (bytes_eq_iff (take 16 c) (toy_tag k n aad (drop 16 c))).0 same in
    rw (← rest) (ap some (ap (λ (t : Bytes). t ++ drop 16 c) (sym tag) ∙ take-append-drop 16 c))

toy_tag_length :
    (k n aad m : Bytes) {c : Bytes} → toy_encrypt k n aad m ≡ some c → length c ≡ length m + 16
unfolding toy_encrypt
toy_tag_length k n aad m {c} h =
    let e : toy_tag k n aad m ++ m ≡ c = ground arith in
    rw (← e) (omega (arith, length-append {0} (toy_tag k n aad m) m, length-toy_tag k n aad m))

pub toy-IsTotal : IsTotal toy
unfolding toy_encrypt
toy-IsTotal = record { takes = λ k n aad m w la lm. (_, refl) }

pub toy-IsAead : IsAead toy
toy-IsAead = record { opens = toy_opens; authentic = toy_authentic; tag_length = toy_tag_length }

unfoldable pub toy_mac : Bytes → Bytes → Bytes
unfolding sum
toy_mac k m = replicate 32 (sum k + sum m)

pub length-toy_mac : (k m : Bytes) → length (toy_mac k m) ≡ 32
unfolding toy_mac
length-toy_mac k m = refl

abbrev pub toy_hmac : Hmac
toy_hmac = record { hmac = toy_mac; length-hmac = length-toy_mac }

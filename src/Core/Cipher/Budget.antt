-- ===== src/Core/Cipher/Budget.antt =====
-- The budget of a cipher: what a row of calls of `encrypt` comes to.
use dbsec.Prelude.{
  ℕ, zero, suc, ◌+◌, ◌^◌, ◌<◌, ◌≤◌, ◌≡◌, refl, Option, none, some, List, ◌∷◌, [], ◌++◌, length,
  length-append, be32, arith, Result, ok, err, Bytes, All, leb, inl, inr, Bool-cases,
}
use dbsec.Core.{Error}
use dbsec.Core.Crypto.{Aead, IsAead, IsTotal, gcm_limit}
use dbsec.Core.Envelope.{KeyId, CellContext, RowKey, Binding, aad, magic_v3, key_id_len, nonce_len}
use dbsec.Core.Envelope.Aad.{framed, aad_with_row_fits}
use dbsec.Core.Cipher.{Cipher, encrypt, decrypt, seal_with, choose, remaining}
use dbsec.Core.Cipher.Sealed.{decrypt-seal_with}

pub record Request : Type 0 where
  pub id : KeyId
  pub binding : Binding
  pub plaintext : Bytes
  pub nonce : Bytes

abbrev pub RowFits : Option RowKey → Type 0
RowFits none = Unit
RowFits (some k) = length k.canonical < 2 ^ 32

-- The widths of an id and a nonce, and lengths within the limits of the format and of AES-GCM.
abbrev pub Fits : Request → Type 0
Fits r =
    (length r.id ≡ key_id_len)
    × (length r.nonce ≡ nonce_len)
    × (length r.plaintext ≤ gcm_limit)
    × (length r.binding.context.name < 2 ^ 32)
    × RowFits r.binding.row

-- The results of calls under a key of which `n` invocations are left: each of the first `n` is a
-- value that opens under the key to what was to be sealed, and each behind them a refusal.
abbrev pub Spends : Aead → Bytes → ℕ → List Request → List (Result Error Bytes) → Type 0
Spends gcm key n [] [] = Unit
Spends gcm key n [] (x ∷ xs) = ⊥
Spends gcm key n (r ∷ rs) [] = ⊥
Spends gcm key zero (r ∷ rs) (x ∷ xs) =
    (x ≡ err (Error.key_exhausted r.id)) × Spends gcm key zero rs xs
Spends gcm key (suc n) (r ∷ rs) (x ∷ xs) =
    ((stored : Bytes) × (x ≡ ok stored) × (decrypt gcm key r.binding stored ≡ ok r.plaintext))
    × Spends gcm key n rs xs

length-framed :
    (id name canonical : Bytes)
    → length (framed id name canonical) ≡ length id + (4 + (length name + (4 + length canonical)))
length-framed id name canonical =
    let last = be32 (length canonical) ++ canonical in
    let outer = length-append {0} id (be32 (length name) ++ (name ++ last)) in
    let middle = length-append {0} name last in omega (arith, outer, middle)

choose_within :
    (context : CellContext) (row : Option RowKey) (id : KeyId)
    → length id ≡ key_id_len
    → length context.name < 2 ^ 32
    → RowFits row
    → (p : Bytes × Bytes) × (choose context row id ≡ ok p) × (length p.1 ≤ gcm_limit)
unfolding choose aad
choose_within context none id w hc hk =
    let size = length-append {0} id context.name in (_, refl, omega (arith, size, w, hc))
choose_within context (some k) id w hc hk =
    let size = length-framed id context.name k.canonical in
    (
      (magic_v3, framed id context.name k.canonical),
      rw (aad_with_row_fits context id k hc hk) refl,
      omega (arith, size, w, hc, hk),
    )

-- The results of a row of calls, and the cipher that they leave.
pub encrypt_all : Aead → List Request → Cipher → List (Result Error Bytes) × Cipher
encrypt_all gcm [] c = ([], c)
encrypt_all gcm (r ∷ rs) c =
    let (result, c') = encrypt gcm c r.id r.binding r.plaintext r.nonce in
    let (results, c'') = encrypt_all gcm rs c' in (result ∷ results, c'')

module _ (gcm : Aead) (law : IsAead gcm) (total : IsTotal gcm) where
  seal_with-Fits :
      (key : Bytes) (r : Request)
      → Fits r
      → (stored : Bytes) × (seal_with gcm key r.id r.binding r.plaintext r.nonce ≡ ok stored)
        × (decrypt gcm key r.binding stored ≡ ok r.plaintext)
  unfolding seal_with
  seal_with-Fits key r h =
      let (id_width, nonce_width, fits, name_fits, row_fits) = h in
      let (p, built, short) =
        choose_within r.binding.context r.binding.row r.id id_width name_fits row_fits in
      let (c, taken) = total.takes key r.nonce p.1 r.plaintext nonce_width short fits in
      let sealed : seal_with gcm key r.id r.binding r.plaintext r.nonce
          ≡ ok (p.0 ++ (r.id ++ (r.nonce ++ c))) =
        rw (seal_with, built, taken) refl in
      (
        _,
        sealed,
        decrypt-seal_with gcm law key r.id r.nonce r.plaintext r.binding r.binding.strict id_width
            nonce_width sealed,
      )

  charged :
      (c : Cipher) (r : Request)
      → c.used + 1 < 2 ^ 64
      → (encrypt gcm c r.id r.binding r.plaintext r.nonce).1 ≡ record c { used = c.used + 1 }
  unfolding encrypt
  charged c r h = ground arith

  -- Of a row of calls that does not overflow the counter, exactly as many seal as the budget has
  -- left, and these are the first: each returns a value that opens under the key to its plaintext,
  -- and each call behind them is refused as exhausted. The ids and nonces have their widths, the
  -- names, row keys and plaintexts are within the limits of the format and of AES-GCM, and AES-GCM
  -- takes what is within its limits.
  pub encrypt_all-Spends :
      (rs : List Request) (c : Cipher)
      → All Fits rs
      → c.used + length rs < 2 ^ 64
      → Spends gcm c.key (remaining c) rs (encrypt_all gcm rs c).0
  unfolding encrypt_all encrypt remaining
  encrypt_all-Spends [] c f h = tt
  encrypt_all-Spends (r ∷ rs) c f h =
      let c' = record c { used = c.used + 1 } in
      let later = encrypt_all-Spends rs c' f.1 (omega arith) in
      elim (Bool-cases (leb c.budget c.used)) [
        | inl spent ↦
            let none_left : remaining c ≡ 0 = ground (arith, spent) in
            let none_left' : remaining c' ≡ 0 = ground (arith, spent) in
            rw (none_left, charged c r (omega arith), spent) (refl, rw none_left' at later)
        | inr left ↦
            let one_less : remaining c ≡ suc (remaining c') = ground (arith, left) in
            rw (one_less, charged c r (omega arith), left) (seal_with-Fits c.key r f.0, later)
      ]

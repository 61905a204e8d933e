-- ===== src/Core/Fpe/RoundTrip.antt =====
-- `FpeTransform` of crates/core/src/transform.rs: sealing and opening, and the shape of a
-- pseudonym.
use dbsec.Prelude.{
  ℕ, ◌-◌, ◌<◌, ◌≤◌, ◌≡◌, refl, sym, ap, ◌∙◌, true, false, none, some, [], ◌∷◌, ltb, if◌then◌else◌,
  length, ok, Bytes, arith, Bool-cases, Option-cases, inl, inr,
}
use dbsec.Core.Crypto.{Ff1, IsFf1, AreDigits}
use dbsec.Core.Ciphers.{KeySource}
use dbsec.Core.Fpe.{
  min_fpe_digits, FpeTransform, ff1_of, is_ascii_digit, digits_of, digit_byte, put_digits,
  transform_digits, fpe_seal, fpe_open,
}

digits_of-AreDigits : (value : Bytes) → AreDigits (digits_of value)
unfolding digits_of is_ascii_digit
digits_of-AreDigits [] = tt
digits_of-AreDigits (b ∷ bs) = ground (arith, digits_of-AreDigits bs)

is_digit_byte : (d : ℕ) → d < 10 → is_ascii_digit (digit_byte d) ≡ true
unfolding is_ascii_digit
is_digit_byte d h = ground arith

digit_byte_back : (d : ℕ) → d < 10 → digit_byte d - b'0' ≡ d
digit_byte_back d h = ground arith

none_left : (ds : Bytes) → 0 ≡ length ds → ds ≡ []
none_left [] h = refl
none_left (d ∷ ds) h = absurd (omega arith)

-- the digits that were put are the digits that are found
digits_of-put_digits :
    (v ds : Bytes)
    → length ds ≡ length (digits_of v)
    → AreDigits ds
    → digits_of (put_digits v ds) ≡ ds
unfolding digits_of put_digits
digits_of-put_digits [] [] l h = refl
digits_of-put_digits [] (d ∷ ds) l h = absurd (omega arith)
digits_of-put_digits (b ∷ bs) [] l h = none_left (digits_of (b ∷ bs)) l
digits_of-put_digits (b ∷ bs) (d ∷ ds) l h = elim (Bool-cases (is_ascii_digit b)) [
  | inl digit ↦
      let fits : length ds ≡ length (digits_of bs) =
        let l' = rw (digits_of, digit) at l in omega arith in
      rw (put_digits, digit, digits_of, is_digit_byte d h.0, digit_byte_back d h.0)
        (ap (◌∷◌ d) (digits_of-put_digits bs ds fits h.1))
  | inr other ↦
      rw (put_digits, other, digits_of, other)
        (digits_of-put_digits bs (d ∷ ds) (rw (digits_of, other) at l) h)
]

digit_byte_of : (b : ℕ) → is_ascii_digit b ≡ true → digit_byte (b - b'0') ≡ b
unfolding is_ascii_digit
digit_byte_of b h = ground arith

put_digits_none : (v : Bytes) → put_digits v [] ≡ v
unfolding put_digits
put_digits_none [] = refl
put_digits_none (b ∷ bs) = refl

put_digits_passes :
    (b : ℕ) (bs out : Bytes)
    → is_ascii_digit b ≡ false
    → put_digits (b ∷ bs) out ≡ b ∷ put_digits bs out
unfolding put_digits
put_digits_passes b bs [] h = ap (◌∷◌ b) (sym (put_digits_none bs))
put_digits_passes b bs (d ∷ ds) h = rw (put_digits, h)

length-put_digits : (v out : Bytes) → length (put_digits v out) ≡ length v
unfolding put_digits
length-put_digits [] out = refl
length-put_digits (b ∷ bs) [] = refl
length-put_digits (b ∷ bs) (d ∷ ds) =
    ground (arith, length-put_digits bs ds, length-put_digits bs (d ∷ ds))

-- putting the digits back gives the value back
put_digits-put_digits :
    (v ds : Bytes)
    → length ds ≡ length (digits_of v)
    → AreDigits ds
    → put_digits (put_digits v ds) (digits_of v) ≡ v
unfolding digits_of put_digits
put_digits-put_digits [] [] l h = refl
put_digits-put_digits [] (d ∷ ds) l h = refl
put_digits-put_digits (b ∷ bs) [] l h = rw (none_left (digits_of (b ∷ bs)) l)
put_digits-put_digits (b ∷ bs) (d ∷ ds) l h = elim (Bool-cases (is_ascii_digit b)) [
  | inl digit ↦
      let fits : length ds ≡ length (digits_of bs) =
        let l' = rw (digits_of, digit) at l in omega arith in
      rw (digit, is_digit_byte d h.0, digit_byte_of b digit)
        (ap (◌∷◌ b) (put_digits-put_digits bs ds fits h.1))
  | inr other ↦
      rw (other, put_digits_passes b (put_digits bs (d ∷ ds)) (digits_of bs) other)
        (ap (◌∷◌ b) (put_digits-put_digits bs (d ∷ ds) (rw (digits_of, other) at l) h))
]

-- What a sealed pseudonym is: enough digits, encrypted under the key, in the places of the digits.
record Pseudonym (f : Ff1) (key plaintext stored : Bytes) : Type 0 where
  out : Bytes
  enough : ltb (length (digits_of plaintext)) min_fpe_digits ≡ false
  encrypted : f.ff1_encrypt key (digits_of plaintext) ≡ some out
  laid_out : put_digits plaintext out ≡ stored

fpe_seal-Pseudonym :
    (f : Ff1) (t : FpeTransform) (keys : KeySource) (plaintext : Bytes) {key stored : Bytes}
    {t' t'' : FpeTransform}
    → ff1_of t keys ≡ ok (key, t')
    → fpe_seal f t keys plaintext ≡ ok (stored, t'')
    → Pseudonym f key plaintext stored
unfolding fpe_seal transform_digits
fpe_seal-Pseudonym f t keys plaintext {key} {stored} k h =
    elim (Bool-cases (ltb (length (digits_of plaintext)) 6)) [
      | inl few ↦ let h' = rw (fpe_seal, transform_digits, few) at h in ground arith
      | inr many ↦ elim (Option-cases (f.ff1_encrypt key (digits_of plaintext))) [
        | inl failed ↦
            let h' = rw (fpe_seal, transform_digits, many, k, failed) at h in ground arith
        | inr (out, e) ↦
            let h' = rw (fpe_seal, transform_digits, many, k, e) at h in
            record { out = out; enough = many; encrypted = e; laid_out = ground arith }
      ]
    ]

transform_digits_decrypts :
    (f : Ff1) (u : FpeTransform) (keys : KeySource) (value : Bytes) {key out : Bytes}
    {u' : FpeTransform}
    → ltb (length (digits_of value)) min_fpe_digits ≡ false
    → ff1_of u keys ≡ ok (key, u')
    → f.ff1_decrypt key (digits_of value) ≡ some out
    → transform_digits f u keys value true ≡ ok (some (put_digits value out), u')
unfolding transform_digits
transform_digits_decrypts f u keys value many l e = rw (transform_digits, many, l, e)

module _ (f : Ff1) (law : IsFf1 f) where
  -- A pseudonym opens to the value that was sealed, through a transform that gives values back
  -- and whose key is the one it was sealed under, where FF1 is a permutation of the digit strings
  -- of a length.
  pub fpe_open-fpe_seal :
      (t u : FpeTransform) (keys reading : KeySource) (plaintext : Bytes) {key stored : Bytes}
      {t' t'' u' : FpeTransform}
      → ff1_of t keys ≡ ok (key, t')
      → ff1_of u reading ≡ ok (key, u')
      → u.detokenize ≡ true
      → fpe_seal f t keys plaintext ≡ ok (stored, t'')
      → fpe_open f u reading stored ≡ ok (some plaintext, u')
  unfolding fpe_open
  fpe_open-fpe_seal t u keys reading plaintext {key} {stored} k l gives h =
      let p = fpe_seal-Pseudonym f t keys plaintext k h in
      let (digits, len) =
        law.keeps_digits key (digits_of plaintext) (digits_of-AreDigits plaintext) p.encrypted in
      let found = digits_of-put_digits plaintext p.out len digits in
      let back =
        law.inverts key (digits_of plaintext) (digits_of-AreDigits plaintext) p.encrypted in
      let enough : ltb (length (digits_of (put_digits plaintext p.out))) 6 ≡ false =
        rw (found, len) p.enough in
      let opened =
        transform_digits_decrypts f u reading (put_digits plaintext p.out)
          {out = digits_of plaintext} enough l (rw found back) in
      let asked : fpe_open f u reading stored ≡ transform_digits f u reading stored true =
        ap (λ b. if b then transform_digits f u reading stored true else ok (none, u)) gives in
      asked ∙ rw (← p.laid_out) (opened ∙ rw (put_digits-put_digits plaintext p.out len digits))

  -- The pseudonym has the length of the value and as many digits, at least six, where FF1 is a
  -- permutation of the digit strings of a length.
  pub fpe_seal-length :
      (t : FpeTransform) (keys : KeySource) (plaintext : Bytes) {key stored : Bytes}
      {t' t'' : FpeTransform}
      → ff1_of t keys ≡ ok (key, t')
      → fpe_seal f t keys plaintext ≡ ok (stored, t'')
      → (length stored ≡ length plaintext)
        × (length (digits_of stored) ≡ length (digits_of plaintext))
        × (min_fpe_digits ≤ length (digits_of stored))
  fpe_seal-length t keys plaintext {key} {stored} k h =
      let p = fpe_seal-Pseudonym f t keys plaintext k h in
      let (digits, len) =
        law.keeps_digits key (digits_of plaintext) (digits_of-AreDigits plaintext) p.encrypted in
      let found = digits_of-put_digits plaintext p.out len digits in
      rw (← p.laid_out, found)
        (length-put_digits plaintext p.out, len, ground (arith, p.enough, len))

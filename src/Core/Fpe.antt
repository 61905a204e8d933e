-- ===== src/Core/Fpe.antt =====
-- `FpeTransform` of crates/core/src/transform.rs: format-preserving encryption of the decimal digits.
-- FF1 with radix 10 fails on no digit string that is long enough, so a call that fetched the key keeps it.
pub mod RoundTrip
mod Tests
use dbsec.Prelude.{
  ℕ, ◌+◌, ◌-◌, ◌%◌, Bool, true, false, ◌&&◌, Option, none, some, List, [], ◌∷◌, ltb, leb,
  if◌then◌else◌, length, Result, ok, err, ◌>>=◌, ok_or, Bytes,
}
use dbsec.Core.{Error}
use dbsec.Core.Crypto.{Ff1}
use dbsec.Core.Ciphers.{KeySource}

abbrev pub min_fpe_digits : ℕ
min_fpe_digits = 6

-- `ff1` is the OnceLock, which holds the cipher of a key.
pub record FpeTransform : Type 0 where
  pub key_name : Bytes
  pub detokenize : Bool
  pub ff1 : Option Bytes

abbrev pub fpe_transform : Bytes → Bool → FpeTransform
fpe_transform key_name detokenize = record {
  key_name = key_name;
  detokenize = detokenize;
  ff1 = none;
}

-- Failures are not cached.
fetch_ff1 : Option Bytes → FpeTransform → KeySource → Result Error (Bytes × FpeTransform)
fetch_ff1 (some key) t keys = ok (key, t)
fetch_ff1 none t keys = do key ← keys.index_key t.key_name; ok (key, record t { ff1 = some key })

unfoldable pub ff1_of : FpeTransform → KeySource → Result Error (Bytes × FpeTransform)
unfolding fetch_ff1
ff1_of t keys = fetch_ff1 t.ff1 t keys

unfoldable pub is_ascii_digit : ℕ → Bool
is_ascii_digit b = leb b'0' b && leb b b'9'

-- the digits of a value, in their order
unfoldable pub digits_of : Bytes → Bytes
unfolding is_ascii_digit
digits_of [] = []
digits_of (b ∷ bs) = let rest = digits_of bs in if is_ascii_digit b then (b - b'0') ∷ rest else rest

-- `b'0' + digit as u8`
abbrev pub digit_byte : ℕ → ℕ
digit_byte digit = (b'0' + digit % 256) % 256

-- `for (&position, digit) in positions.iter().zip(out) { result[position] = .. }`
unfoldable pub put_digits : Bytes → Bytes → Bytes
unfolding is_ascii_digit
put_digits [] out = []
put_digits (b ∷ bs) [] = b ∷ bs
put_digits (b ∷ bs) (d ∷ ds) =
    let taken = put_digits bs ds in
    let passed = put_digits bs (d ∷ ds) in
    if is_ascii_digit b then digit_byte d ∷ taken else b ∷ passed

module _ (f : Ff1) where
  abbrev pub run_ff1 : Bool → Bytes → Bytes → Option Bytes
  run_ff1 true key digits = f.ff1_decrypt key digits
  run_ff1 false key digits = f.ff1_encrypt key digits

  unfoldable pub transform_digits :
      FpeTransform → KeySource → Bytes → Bool → Result Error (Option Bytes × FpeTransform)
  unfolding digits_of put_digits ff1_of
  transform_digits t keys value decrypt =
      if ltb (length (digits_of value)) min_fpe_digits then ok (none, t) else (do
        (key, t') ← ff1_of t keys
        out ← ok_or Error.fpe (run_ff1 decrypt key (digits_of value))
        ok (some (put_digits value out), t'))

  -- Too few digits are refused rather than stored under a weak pseudonym.
  unfoldable pub fpe_seal : FpeTransform → KeySource → Bytes → Result Error (Bytes × FpeTransform)
  fpe_seal t keys plaintext = do
    (sealed, t') ← transform_digits t keys plaintext false
    stored ← ok_or Error.fpe_domain sealed
    ok (stored, t')

  unfoldable pub fpe_open :
      FpeTransform → KeySource → Bytes → Result Error (Option Bytes × FpeTransform)
  fpe_open t keys stored =
      if t.detokenize then transform_digits t keys stored true else ok (none, t)

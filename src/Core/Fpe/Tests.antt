-- ===== src/Core/Fpe/Tests.antt =====
-- Runs of the pseudonyms with a toy permutation, the sum of each digit and 3 modulo 10.
use dbsec.Prelude.{
  ◌+◌, ◌%◌, ◌≡◌, refl, ap₂, none, some, [], ◌∷◌, length, ok, err, Bytes, codes, arith, true,
}
use dbsec.Core.{Error}
use dbsec.Core.Crypto.{Ff1, IsFf1, AreDigits}
use dbsec.Core.Ciphers.{KeySource}
use dbsec.Core.Fpe.{
  FpeTransform, fpe_transform, ff1_of, digits_of, put_digits, is_ascii_digit, transform_digits,
  fpe_seal, fpe_open,
}
use dbsec.Core.Fpe.RoundTrip.{fpe_open-fpe_seal}

forth : Bytes → Bytes
forth [] = []
forth (d ∷ ds) = (d + 3) % 10 ∷ forth ds

back : Bytes → Bytes
back [] = []
back (d ∷ ds) = (d + 7) % 10 ∷ back ds

back-forth : (ds : Bytes) → AreDigits ds → back (forth ds) ≡ ds
unfolding forth back
back-forth [] h = refl
back-forth (d ∷ ds) h = ap₂ ◌∷◌ (omega (arith, h.0)) (back-forth ds h.1)

forth-AreDigits : (ds : Bytes) → AreDigits (forth ds) × (length (forth ds) ≡ length ds)
unfolding forth
forth-AreDigits [] = (tt, refl)
forth-AreDigits (d ∷ ds) =
    let (digits, len) = forth-AreDigits ds in ((omega arith, digits), omega (arith, len))

shift : Ff1
unfolding forth back
shift = record { ff1_encrypt = λ k ds. some (forth ds); ff1_decrypt = λ k ds. some (back ds) }

shift_inverts :
    (k ds : Bytes) {out : Bytes}
    → AreDigits ds
    → shift.ff1_encrypt k ds ≡ some out
    → shift.ff1_decrypt k out ≡ some ds
unfolding shift
shift_inverts k ds {out} h e =
    let same : forth ds ≡ out = ground arith in rw (← same, back-forth ds h)

shift_keeps_digits :
    (k ds : Bytes) {out : Bytes}
    → AreDigits ds
    → shift.ff1_encrypt k ds ≡ some out
    → AreDigits out × (length out ≡ length ds)
unfolding shift
shift_keeps_digits k ds {out} h e =
    let same : forth ds ≡ out = ground arith in rw (← same) (forth-AreDigits ds)

shift-IsFf1 : IsFf1 shift
shift-IsFf1 = record { inverts = shift_inverts; keeps_digits = shift_keeps_digits }

abbrev pan : FpeTransform
pan = fpe_transform (codes "pan") true

abbrev keys : KeySource
keys = record {
  active_key = err Error.key_source;
  key = λ i. err Error.key_source;
  index_key = λ n. ok n;
}

abbrev opened_pan : FpeTransform
opened_pan = record pan { ff1 = some (codes "pan") }

seal-pan : fpe_seal shift pan keys (codes "411-1118") ≡ ok (codes "744-4441", opened_pan)
unfolding fpe_seal transform_digits digits_of put_digits is_ascii_digit ff1_of shift forth
seal-pan = refl

-- five digits are refused on the way in and passed through on the way out
few_digits :
    (fpe_seal shift pan keys (codes "411-11") ≡ err Error.fpe_domain)
    × (fpe_open shift pan keys (codes "411-11") ≡ ok (none, pan))
unfolding fpe_seal fpe_open transform_digits digits_of is_ascii_digit
few_digits = (refl, refl)

pan-key : ff1_of pan keys ≡ ok (codes "pan", opened_pan)
unfolding ff1_of
pan-key = refl

fpe_open-fpe_seal_example :
    fpe_open shift pan keys (codes "744-4441") ≡ ok (some (codes "411-1118"), opened_pan)
fpe_open-fpe_seal_example =
    fpe_open-fpe_seal shift shift-IsFf1 pan pan keys keys (codes "411-1118") pan-key pan-key refl
      seal-pan

-- ===== src/Core/RowKeys/Uuid.antt =====
-- `canonical` of crates/core/src/rowkey.rs, for a uuid in its two formats.
use dbsec.Prelude.{
  ℕ, ◌+◌, ◌<◌, ◌≡◌, refl, sym, ap, ◌∙◌, true, false, some, [], ◌∷◌, ◌++◌, ◌==◌, ==_iff, >>=-eq-ok,
  length, take, drop, take-append-drop, ok, zero, suc, All, All-append, All-take, All-drop, Bytes,
  arith, Bool-cases, inl, inr,
}
use dbsec.Core.Envelope.{RowKey}
use dbsec.Core.RowKeys.{
  oid_uuid, text, binary, Texts, is_hex_digit, lower_hex, hex_digits, unbraced, hyphenated, fixed,
  uuid_of, uuid_from_text, utf8, uuid_binary, canonical_text, canonical,
}

-- a digit as `hex::encode` writes it
abbrev pub IsLowerHex : ℕ → Type 0
IsLowerHex c = (is_hex_digit c ≡ true) × (lower_hex c ≡ c)

not_hyphen : (c : ℕ) → is_hex_digit c ≡ true → (c == b'-') ≡ false
unfolding is_hex_digit
not_hyphen c h = ground arith

not_brace : (c : ℕ) → is_hex_digit c ≡ true → (c == b'{') ≡ false
unfolding is_hex_digit
not_brace c h = ground arith

hex_digits-append :
    (a b : Bytes) {digits : Bytes}
    → All IsLowerHex a
    → hex_digits b ≡ some digits
    → hex_digits (a ++ b) ≡ some (a ++ digits)
unfolding hex_digits
hex_digits-append [] b h e = e
hex_digits-append (c ∷ a) b h e =
    rw (hex_digits, not_hyphen c h.0.0, h.0.0, hex_digits-append a b h.1 e, h.0.1)

hex_digits-hyphen : (b : Bytes) → hex_digits (b'-' ∷ b) ≡ hex_digits b
unfolding hex_digits
hex_digits-hyphen b = refl

-- a group of digits behind a hyphen
group :
    (a b : Bytes) {digits : Bytes}
    → All IsLowerHex a
    → hex_digits b ≡ some digits
    → hex_digits (b'-' ∷ (a ++ b)) ≡ some (a ++ digits)
group a b h e = hex_digits-hyphen (a ++ b) ∙ hex_digits-append a b h e

hex_digits-IsLowerHex : (a : Bytes) → All IsLowerHex a → hex_digits a ≡ some a
unfolding hex_digits
hex_digits-IsLowerHex [] h = refl
hex_digits-IsLowerHex (c ∷ a) h =
    rw (hex_digits, not_hyphen c h.0.0, h.0.0, hex_digits-IsLowerHex a h.1, h.0.1)

drop_nil : (n : ℕ) → drop {A = ℕ} n [] ≡ []
drop_nil zero = refl
drop_nil (suc n) = refl

drop-drop : (n m : ℕ) (xs : Bytes) → drop m (drop n xs) ≡ drop (n + m) xs
drop-drop zero m xs = ap (λ k. drop k xs) (omega arith)
drop-drop (suc n) m [] = drop_nil m ∙ sym (drop_nil (suc n + m))
drop-drop (suc n) m (x ∷ xs) =
    let e : suc (n + m) ≡ suc n + m = omega arith in drop-drop n m xs ∙ ap (λ k. drop k (x ∷ xs)) e

regroup : (n m : ℕ) (xs : Bytes) → take m (drop n xs) ++ drop (n + m) xs ≡ drop n xs
regroup n m xs = rw (← drop-drop n m xs) (take-append-drop m (drop n xs))

hex_digits-hyphenated : (hex : Bytes) → All IsLowerHex hex → hex_digits (hyphenated hex) ≡ some hex
unfolding hyphenated
hex_digits-hyphenated hex h =
    let four = λ (n : ℕ). All-take IsLowerHex 4 (drop n hex) (All-drop IsLowerHex n hex h) in
    let last =
      hex_digits-hyphen (drop 20 hex)
      ∙ hex_digits-IsLowerHex (drop 20 hex) (All-drop IsLowerHex 20 hex h) in
    let d = group (take 4 (drop 16 hex)) _ (four 16) last ∙ ap some (regroup 16 4 hex) in
    let c = group (take 4 (drop 12 hex)) _ (four 12) d ∙ ap some (regroup 12 4 hex) in
    let b = group (take 4 (drop 8 hex)) _ (four 8) c ∙ ap some (regroup 8 4 hex) in
    hex_digits-append (take 8 hex) _ (All-take IsLowerHex 8 hex h) b
    ∙ ap some (take-append-drop 8 hex)

unbraced-hyphenated :
    (hex : Bytes) → All IsLowerHex hex → 0 < length hex → unbraced (hyphenated hex) ≡ hyphenated hex
unfolding unbraced hyphenated
unbraced-hyphenated [] h pos' = absurd (omega arith)
unbraced-hyphenated (c ∷ cs) h pos' = rw (not_brace c h.0.0)

uuid_of-hyphenated :
    (hex : Bytes)
    → All IsLowerHex hex
    → length hex ≡ 32
    → uuid_of (hyphenated hex) ≡ ok (hyphenated hex)
unfolding uuid_of
uuid_of-hyphenated hex h l =
    rw (uuid_of, unbraced-hyphenated hex h (omega (arith, l)), hex_digits-hyphenated hex h, l)

abbrev pub IsPrintable : ℕ → Type 0
IsPrintable c = (32 < c) × (c < 127)

-- What std and hex document: printable ASCII is UTF-8 and has no white space to trim, and hex is two
-- lower-case digits for each byte.
pub record IsTexts (s : Texts) : Type 0 where
  pub ascii_is_utf8 : (t : Bytes) → All IsPrintable t → s.is_utf8 t ≡ true
  pub trim_printable : (t : Bytes) → All IsPrintable t → s.trim t ≡ t
  pub hex_is_lower : (b : Bytes) → All (λ (x : ℕ). x < 256) b → All IsLowerHex (s.hex_encode b)
  pub hex_length : (b : Bytes) → length (s.hex_encode b) ≡ length b + length b

pub printable : (a : Bytes) → All IsLowerHex a → All IsPrintable a
unfolding is_hex_digit
printable [] h = tt
printable (c ∷ a) h = ((ground (arith, h.0.0), ground (arith, h.0.0)), printable a h.1)

hyphenated-IsPrintable : (hex : Bytes) → All IsLowerHex hex → All IsPrintable (hyphenated hex)
unfolding hyphenated
hyphenated-IsPrintable hex h =
    let all = printable hex h in
    let dash : IsPrintable b'-' = (omega arith, omega arith) in
    let four = λ (n : ℕ). All-take IsPrintable 4 (drop n hex) (All-drop IsPrintable n hex all) in
    All-append IsPrintable (take 8 hex) _ (All-take IsPrintable 8 hex all) (
      dash,
      All-append IsPrintable (take 4 (drop 8 hex)) _ (four 8) (
        dash,
        All-append IsPrintable (take 4 (drop 12 hex)) _ (four 12) (
          dash,
          All-append IsPrintable (take 4 (drop 16 hex)) _ (four 16)
              (dash, All-drop IsPrintable 20 hex all),
        ),
      ),
    )

uuid_from_text-hyphenated :
    (s : Texts) (law : IsTexts s) (hex : Bytes)
    → All IsLowerHex hex
    → length hex ≡ 32
    → uuid_from_text s (hyphenated hex) ≡ ok (hyphenated hex)
unfolding uuid_from_text utf8
uuid_from_text-hyphenated s law hex h l =
    let shown = hyphenated-IsPrintable hex h in
    rw (
      law.ascii_is_utf8 (hyphenated hex) shown,
      law.trim_printable (hyphenated hex) shown,
      uuid_of-hyphenated hex h l,
    )

uuid_binary-eq-ok :
    (s : Texts) (bytes : Bytes) {key : Bytes}
    → uuid_binary s bytes ≡ ok key
    → (length bytes ≡ 16) × (hyphenated (s.hex_encode bytes) ≡ key)
unfolding uuid_binary fixed
uuid_binary-eq-ok s bytes h = elim (Bool-cases (length bytes == 16)) [
  | inl wide ↦
      let h' = rw (uuid_binary, fixed, wide) at h in
      ((==_iff (length bytes) 16).0 wide, ground arith)
  | inr other ↦ let h' = rw (uuid_binary, fixed, other) at h in ground arith
]

-- The two formats of a uuid agree: the key that sixteen bytes canonicalise to in the binary format
-- is a text that canonicalises to itself in the text format, where `str::from_utf8`, `str::trim`
-- and `hex::encode` do what they document.
pub canonical-uuid :
    (s : Texts) (law : IsTexts s) (bytes : Bytes) {k : RowKey}
    → All (λ (x : ℕ). x < 256) bytes
    → canonical s oid_uuid binary (some bytes) ≡ ok k
    → canonical s oid_uuid text (some k.canonical) ≡ ok k
unfolding canonical canonical_text
canonical-uuid s law bytes {k} are_bytes h =
    let (key, e, same) =
      >>=-eq-ok (uuid_binary s bytes) (λ value. ok (record { canonical = value })) h in
    let (wide, is_key) = uuid_binary-eq-ok s bytes e in
    let opens =
      uuid_from_text-hyphenated s law (s.hex_encode bytes) (law.hex_is_lower bytes are_bytes)
        (omega (arith, wide, law.hex_length bytes)) in
    let is_k : record { canonical = key } ≡ k = ground arith in rw (← is_k, ← is_key, opens)

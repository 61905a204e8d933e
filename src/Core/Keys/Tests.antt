-- ===== src/Core/Keys/Tests.antt =====
-- The file key source over concrete formats, and the theorems on it there.
use dbsec.Prelude.{
  ℕ, zero, suc, ◌+◌, ◌-◌, ◌*◌, ◌<◌, ◌≡◌, refl, ap, ◌∙◌, false, Option, none, some, [], ◌∷◌, ◌++◌,
  append_assoc, leb, if◌then◌else◌, length, drop, get_elem?, get_elem?-lt, replicate, ok, Bytes,
  codes, All, arith, some-injective, subst,
}
use dbsec.Core.Ciphers.Cached.{Agrees}
use dbsec.Core.RowKeys.{is_hex_digit}
use dbsec.Core.RowKeys.Uuid.{IsLowerHex}
use dbsec.Core.Keys.{
  KeyFile, FileKeySource, Formats, digits, digit, generate, key_file_text, push_hex, load,
  active_key, key, as_key_source,
}
use dbsec.Core.Keys.Generated.{Reads, load-generate}
use dbsec.Core.Keys.Loaded.{key_of, load-Serves}

value : ℕ → ℕ
value c = if leb c b'9' then c - 48 else c - 87

hex_decode : Bytes → Option Bytes
unfolding value
hex_decode [] = some []
hex_decode (h ∷ []) = none
hex_decode (h ∷ l ∷ text) = elim (hex_decode text) [
  | none ↦ none
  | some bytes ↦ some ((value h * 16 + value l) ∷ bytes)
]

-- The digits at their places, from `i` on.
abbrev Valued : ℕ → Bytes → Type 0
Valued i [] = Unit
Valued i (c ∷ cs) = (value c ≡ i) × Valued (i + 1) cs

get_elem?-Valued :
    (i d : ℕ) (cs : Bytes) {c : ℕ} → Valued i cs → get_elem? cs d ≡ some c → value c ≡ i + d
get_elem?-Valued i d [] h e = absurd (ground (arith, e))
get_elem?-Valued i zero (c ∷ cs) h e =
    subst (λ x. value x ≡ i + zero) (some-injective e) (omega (arith, h.0))
get_elem?-Valued i (suc d) (c ∷ cs) h e = omega (arith, get_elem?-Valued (i + 1) d cs h.1 e)

digits-Valued : Valued 0 digits
unfolding value
digits-Valued = omega arith

value-digit : (d : ℕ) → d < 16 → value (digit d) ≡ d
unfolding digit
value-digit d h =
    let (c, e) = get_elem?-lt digits d h in
    let v = get_elem?-Valued 0 d digits digits-Valued e in rw (digit, e) (omega (arith, v))

-- the hex digits in front, and the rest
split : Bytes → Bytes × Bytes
split [] = ([], [])
split (c ∷ text) =
    let (front, rest) = split text in if is_hex_digit c then (c ∷ front, rest) else ([], c ∷ text)

split-append :
    (hex : Bytes) (c : ℕ) (rest : Bytes)
    → All IsLowerHex hex
    → is_hex_digit c ≡ false
    → split (hex ++ c ∷ rest) ≡ (hex, c ∷ rest)
unfolding split
split-append [] c rest h n = rw (split, n) refl
split-append (d ∷ hex) c rest h n = rw (split, h.0.0, split-append hex c rest h.1 n) refl

from_str : Bytes → Option KeyFile
from_str text =
    let (id, behind_id) = split (drop 10 text) in
    let (_, behind_name) = split (drop 10 behind_id) in
    let (key, _) = split (drop 4 behind_name) in
    some (record { active = id; keys = (id, key) ∷ []; index_keys = [] })

abbrev formats : Formats
formats = record { hex_encode = push_hex []; hex_decode = hex_decode; from_str = from_str }

nested :
    (a b c d e f g : Bytes)
    → a ++ b ++ c ++ d ++ e ++ f ++ g ≡ a ++ (b ++ (c ++ (d ++ (e ++ (f ++ g)))))
nested a b c d e f g = simp append_assoc

reads : Reads formats
unfolding hex_decode from_str is_hex_digit
reads = record {
  decode_nil = refl;
  decode_cons =
      λ high low text p q e. rw (hex_decode, e, value-digit high p, value-digit low q) refl;
  from_str = λ id key hi hk l.
      ap from_str (
        nested (codes "active = \"") id (codes "\"\n\n[keys]\n") id (codes " = \"") key
          (codes "\"\n"))
      ∙ rw
          (
            split-append id b'"'
                (codes "\n\n[keys]\n" ++ (id ++ (codes " = \"" ++ (key ++ codes "\"\n")))) hi refl,
            split-append id b' ' (codes "= \"" ++ (key ++ codes "\"\n")) hi refl,
            split-append key b'"' (codes "\n") hk refl,
          )
          refl;
}

abbrev id_nine : Bytes
id_nine = replicate 16 9

abbrev key_200 : Bytes
key_200 = replicate 32 200

abbrev source : FileKeySource
source = record { active = id_nine; keys = (id_nine, key_200) ∷ []; index_keys = [] }

load-generate_example :
    load formats (generate (some id_nine) (some key_200) none none).1 ≡ ok source
load-generate_example =
    load-generate formats reads id_nine key_200 (omega arith) refl (omega arith) refl

load-Serves_example :
    ((k : Bytes) × (active_key formats source ≡ some (ok (id_nine, k)))
      × (key formats source id_nine ≡ ok k)
      × (length id_nine ≡ 16)
      × (length k ≡ 32))
    × Agrees (key_of source) (as_key_source formats source)
load-Serves_example =
    load-Serves formats (generate (some id_nine) (some key_200) none none).1 load-generate_example

-- The text of a generated file has the size that is reserved for it.
length_of_text :
    length (key_file_text id_nine key_200)
    ≡ length (codes "active = \"\"\n\n[keys]\n = \"\"\n") + 16 * 4 + 64
unfolding key_file_text push_hex
length_of_text = refl

-- ===== src/Pgwire/Messages/Formats.antt =====
-- The format codes of a Bind: what the result-format section decodes to, and which code a value has.
use dbsec.Prelude.{
  ℕ, zero, suc, ◌^◌, ◌<◌, ◌≤◌, ◌≡◌, ◌⊎◌, refl, ap, ◌∙◌, some, List, [], ◌∷◌, ◌++◌, length,
  replicate, get_elem?, ok, Bytes, All, be16, be_i16, IsI16, ℤ, pos, arith, get_elem?-lt,
}
use dbsec.Pgwire.Cursor.{take_i16}
use dbsec.Pgwire.Cursor.Laws.{
  Reads, Reads-bind, Reads-take_times, take_i16-be16, take_i16-be_i16, flat_map,
}
use dbsec.Pgwire.Messages.{BindMessage, codes_section, result_format_codes, format_code}

Reads-codes_section :
    (codes : List ℤ)
    → length codes < 2 ^ 15
    → All IsI16 codes
    → Reads codes_section (be16 (length codes) ++ flat_map be_i16 codes) codes
unfolding codes_section
Reads-codes_section codes fits h =
    Reads-bind _ (take_i16-be16 (length codes) fits)
      (Reads-take_times take_i16 be_i16 IsI16 take_i16-be_i16 codes h)

-- A section of fewer than 2^15 codes, each an i16, with any bytes behind them, decodes to the
-- codes, in order.
pub result_format_codes_lem :
    (m : BindMessage) (codes : List ℤ) (behind : Bytes)
    → length codes < 2 ^ 15
    → All IsI16 codes
    → m.result_formats ≡ (be16 (length codes) ++ flat_map be_i16 codes) ++ behind
    → result_format_codes m ≡ ok codes
unfolding result_format_codes
result_format_codes_lem m codes behind fits h e =
    rw (result_format_codes, ap codes_section e ∙ (Reads-codes_section codes fits h).at behind)

-- The codes of `n` values, with the shorthand written out.
abbrev pub expand : ℕ → List ℤ → List ℤ
expand n [] = replicate n (pos 0)
expand n (c ∷ []) = replicate n c
expand n (c ∷ d ∷ codes) = c ∷ d ∷ codes

get_elem?-replicate : (n i : ℕ) (c : ℤ) → i < n → get_elem? (replicate n c) i ≡ some c
get_elem?-replicate zero i c h = elim h [ ]
get_elem?-replicate (suc n) zero c h = refl
get_elem?-replicate (suc n) (suc i) c h = get_elem?-replicate n i c (omega arith)

-- For a section with no code, one code, or one for each of `n` values, the code of each value is
-- the one at its place once the shorthand is written out.
pub format_code-expand :
    (codes : List ℤ) (n i : ℕ)
    → (length codes ≤ 1) ⊎ (length codes ≡ n)
    → i < n
    → get_elem? (expand n codes) i ≡ some (format_code codes i)
unfolding format_code
format_code-expand [] n i h lt = get_elem?-replicate n i (pos 0) lt
format_code-expand (c ∷ []) n i h lt = get_elem?-replicate n i c lt
format_code-expand (c ∷ d ∷ codes) n i h lt =
    ground (arith, (get_elem?-lt (c ∷ d ∷ codes) i (omega arith)).1)

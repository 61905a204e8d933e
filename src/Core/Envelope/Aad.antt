-- ===== src/Core/Envelope/Aad.antt =====
-- `CellContext::aad` and `CellContext::aad_with_row` of crates/core/src/envelope.rs.
use dbsec.Prelude.{
  ℕ, ◌^◌, ◌<◌, ◌≡◌, ◌≢◌, refl, sym, ap, ◌∙◌, ◌∷◌, [], ◌++◌, length, arith, ok, Bytes, be32, from_be,
  from_be-be32, All, append-injective, >>=-eq-ok,
}
use dbsec.Core.{AadField, column_context, row_key}
use dbsec.Core.Envelope.{KeyId, CellContext, RowKey, aad, aad_with_row, prefix}

prefix-eq-ok :
    (field : AadField) (bytes : Bytes) {p : Bytes}
    → prefix field bytes ≡ ok p
    → (length bytes < 2 ^ 32) × (p ≡ be32 (length bytes))
unfolding prefix
prefix-eq-ok field bytes h = ground arith

abbrev pub framed : Bytes → Bytes → Bytes → Bytes
framed id column key = id ++ (be32 (length column) ++ (column ++ (be32 (length key) ++ key)))

prefix_fits :
    (field : AadField) (bytes : Bytes)
    → length bytes < 2 ^ 32
    → prefix field bytes ≡ ok (be32 (length bytes))
unfolding prefix
prefix_fits field bytes h = ground arith

pub aad_with_row_fits :
    (c : CellContext) (id : KeyId) (k : RowKey)
    → length c.name < 2 ^ 32
    → length k.canonical < 2 ^ 32
    → aad_with_row c id k ≡ ok (framed id c.name k.canonical)
unfolding aad_with_row
aad_with_row_fits c id k hc hk =
    rw (prefix_fits column_context c.name hc, prefix_fits row_key k.canonical hk)

-- The framing is complete: both lengths fit their prefixes, or the data is refused.
pub aad_with_row-eq-ok :
    (c : CellContext) (id : KeyId) (k : RowKey) {a : Bytes}
    → aad_with_row c id k ≡ ok a
    → (length c.name < 2 ^ 32) × (length k.canonical < 2 ^ 32) × (a ≡ framed id c.name k.canonical)
unfolding aad_with_row
aad_with_row-eq-ok c id k {a} h =
    let (p, e₁, h₁) = >>=-eq-ok (prefix column_context c.name) _ h in
    let (q, e₂, h₂) = >>=-eq-ok (prefix row_key k.canonical) _ h₁ in
    let column_fits = (prefix-eq-ok column_context c.name e₁).0 in
    let key_fits = (prefix-eq-ok row_key k.canonical e₂).0 in
    (column_fits, key_fits, cc (h, aad_with_row_fits c id k column_fits key_fits))

be32-injective : (n m : ℕ) → n < 2 ^ 32 → m < 2 ^ 32 → be32 n ≡ be32 m → n ≡ m
be32-injective n m hn hm e = sym (from_be-be32 n hn) ∙ ap from_be e ∙ from_be-be32 m hm

-- Two cells with key ids of one length have the same row-bound associated data only if they have
-- the same key id, the same column and the same row key: no seam between the fields can be moved.
pub aad_with_row-injective :
    (c d : CellContext) (i j : KeyId) (k l : RowKey) {a : Bytes}
    → length i ≡ length j
    → aad_with_row c i k ≡ ok a
    → aad_with_row d j l ≡ ok a
    → (i ≡ j) × (c ≡ d) × (k ≡ l)
aad_with_row-injective c d i j k l len hc hd =
    let (cf, kf, ca) = aad_with_row-eq-ok c i k hc in
    let (df, lf, da) = aad_with_row-eq-ok d j l hd in
    let (ids, rest) = append-injective i j len (sym ca ∙ da) in
    let (column_lens, columns) =
      append-injective (be32 (length c.name)) (be32 (length d.name)) refl rest in
    let (names, rest') =
      append-injective c.name d.name (be32-injective _ _ cf df column_lens) columns in
    let (key_lens, keys) =
      append-injective (be32 (length k.canonical)) (be32 (length l.canonical)) refl rest' in
    (ids, ap (λ n. record { name = n }) names, ap (λ n. record { canonical = n }) keys)

pub aad-injective :
    (c d : CellContext) (i j : KeyId) → length i ≡ length j → aad c i ≡ aad d j → (i ≡ j) × (c ≡ d)
unfolding aad
aad-injective c d i j len h =
    let (ids, names) = append-injective i j len h in (ids, ap (λ n. record { name = n }) names)

no_zero_head :
    (n : ℕ) (name rest : Bytes) → n < 2 ^ 24 → All (λ (b : ℕ). b ≢ 0) name → name ≢ be32 n ++ rest
no_zero_head n [] rest fits h e = cc
no_zero_head n (b ∷ name) rest fits h e = ground (arith, h.0)

-- A cell-bound and a row-bound value never share their associated data, where the cell-bound
-- column's name holds no NUL byte, as no PostgreSQL identifier does, and the row-bound column's
-- name is shorter than 2^24 bytes.
pub aad-ne-aad_with_row :
    (c d : CellContext) (i j : KeyId) (k : RowKey) {a : Bytes}
    → length i ≡ length j
    → All (λ (b : ℕ). b ≢ 0) c.name
    → length d.name < 2 ^ 24
    → aad_with_row d j k ≡ ok a
    → aad c i ≢ a
unfolding aad
aad-ne-aad_with_row c d i j k len no_nul short hd e =
    let (_, _, da) = aad_with_row-eq-ok d j k hd in
    no_zero_head (length d.name) c.name _ short no_nul (append-injective i j len (e ∙ da)).1

-- ===== src/Core/Keys/Loaded.antt =====
-- `FileKeySource::load` of crates/core/src/keys.rs: what a source that is loaded serves.
use dbsec.Prelude.{
  ℕ, ◌≡◌, refl, ap, ap₂, true, Option, none, some, List, [], ◌∷◌, ◌==◌, ==_iff, length, ok,
  >>=-eq-ok, ok-injective, ok_or, Bytes, bytes_eq, All, arith, inl, inr, subst, sym, ◌∙◌,
  Bool-cases, Option-cases,
}
use dbsec.NameMap.{get, insert, contains_key, All-insert, All-get}
use dbsec.Core.{key_file_read, key_file_parse}
use dbsec.Core.Ciphers.Cached.{Agrees}
use dbsec.Core.Envelope.{KeyId}
use dbsec.Core.Keys.{
  FileKeySource, Formats, decode, decode_key, read_keys, read_index_keys, with_active, load,
  active_key, key, as_key_source,
}

-- The key that the source has for an id.
abbrev pub key_of : FileKeySource → KeyId → Bytes
key_of source id = elim (get id source.keys) [ none ↦ [] | some k ↦ k ]

-- An id and a key of their widths.
abbrev Wide : KeyId × Bytes → Type 0
Wide e = (length e.0 ≡ 16) × (length e.1 ≡ 32)

get-contains_key :
    (name : Bytes) (m : List (Bytes × Bytes))
    → contains_key name m ≡ true
    → (v : Bytes) × (get name m ≡ some v)
unfolding get contains_key
get-contains_key name [] h = ground (arith, h)
get-contains_key name ((k, v) ∷ m) h = elim (Bool-cases (bytes_eq k name)) [
  | inl e ↦ (v, rw (get, e) refl)
  | inr e ↦ let (w, f) = get-contains_key name m (rw (contains_key, e) at h) in (w, rw (get, e) f)
]

module _ (formats : Formats) where
  length-decode :
      (n : ℕ) (text : Bytes) {raw : Bytes} → decode formats n text ≡ ok raw → length raw ≡ n
  unfolding decode
  length-decode n text h = elim (Option-cases (formats.hex_decode text)) [
    | inl e ↦ absurd (ground (arith, h, e))
    | inr (r, e) ↦ elim (Bool-cases (length r == n)) [
      | inr f ↦ absurd (ground (arith, h, e, f))
      | inl f ↦
          subst (λ x. length x ≡ n) (ok-injective (rw (decode, e, f) at h))
            ((==_iff (length r) n).0 f)
    ]
  ]

  read_keys-Wide :
      (entries : List (Bytes × Bytes)) (keys : List (KeyId × Bytes)) {out : List (KeyId × Bytes)}
      → All Wide keys
      → read_keys formats entries keys ≡ ok out
      → All Wide out
  unfolding read_keys decode_key
  read_keys-Wide [] keys w h = subst (All Wide) (ok-injective h) w
  read_keys-Wide ((id_hex, key_hex) ∷ entries) keys w h =
      let (id, e, h') = >>=-eq-ok (decode formats 16 id_hex) _ h in
      let (k, f, h'') = >>=-eq-ok (decode formats 32 key_hex) _ h' in
      read_keys-Wide entries (insert id k keys)
        (All-insert Wide id k keys (length-decode 16 id_hex e, length-decode 32 key_hex f) w) h''

  with_active-eq-ok :
      (active : Bytes) (keys index_keys : List (Bytes × Bytes)) {source : FileKeySource}
      → with_active formats active keys index_keys ≡ ok source
      → (contains_key active keys ≡ true) × (source.active ≡ active) × (source.keys ≡ keys)
  unfolding with_active
  with_active-eq-ok active keys index_keys h = elim (Bool-cases (contains_key active keys)) [
    | inr e ↦ absurd (ground (arith, h, e))
    | inl e ↦
        let same = ok-injective (rw (with_active, e) at h) in
        (e, sym (ap (λ s. s.active) same), sym (ap (λ s. s.keys) same))
  ]

  abbrev IsLoaded : FileKeySource → Type 0
  IsLoaded source =
      (contains_key source.active source.keys ≡ true)
      × (length source.active ≡ 16)
      × All Wide source.keys

  load-IsLoaded :
      (contents : Option Bytes) {source : FileKeySource}
      → load formats contents ≡ ok source
      → IsLoaded source
  unfolding load
  load-IsLoaded contents h =
      let (raw, e, h1) = >>=-eq-ok (ok_or key_file_read contents) _ h in
      let (parsed, f, h2) = >>=-eq-ok (ok_or key_file_parse (formats.from_str raw)) _ h1 in
      let (keys, g, h3) = >>=-eq-ok (read_keys formats parsed.keys []) _ h2 in
      let (index_keys, i, h4) = >>=-eq-ok (read_index_keys formats parsed.index_keys []) _ h3 in
      let (active, a, h5) = >>=-eq-ok (decode formats 16 parsed.active) _ h4 in
      let (c, at, ks) = with_active-eq-ok active keys index_keys h5 in
      (
        ap₂ (λ x (m : List (KeyId × Bytes)). contains_key x m) at ks ∙ c,
        ap length at ∙ length-decode 16 parsed.active a,
        subst (All Wide) (sym ks) (read_keys-Wide parsed.keys [] tt g),
      )

  as_key_source-Agrees :
      (source : FileKeySource)
      → All Wide source.keys
      → length source.active ≡ 16
      → Agrees (key_of source) (as_key_source formats source)
  unfolding as_key_source active_key key
  as_key_source-Agrees source w l = record {
    active_key = λ id k h. elim (Option-cases (get source.active source.keys)) [
      | inl e ↦ absurd (ground (arith, h, e))
      | inr (k', e) ↦
          let same = ok-injective (rw (as_key_source, active_key, e) at h) in
          subst (λ i. (k ≡ key_of source i) × (length i ≡ 16)) (ap (λ p. p.0) same)
            (rw (key_of, e) (sym (ap (λ p. p.1) same)), l)
    ];
    key = λ id k h. elim (Option-cases (get id source.keys)) [
      | inl e ↦ absurd (ground (arith, h, e))
      | inr (k', e) ↦ rw (key_of, e) (sym (ok-injective (rw (as_key_source, key, e) at h)))
    ];
  }

  -- A source that was loaded, from whatever text, has its active key: asking for it does not panic
  -- and gives the key that its id names, with an id of 16 bytes and a key of 32. What it answers
  -- never contradicts itself, which is what the cache of ciphers relies on.
  pub load-Serves :
      (contents : Option Bytes) {source : FileKeySource}
      → load formats contents ≡ ok source
      → ((k : Bytes) × (active_key formats source ≡ some (ok (source.active, k)))
          × (key formats source source.active ≡ ok k)
          × (length source.active ≡ 16)
          × (length k ≡ 32))
        × Agrees (key_of source) (as_key_source formats source)
  unfolding active_key key
  load-Serves contents {source} h =
      let loaded = load-IsLoaded contents h in
      let (k, e) = get-contains_key source.active source.keys loaded.0 in
      (
        (
          k,
          rw (active_key, e) refl,
          rw (key, e) refl,
          loaded.1,
          (All-get Wide source.active source.keys loaded.2 e).1,
        ),
        as_key_source-Agrees source loaded.2 loaded.1,
      )

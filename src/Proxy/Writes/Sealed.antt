-- ===== src/Proxy/Writes/Sealed.antt =====
-- The Bind of crates/proxy/src/encrypt/frame.rs: what the server receives for a protected parameter.
use mathlib.Core.List.{Memᴰ}
use dbsec.Prelude.{
  ℕ, ◌≡◌, ◌≢◌, refl, sym, ◌∙◌, ap, Bool, Option, none, some, List, [], ◌∷◌, get_elem?, ok,
  >>=-eq-ok, ok-injective, Bytes, subst, Option-cases, Result-cases, inl, inr,
}
use dbsec.Core.Envelope.{RowKey}
use dbsec.Pgwire.Messages.{BindMessage, param_format}
use dbsec.Proxy.Params.{TransformId, RowKeySource, ParamAction, seal_param, ParamTransforms}
use dbsec.Proxy.Rows.Decrypt.{Values, value_at}
use dbsec.Proxy.Rows.Replaced.{
  value_or, get_elem?-set_value, value_at-set_value, value_at-get_elem?,
}
use dbsec.Proxy.Writes.{
  Rewriting, encode_param, is_binary, put_value, bind_row_key, sealed_param, param_value,
  bind_param, bind_params,
}

-- No parameter has two actions, as `record` sees to.
abbrev pub Fresh : ℕ → ParamTransforms → Type 0
Fresh index [] = Unit
Fresh index ((other, action) ∷ rest) = (other ≢ index) × Fresh index rest

abbrev pub DistinctParams : ParamTransforms → Type 0
DistinctParams [] = Unit
DistinctParams ((index, action) ∷ rest) = Fresh index rest × DistinctParams rest

module _ {Q S : Type 0} (rw' : Rewriting Q S) (m : BindMessage) where
  -- What a parameter may be sent as: as it came if it is missing or NULL; else what its action makes
  -- of it, in some state of the transforms.
  abbrev pub ParamCell : ℕ → ParamAction → Option Bytes → Option Bytes → Type 0
  ParamCell index action none sent = sent ≡ none
  ParamCell index action (some value) sent =
      (s : S) × (o : Option Bytes) × ((param_value rw' action m (is_binary (param_format m index))
          value s).0
        ≡ ok o)
      × (sent ≡ some (value_or value o))

  value_at-put_value :
      (values : Values) (index : ℕ) (o : Option Bytes) {value : Bytes}
      → value_at values index ≡ some value
      → value_at (put_value values index o) index ≡ some (value_or value o)
  unfolding put_value
  value_at-put_value values index none h = h
  value_at-put_value values index (some x) h = value_at-set_value values index (some x) h

  get_elem?-put_value :
      (values : Values) (index : ℕ) (o : Option Bytes) (i : ℕ)
      → i ≢ index
      → get_elem? (put_value values index o) i ≡ get_elem? values i
  unfolding put_value
  get_elem?-put_value values index none i h = refl
  get_elem?-put_value values index (some x) i h = get_elem?-set_value values index (some x) i h

  bind_param-eq-ok :
      (index : ℕ) (action : ParamAction) (values : Values) (un : List Bytes) (s : S)
      {values' : Values} {un' : List Bytes}
      → (bind_param rw' (index, action) m (values, un) s).0 ≡ ok (values', un')
      → ParamCell index action (value_at values index) (value_at values' index)
        × ((i : ℕ) → i ≢ index → get_elem? values' i ≡ get_elem? values i)
  unfolding bind_param
  bind_param-eq-ok index action values un s {values'} {un'} h =
      elim (Option-cases (value_at values index)) [
        | inl e ↦
            let same : values ≡ values' = ap (λ p. p.0) (ok-injective (rw (bind_param, e) at h)) in
            (rw e (rw (← same) e), λ i n. rw same refl)
        | inr (v, e) ↦
            let (o, r, h') =
              >>=-eq-ok (param_value rw' action m (is_binary (param_format m index)) v s).0 _
                (rw (bind_param, e) at h) in
            let same : put_value values index o ≡ values' = ap (λ p. p.0) (ok-injective h') in
            (
              rw e (s, o, r, rw (← same) (value_at-put_value values index o e)),
              λ i n. rw (← same) (get_elem?-put_value values index o i n),
            )
      ]

  Fresh-ne :
      (index : ℕ) (entries : ParamTransforms) {i : ℕ} {a : ParamAction}
      → Fresh index entries
      → Memᴰ (i, a) entries
      → i ≢ index
  Fresh-ne index [] f mem = elim mem [ ]
  Fresh-ne index ((other, b) ∷ rest) {i} f (Memᴰ.head e) = λ eq. f.0 (sym (ap (λ p. p.0) e) ∙ eq)
  Fresh-ne index ((other, b) ∷ rest) f (Memᴰ.tail mem) = Fresh-ne index rest f.1 mem

  -- parameters with no action of their own keep their value
  bind_params-others :
      (entries : ParamTransforms) (state : Values × List Bytes) (s : S) (index : ℕ)
      {values' : Values} {un' : List Bytes}
      → Fresh index entries
      → (bind_params rw' entries m state s).0 ≡ ok (values', un')
      → get_elem? values' index ≡ get_elem? state.0 index
  unfolding bind_params
  bind_params-others [] state s index f h = rw (ap (λ p. p.0) (ok-injective h)) refl
  bind_params-others ((other, a) ∷ rest) (values, un) s index f h =
      elim (Result-cases (bind_param rw' (other, a) m (values, un) s).0) [
        | inl ((mid, un''), e) ↦
            let (cell, others) = bind_param-eq-ok other a values un s e in
            bind_params-others rest (mid, un'') _ index f.1 (rw (bind_params, e) at h)
            ∙ others index (λ eq. f.0 (sym eq))
        | inr (r, e) ↦ let refused' = rw (bind_params, e) at h in absurd (cc)
      ]

  pub bind_params-ParamCell :
      (entries : ParamTransforms) (state : Values × List Bytes) (s : S) (index : ℕ)
      (action : ParamAction) {values' : Values} {un' : List Bytes}
      → DistinctParams entries
      → Memᴰ (index, action) entries
      → (bind_params rw' entries m state s).0 ≡ ok (values', un')
      → ParamCell index action (value_at state.0 index) (value_at values' index)
  unfolding bind_params
  bind_params-ParamCell [] state s index action d mem h = elim mem [ ]
  bind_params-ParamCell ((other, a) ∷ rest) (values, un) s index action {values'} d mem h =
      elim (Result-cases (bind_param rw' (other, a) m (values, un) s).0) [
        | inr (r, e) ↦ let refused' = rw (bind_params, e) at h in absurd (cc)
        | inl ((mid, un''), e) ↦
            let h' = rw (bind_params, e) at h in
            let (cell, others) = bind_param-eq-ok other a values un s e in
            elim mem [
              | Memᴰ.head same ↦
                  let last = bind_params-others rest (mid, un'') _ other d.0 h' in
                  subst
                    (λ (p : ℕ × ParamAction).
                      ParamCell p.0 p.1 (value_at values p.0) (value_at values' p.0))
                    (sym same)
                    (subst (ParamCell other a (value_at values other))
                      (value_at-get_elem? mid values' other (sym last)) cell)
              | Memᴰ.tail mem' ↦
                  let first = others index (Fresh-ne other rest d.0 mem') in
                  subst (λ v. ParamCell index action v (value_at values' index))
                    (value_at-get_elem? mid values index first)
                    (bind_params-ParamCell rest (mid, un'') _ index action d.1 mem' h')
            ]
      ]

  -- what sealing a parameter gave
  pub param_value-sealed :
      (id : TransformId) (row : RowKeySource) (binary : Bool) (value : Bytes) (s : S)
      {o : Option Bytes}
      → (param_value rw' (seal_param id row) m binary value s).0 ≡ ok o
      → (key : Option RowKey) × (sealed : Bytes) × (bind_row_key rw' row m ≡ ok key)
        × (((rw'.transform_at id).seal value key s).0 ≡ ok sealed)
        × (o ≡ some (encode_param rw'.hex sealed (rw'.transform_at id).wire binary))
  unfolding param_value sealed_param
  param_value-sealed id row binary value s h = elim (Result-cases (bind_row_key rw' row m)) [
    | inr (r, e) ↦ let refused' = rw (param_value, e) at h in absurd (cc)
    | inl (key, e) ↦ elim (Result-cases ((rw'.transform_at id).seal value key s).0) [
      | inr (r, e') ↦ let refused' = rw (param_value, e, sealed_param, e') at h in absurd (cc)
      | inl (sealed, e') ↦
          (key, sealed, e, e', sym (ok-injective (rw (param_value, e, sealed_param, e') at h)))
    ]
  ]

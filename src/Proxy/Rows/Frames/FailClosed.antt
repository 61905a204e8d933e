-- ===== src/Proxy/Rows/Frames/FailClosed.antt =====
-- `RowDecryptor::on_frame` of crates/proxy/src/rows.rs: what is let through to the client.
use dbsec.Prelude.{
  ℕ, ◌≡◌, refl, true, not, ◌&&◌, Option, none, some, List, [], ◌∷◌, ◌==◌, get_elem?, map, Result,
  ok, err, ok-injective, Bytes, inl, inr, Bool-cases, Result-cases,
}
use dbsec.Pgwire.Rows.{RowField, parse_row_description}
use dbsec.Proxy.{Error, FrameAction, relay, replace_body, reply, refuse_and_close, reject}
use dbsec.Proxy.Rows.{covers, new_described}
use dbsec.Proxy.Rows.Frames.{
  Texts, RowDecryptor, is_refusal, field_of, named_like_protected, is_uncovered, first_computed,
  first_suspect, check_suspect, check_computed, check_for_stale_mapping, described_next,
  row_description, inspect, action_of, on_frame,
}
use dbsec.Proxy.Rows.KeyRef.{filter_enumerate-nil}
use dbsec.Proxy.Rows.Replaced.{value_or}

-- What the client receives in a frame's place, if the frame is let through.
abbrev pub received : Bytes → FrameAction → Option Bytes
received body relay = some body
received body (replace_body sent) = some sent
received body (reply frames) = none
received body (refuse_and_close frames) = none

pub received-action_of :
    (texts : Texts) (r : Result Error (Option Bytes)) (body sent : Bytes) {action : FrameAction}
    → action_of texts r ≡ ok action
    → received body action ≡ some sent
    → (o : Option Bytes) × (r ≡ ok o) × (sent ≡ value_or body o)
unfolding action_of
received-action_of texts (ok none) body sent h e =
    let e' = rw (← ok-injective h) at e in (none, refl, cc)
received-action_of texts (ok (some x)) body sent h e =
    let e' = rw (← ok-injective h) at e in (some x, refl, cc)
received-action_of texts (err f) body sent h e = elim (Bool-cases (is_refusal f)) [
  | inl b ↦ let e' = rw (← ok-injective (rw (action_of, b) at h)) at e in absurd (cc)
  | inr b ↦ let failed = rw (action_of, b) at h in absurd (cc)
]

module _ {S : Type 0} where
  check_suspect-reject :
      (suspects : List (ℕ × RowField)) (d : RowDecryptor S)
      → d.ctx.on_unprotected ≡ reject
      → (check_suspect suspects d).0 ≡ ok tt
      → suspects ≡ []
  unfolding check_suspect
  check_suspect-reject [] d w h = refl
  check_suspect-reject ((i, f) ∷ rest) d w h =
      let refused = rw (check_suspect, w) at h in absurd (cc)

  check_computed-reject :
      (computed suspects : List (ℕ × RowField)) (d : RowDecryptor S)
      → d.ctx.on_unprotected ≡ reject
      → (check_computed computed suspects d).0 ≡ ok tt
      → (computed ≡ []) × (suspects ≡ [])
  unfolding check_computed
  check_computed-reject [] suspects d w h = (refl, check_suspect-reject suspects d w h)
  check_computed-reject ((i, f) ∷ rest) suspects d w h =
      let refused = rw (check_computed, w) at h in absurd (cc)

  row_description-eq-ok :
      (texts : Texts) (body : Bytes) (fields : List RowField) (d : RowDecryptor S)
      {o : Option Bytes}
      → parse_row_description body ≡ ok fields
      → (row_description texts body d).0 ≡ ok o
      → (check_for_stale_mapping texts fields d.ctx.resolved
          (new_described d.ctx.resolved (map field_of fields))
          d).0
        ≡ ok tt
  unfolding row_description described_next
  row_description-eq-ok texts body fields d parsed h =
      elim (Result-cases
        (check_for_stale_mapping texts fields d.ctx.resolved
          (new_described d.ctx.resolved (map field_of fields)) d).0) [
            | inl (checked, e) ↦ rw e refl
            | inr (f, e) ↦
                let refused = rw (row_description, parsed, described_next, e) at h in absurd (cc)
          ]

  -- Where unprotected access is rejected, a RowDescription that reaches the client names no
  -- protected column that it does not cover: a field with a protected name, with or without a
  -- table, is at a position that the map covers.
  pub on_frame-RowDescription :
      (texts : Texts) (body sent : Bytes) (fields : List RowField) (f : RowField) (j : ℕ)
      (d : RowDecryptor S) {action : FrameAction}
      → d.ctx.on_unprotected ≡ reject
      → (on_frame texts b'T' body d).0 ≡ ok action
      → received body action ≡ some sent
      → parse_row_description body ≡ ok fields
      → get_elem? fields j ≡ some f
      → named_like_protected texts d.ctx.resolved f ≡ true
      → covers j (new_described d.ctx.resolved (map field_of fields)).columns ≡ true
  unfolding on_frame inspect check_for_stale_mapping first_computed first_suspect is_uncovered
  on_frame-RowDescription texts body sent fields f j d w h e parsed at named =
      let (o, r, is_sent) = received-action_of texts (inspect texts b'T' body d).0 body sent h e in
      let columns = (new_described d.ctx.resolved (map field_of fields)).columns in
      let (none', none'') =
        check_computed-reject (first_computed texts d.ctx.resolved columns fields)
          (first_suspect texts d.ctx.resolved columns fields) d w
          (row_description-eq-ok texts body fields d parsed r) in
      elim (Bool-cases (covers j columns)) [
        | inl c ↦ c
        | inr c ↦ elim (Bool-cases (f.table_oid == 0)) [
          | inl z ↦
              let missed =
                filter_enumerate-nil
                  (λ (x : ℕ × RowField).
                    x.1.table_oid == 0 && is_uncovered texts d.ctx.resolved columns x)
                  fields j none' at in
              let refuted = rw (z, is_uncovered, c, named) at missed in absurd (cc)
          | inr z ↦
              let missed =
                filter_enumerate-nil
                  (λ (x : ℕ × RowField).
                    not (x.1.table_oid == 0) && is_uncovered texts d.ctx.resolved columns x)
                  fields j none'' at in
              let refuted = rw (z, is_uncovered, c, named) at missed in absurd (cc)
        ]
      ]

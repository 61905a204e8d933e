-- ===== src/Proxy/Writes/Frames/Binds.antt =====
-- A Bind frame of crates/proxy/src/encrypt/frame.rs, from the client to the server.
use mathlib.Core.List.{Memᴰ}
use dbsec.Prelude.{
  ℕ, ◌≡◌, refl, ap, ◌∙◌, false, Option, some, List, [], ◌∷◌, Result, ok, err, ok-injective, Bytes,
  Result-cases, inl, inr,
}
use dbsec.NameMap.{get}
use dbsec.Core.Envelope.{RowKey}
use dbsec.Pgwire.Messages.{BindMessage, parse_bind, param_format, result_format_codes}
use dbsec.Pgwire.Messages.Encode.{encode_bind}
use dbsec.Proxy.{FrameAction}
use dbsec.Proxy.Params.{TransformId, RowKeySource, seal_param, ParamTransforms}
use dbsec.Proxy.Portals
use dbsec.Proxy.Portals.{Statement}
use dbsec.Proxy.Portals.Bound.{bind-params}
use dbsec.Proxy.Rows.Decrypt.{Values, value_at}
use dbsec.Proxy.Rows.Frames.FailClosed.{received}
use dbsec.Proxy.Writes.{
  Rejection, fatal, refused, Rewriting, QueryRewriter, encode_param, is_binary, bind_row_key,
  bind_params,
}
use dbsec.Proxy.Writes.Frames.{
  refuse_batch, rejected, check_unindexed, encoded_bind, bound, bind_actions, bind_message, bind,
  handle, on_frame,
}
use dbsec.Proxy.Writes.Sealed.{DistinctParams, bind_params-ParamCell, param_value-sealed}

-- What the server receives in a Bind: the message with these values.
abbrev pub Carries : BindMessage → Bytes → Values → Type 0
Carries m sent values =
    encode_bind m.portal m.statement m.param_formats values m.result_formats ≡ ok sent

encoded_bind-received :
    (m : BindMessage) (values : Values) (body sent : Bytes) {action : FrameAction}
    → encoded_bind m values ≡ ok action
    → received body action ≡ some sent
    → Carries m sent values
unfolding encoded_bind
encoded_bind-received m values body sent h s =
    elim (Result-cases (encode_bind m.portal m.statement m.param_formats values m.result_formats)) [
      | inl (out, e) ↦
          let s' = rw (← ok-injective (rw (encoded_bind, e) at h)) at s in e ∙ ap ok (cc)
      | inr (f, e) ↦ let failed = rw (encoded_bind, e) at h in absurd (cc)
    ]

module _ {Q S P : Type 0} (rw' : Rewriting Q S) where
  -- nothing is sent on for a rejected Bind
  rejected-received :
      (r : Rejection) (q : QueryRewriter Q S P) (body sent : Bytes) {action : FrameAction}
      → (rejected r q).0 ≡ ok action
      → received body action ≡ some sent
      → ⊥
  unfolding rejected refuse_batch
  rejected-received (fatal e) q body sent h s = cc
  rejected-received (refused message) q body sent h s = let s' = rw (← ok-injective h) at s in cc

  bound-received :
      (m : BindMessage) (r : Result Rejection (Values × List Bytes)) (q : QueryRewriter Q S P)
      (body sent : Bytes) {action : FrameAction}
      → (bound rw' m r q).0 ≡ ok action
      → received body action ≡ some sent
      → (values : Values) × (un : List Bytes) × (r ≡ ok (values, un)) × Carries m sent values
  unfolding bound check_unindexed
  bound-received m (err e) q body sent h s = absurd (rejected-received e q body sent h s)
  bound-received m (ok (values, un)) q body sent h s =
      elim (Result-cases (check_unindexed rw'.unindexed_message q.on_unprotected un)) [
        | inl (done, e) ↦
            (values, un, refl, encoded_bind-received m values body sent (rw (bound, e) at h) s)
        | inr (f, e) ↦ absurd (rejected-received f q body sent (rw (bound, e) at h) s)
      ]

  bind_actions-received :
      (m : BindMessage) (entries : ParamTransforms) (q : QueryRewriter Q S P) (body sent : Bytes)
      {action : FrameAction} {x : _}
      → Memᴰ x entries
      → (bind_actions rw' m (some entries) q).0 ≡ ok action
      → received body action ≡ some sent
      → (values : Values) × (un : List Bytes) × ((bind_params rw' entries m (m.params, []) q.keys).0
          ≡ ok (values, un))
        × Carries m sent values
  unfolding bind_actions
  bind_actions-received m [] q body sent mem h s = elim mem [ ]
  bind_actions-received m (e ∷ es) q body sent mem h s =
      bound-received m _ (record q { keys = _ }) body sent h s

  on_frame-handle :
      (t : ℕ) (body : Bytes) (q : QueryRewriter Q S P)
      → q.awaiting_sync ≡ false
      → on_frame rw' t body q ≡ handle rw' t body q
  unfolding on_frame
  on_frame-handle t body q w = rw (on_frame, w) refl

  on_frame-bind_message :
      (body : Bytes) (q : QueryRewriter Q S P) {m : BindMessage}
      → q.awaiting_sync ≡ false
      → parse_bind body ≡ ok m
      → on_frame rw' b'B' body q ≡ bind_message rw' m q
  unfolding handle bind
  on_frame-bind_message body q w parsed =
      on_frame-handle b'B' body q w ∙ unfold handle bind in rw (bind, parsed) refl

  -- A Bind that reaches the server carries, for a parameter that the statement seals, what the
  -- column's transform sealed of the client's value in some state, under the row key that the
  -- message gives, in the form of the parameter; never the value itself. The parameter is neither
  -- missing nor NULL, the statement is known and has one action for each parameter, and the session
  -- is not discarding a batch.
  pub on_frame-Bind :
      (body sent : Bytes) (q : QueryRewriter Q S P) (m : BindMessage) (st : Statement P) (index : ℕ)
      (id : TransformId) (row : RowKeySource) (value : Bytes) {action : FrameAction}
      → q.awaiting_sync ≡ false
      → parse_bind body ≡ ok m
      → get m.statement q.portals.statements ≡ some st
      → DistinctParams st.params
      → Memᴰ (index, seal_param id row) st.params
      → value_at m.params index ≡ some value
      → (on_frame rw' b'B' body q).0 ≡ ok action
      → received body action ≡ some sent
      → (values : Values) × (s : S) × (key : Option RowKey) × (sealed : Bytes) × Carries m sent
          values
        × (bind_row_key rw' row m ≡ ok key)
        × (((rw'.transform_at id).seal value key s).0 ≡ ok sealed)
        × (value_at values index
            ≡ some (
                encode_param rw'.hex sealed
                  (rw'.transform_at id).wire
                  (is_binary (param_format m index))))
  unfolding bind_message
  on_frame-Bind body sent q m st index id row value w parsed found d mem v h s =
      let h' = rw (on_frame-bind_message body q w parsed) at h in
      elim (Result-cases (result_format_codes m)) [
        | inr (f, e) ↦ let failed = rw (bind_message, e) at h' in absurd (cc)
        | inl (codes, e) ↦
            elim (Result-cases (Portals.bind m.portal m.statement (some codes) q.portals).0) [
              | inr (f, e') ↦ let failed = rw (bind_message, e, e') at h' in absurd (cc)
              | inl (params, e') ↦
                  let of_st = bind-params m.portal m.statement (some codes) q.portals st found e' in
                  let (values, un, ran, carries) =
                    bind_actions-received m st.params _ body sent mem
                      (rw (bind_message, e, e', of_st) at h') s in
                  let cell =
                    bind_params-ParamCell rw' m st.params (m.params, []) q.keys index _ d mem ran in
                  let (s', o, r, is_sent) = rw v at cell in
                  let (key, sealed, k, by, is_o) = param_value-sealed rw' m id row _ value s' r in
                  (values, s', key, sealed, carries, k, by, rw is_o at is_sent)
            ]
      ]

-- ===== src/Proxy/Writes/Frames/Answered.antt =====
-- `QueryRewriter::on_frame` of crates/proxy/src/encrypt/frame.rs: what it answers a client itself.
use dbsec.Prelude.{
  ℕ, Bool, true, false, ◌||◌, Option, none, some, List, [], ◌∷◌, ◌==◌, if◌then◌else◌, Result, ok,
  err, Bytes, arith, inl, inr, Bool-cases, Result-cases,
}
use dbsec.Pgwire.Cursor.{take_cstr}
use dbsec.Pgwire.Messages.{ParseMessage, BindMessage, parse_parse, parse_bind, result_format_codes}
use dbsec.Pgwire.Messages.Encode.{encode_bind}
use dbsec.Proxy.{Error, FrameAction, relay}
use dbsec.Proxy.Params.{ParamTransforms}
use dbsec.Proxy.Portals
use dbsec.Proxy.Portals.{
  Tracked, Target, on_statement, on_portal, expect_describe, expect_execute, expect_batch,
}
use dbsec.Proxy.Portals.Answers.{copy_data}
use dbsec.Proxy.Responses.{error_response, error_body, frame}
use dbsec.Proxy.Responses.Framed.{frame-read, length-error_body}
use dbsec.Proxy.Rows.Decrypt.{Values}
use dbsec.Proxy.Session.Framed.{Framed, no_frames, Framed-append, be32-Framed, Answers}
use dbsec.Proxy.Writes.{
  Rejection, fatal, refused, SqlOutcome, rewrite, refuse, Rewriting, QueryRewriter, ready_for_query,
  describe_target, bind_params,
}
use dbsec.Proxy.Writes.Frames.{
  query_action, parse_action, check_unindexed, Outcome, refuse_batch, rejected, discard_until_sync,
  tracked, query_outcome, parse_outcome, close_target, encoded_bind, rewritten, bound, bind_actions,
  bind_message, bind, with_target, with_cstr, parse_frame, handle, on_frame,
}

pub error_response-Framed : (message : Bytes) → Framed (error_response message)
unfolding error_response
error_response-Framed message =
    let l = length-error_body message in
    rw ((frame-read b'E' (error_body message) l).0) (be32-Framed b'E' (error_body message) l)

one_byte-Framed : (t b : ℕ) → Framed (frame t (b ∷ []))
one_byte-Framed t b =
    rw ((frame-read t (b ∷ []) (omega arith)).0) (be32-Framed t (b ∷ []) (omega arith))

ready_for_query-Framed : (status : ℕ) → Framed (ready_for_query status)
unfolding ready_for_query
ready_for_query-Framed status = one_byte-Framed b'Z' _

module _ {Q S P : Type 0} where
  -- the answer in an outcome
  Answered : Outcome Q S P → Type 0
  Answered o = Answers o.0

  tracked-Answered :
      (action : FrameAction) (p : Result Error (Unit {0}) × Tracked P) (q : QueryRewriter Q S P)
      → Answers (ok action)
      → Answered (tracked action p q)
  unfolding tracked Answered
  tracked-Answered action (err e, portals) q h = tt
  tracked-Answered action (ok done, portals) q h = h

  query_outcome-Answered : (o : SqlOutcome) (q : QueryRewriter Q S P) → Answered (query_outcome o q)
  unfolding query_outcome query_action Answered
  query_outcome-Answered (refuse message) q =
      Framed-append (error_response-Framed message) (ready_for_query-Framed q.tx_status)
  query_outcome-Answered (rewrite none params) q =
      tracked-Answered relay (expect_batch q.portals) q tt
  query_outcome-Answered (rewrite (some sql) params) q =
      tracked-Answered _ (expect_batch q.portals) q tt

  refuse_batch-Answered :
      (message : Bytes) (q : QueryRewriter Q S P) → Answered (refuse_batch message q)
  unfolding refuse_batch Answered
  refuse_batch-Answered message q = error_response-Framed message

  parse_outcome-Answered :
      (m : ParseMessage) (o : SqlOutcome) (q : QueryRewriter Q S P) → Answered (parse_outcome m o q)
  unfolding parse_outcome parse_action
  parse_outcome-Answered m (refuse message) q = refuse_batch-Answered message q
  parse_outcome-Answered m (rewrite none params) q =
      tracked-Answered relay (Portals.parse m.statement params q.portals) q tt
  parse_outcome-Answered m (rewrite (some sql) params) q =
      tracked-Answered _ (Portals.parse m.statement params q.portals) q tt

  rejected-Answered : (e : Rejection) (q : QueryRewriter Q S P) → Answered (rejected e q)
  unfolding rejected Answered
  rejected-Answered (fatal e) q = tt
  rejected-Answered (refused message) q = refuse_batch-Answered message q

encoded_bind-Answers : (m : BindMessage) (values : Values) → Answers (encoded_bind m values)
unfolding encoded_bind
encoded_bind-Answers m values =
    elim (Result-cases (encode_bind m.portal m.statement m.param_formats values m.result_formats)) [
      | inl (body, e) ↦ rw (encoded_bind, e) tt
      | inr (x, e) ↦ rw (encoded_bind, e) tt
    ]

module _ {Q S P : Type 0} (rw' : Rewriting Q S) where
  rewritten-Answered :
      (next : SqlOutcome → QueryRewriter Q S P → Outcome Q S P) (sql : Bytes)
      (q : QueryRewriter Q S P)
      → ((o : SqlOutcome) (q' : QueryRewriter Q S P) → Answered (next o q'))
      → Answered (rewritten rw' next sql q)
  unfolding rewritten Answered
  rewritten-Answered next sql q h = elim (Result-cases (rw'.rewrite_sql sql q.sql q.keys).0) [
    | inl (o, e) ↦ rw (rewritten, e) (h o _)
    | inr (x, e) ↦ rw (rewritten, e) tt
  ]

  bound-Answered :
      (m : BindMessage) (r : Result Rejection (Values × List Bytes)) (q : QueryRewriter Q S P)
      → Answered (bound rw' m r q)
  unfolding bound Answered
  bound-Answered m (err e) q = rejected-Answered e q
  bound-Answered m (ok (values, unindexed)) q =
      elim (Result-cases (check_unindexed rw'.unindexed_message q.on_unprotected unindexed)) [
        | inl (done, e) ↦ rw (bound, e) (encoded_bind-Answers m values)
        | inr (x, e) ↦ rw (bound, e) (rejected-Answered x q)
      ]

  bind_actions-Answered :
      (m : BindMessage) (params : Option ParamTransforms) (q : QueryRewriter Q S P)
      → Answered (bind_actions rw' m params q)
  unfolding bind_actions Answered
  bind_actions-Answered m none q = tt
  bind_actions-Answered m (some []) q = tt
  bind_actions-Answered m (some (entry ∷ rest)) q =
      bound-Answered m (bind_params rw' (entry ∷ rest) m (m.params, []) q.keys).0 _

  bind-Answered : (body : Bytes) (q : QueryRewriter Q S P) → Answered (bind rw' body q)
  unfolding bind bind_message Answered
  bind-Answered body q = elim (Result-cases (parse_bind body)) [
    | inr (x, e) ↦ rw (bind, e) tt
    | inl (m, e) ↦ elim (Result-cases (result_format_codes m)) [
      | inr (x, f) ↦ rw (bind, e, bind_message, f) tt
      | inl (codes, f) ↦
          elim (Result-cases (Portals.bind m.portal m.statement (some codes) q.portals).0) [
            | inr (x, g) ↦ rw (bind, e, bind_message, f, g) tt
            | inl (params, g) ↦ rw (bind, e, bind_message, f, g) (bind_actions-Answered m params _)
          ]
    ]
  ]

  with_target-Answered :
      (next : Target → Bytes → QueryRewriter Q S P → Outcome Q S P) (body : Bytes)
      (q : QueryRewriter Q S P)
      → ((target : Target) (name : Bytes) (q' : QueryRewriter Q S P)
          → Answered (next target name q'))
      → Answered (with_target rw' next body q)
  unfolding with_target Answered
  with_target-Answered next body q h = elim (Result-cases (describe_target body)) [
    | inr (x, e) ↦ rw (with_target, e) tt
    | inl ((target, name), e) ↦ rw (with_target, e) (h target name q)
  ]

  with_cstr-Answered :
      (next : Bytes → QueryRewriter Q S P → Outcome Q S P) (body : Bytes) (q : QueryRewriter Q S P)
      → ((name : Bytes) (q' : QueryRewriter Q S P) → Answered (next name q'))
      → Answered (with_cstr rw' next body q)
  unfolding with_cstr Answered
  with_cstr-Answered next body q h = elim (Result-cases (take_cstr body)) [
    | inr (x, e) ↦ rw (with_cstr, e) tt
    | inl ((name, rest), e) ↦ rw (with_cstr, e) (h name q)
  ]

  parse_frame-Answered :
      (body : Bytes) (q : QueryRewriter Q S P) → Answered (parse_frame rw' body q)
  unfolding parse_frame Answered
  parse_frame-Answered body q = elim (Result-cases (parse_parse body)) [
    | inr (x, e) ↦ rw (parse_frame, e) tt
    | inl (m, e) ↦
        rw (parse_frame, e)
          (rewritten-Answered (parse_outcome m) m.query q (parse_outcome-Answered m))
  ]

  if-Answered :
      (b : Bool) (x y : Outcome Q S P) → Answered x → Answered y → Answered (if b then x else y)
  if-Answered true x y h k = h
  if-Answered false x y h k = k

  relay-Answered : (q : QueryRewriter Q S P) → Answered (ok relay, q)
  unfolding Answered
  relay-Answered q = tt

  handle-Answered :
      (msg_type : ℕ) (body : Bytes) (q : QueryRewriter Q S P)
      → Answered (handle rw' msg_type body q)
  unfolding handle
  handle-Answered t body q =
      if-Answered (t == b'Q') _ _
        (with_cstr-Answered _ body q
          λ sql q'. rewritten-Answered query_outcome sql q' query_outcome-Answered)
        (if-Answered (t == b'P') _ _ (parse_frame-Answered body q) (
          if-Answered (t == b'B') _ _ (bind-Answered body q) (
            if-Answered (t == b'D') _ _
              (with_target-Answered _ body q λ target name q'.
                tracked-Answered relay (expect_describe target name q'.portals) q' tt)
              (if-Answered (t == b'E') _ _
                (with_cstr-Answered _ body q
                  λ name q'. tracked-Answered relay (expect_execute name q'.portals) q' tt)
                (if-Answered (t == b'S' || t == b'F') _ _
                  (tracked-Answered relay (expect_batch q.portals) q tt)
                  (if-Answered (t == b'd' || (t == b'c' || t == b'f')) _ _
                    (relay-Answered (record q { portals = copy_data t q.portals }))
                    (if-Answered (t == b'C') _ _
                      (with_target-Answered _ body q
                        λ target name q'. relay-Answered (close_target target name q'))
                      (relay-Answered q))))))))

  discard_until_sync-Answers :
      (t : ℕ) (q : QueryRewriter Q S P) → Answers (ok (discard_until_sync t q).0)
  unfolding discard_until_sync
  discard_until_sync-Answers t q = elim (Bool-cases (t == b'S')) [
    | inl f ↦ rw (discard_until_sync, f) (ready_for_query-Framed q.tx_status)
    | inr f ↦ elim (Bool-cases (t == b'X')) [
      | inl g ↦ rw (discard_until_sync, f, g) tt
      | inr g ↦ rw (discard_until_sync, f, g) no_frames
    ]
  ]

  -- Whatever the client sends, the answer of the write path itself is whole frames.
  pub on_frame-Answers :
      (msg_type : ℕ) (body : Bytes) (q : QueryRewriter Q S P)
      → Answers (on_frame rw' msg_type body q).0
  unfolding on_frame Answered
  on_frame-Answers t body q =
      if-Answered q.awaiting_sync _ _ (discard_until_sync-Answers t q) (handle-Answered t body q)

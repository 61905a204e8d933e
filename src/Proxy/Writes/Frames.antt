-- ===== src/Proxy/Writes/Frames.antt =====
-- `QueryRewriter::on_frame` of crates/proxy/src/encrypt/frame.rs: what each client frame does to the
-- session and what is sent for it.
pub mod Binds
pub mod Answered
use dbsec.Prelude.{
  ℕ, Bool, true, false, ◌||◌, Option, none, some, List, [], ◌∷◌, ◌++◌, ◌==◌, if◌then◌else◌, Result,
  ok, err, ◌>>=◌, Bytes,
}
use dbsec.Pgwire.Cursor.{take_cstr}
use dbsec.Pgwire.Messages.{ParseMessage, BindMessage, parse_parse, parse_bind, result_format_codes}
use dbsec.Pgwire.Messages.Encode.{encode_parse, encode_bind}
use dbsec.Proxy.{
  Error, pgwire, FrameAction, relay, replace_body, reply, OnUnprotected, warn, reject,
}
use dbsec.Proxy.Params.{ParamTransforms}
use dbsec.Proxy.Portals.{
  Tracked, Target, on_statement, on_portal, parse, close_statement, close_portal, expect_describe,
  expect_execute, expect_batch,
}
use dbsec.Proxy.Portals
use dbsec.Proxy.Portals.Answers.{copy_data}
use dbsec.Proxy.Responses.{error_response}
use dbsec.Proxy.Rows.Decrypt.{Values}
use dbsec.Proxy.Writes.{
  Rejection, fatal, refused, SqlOutcome, rewrite, refuse, Rewriting, QueryRewriter, ready_for_query,
  describe_target, bind_params,
}

query_action : Option Bytes → FrameAction
query_action none = relay
query_action (some sql) = replace_body (sql ++ 0 ∷ [])

parse_action : ParseMessage → Option Bytes → FrameAction
parse_action m none = relay
parse_action m (some sql) = replace_body (encode_parse m.statement sql m.param_types)

-- what the arrays that are not indexed are answered with
check_unindexed : (List Bytes → Bytes) → OnUnprotected → List Bytes → Result Rejection (Unit {0})
check_unindexed message on_unprotected [] = ok tt
check_unindexed message warn (column ∷ columns) = ok tt
check_unindexed message reject (column ∷ columns) = err (refused (message (column ∷ columns)))

abbrev pub Outcome : Type 0 → Type 0 → Type 0 → Type 0
Outcome Q S P = Result Error FrameAction × QueryRewriter Q S P

module _ {Q S P : Type 0} where
  -- the answer to a refused statement: the rest of the batch is discarded
  unfoldable pub refuse_batch :
      Bytes → QueryRewriter Q S P → Result Error FrameAction × QueryRewriter Q S P
  refuse_batch message q = (ok (reply (error_response message)), record q { awaiting_sync = true })

  unfoldable pub rejected :
      Rejection → QueryRewriter Q S P → Result Error FrameAction × QueryRewriter Q S P
  unfolding refuse_batch
  rejected (fatal e) q = (err e, q)
  rejected (refused message) q = refuse_batch message q

  unfoldable pub discard_until_sync : ℕ → QueryRewriter Q S P → FrameAction × QueryRewriter Q S P
  unfolding ready_for_query
  discard_until_sync msg_type q =
      if msg_type == b'S'
      then (reply (ready_for_query q.tx_status), record q { awaiting_sync = false })
      else if msg_type == b'X'
      then (relay, record q { awaiting_sync = false })
      else (reply [], q)

  -- a call of the portals, and the frame that is sent on if it is not refused
  unfoldable pub tracked :
      FrameAction
      → Result Error (Unit {0}) × Tracked P
      → QueryRewriter Q S P
      → Result Error FrameAction × QueryRewriter Q S P
  tracked action (r, portals) q = (do done ← r; ok action, record q { portals = portals })

  unfoldable pub query_outcome :
      SqlOutcome → QueryRewriter Q S P → Result Error FrameAction × QueryRewriter Q S P
  unfolding ready_for_query tracked query_action
  query_outcome (refuse message) q =
      (ok (reply (error_response message ++ ready_for_query q.tx_status)), q)
  query_outcome (rewrite sql params) q = tracked (query_action sql) (expect_batch q.portals) q

  unfoldable pub parse_outcome :
      ParseMessage
      → SqlOutcome
      → QueryRewriter Q S P
      → Result Error FrameAction × QueryRewriter Q S P
  unfolding refuse_batch tracked parse_action
  parse_outcome m (refuse message) q = refuse_batch message q
  parse_outcome m (rewrite sql params) q =
      tracked (parse_action m sql) (parse m.statement params q.portals) q

  close_target : Target → Bytes → QueryRewriter Q S P → QueryRewriter Q S P
  close_target on_statement name q = record q { portals = close_statement name q.portals }
  close_target on_portal name q = record q { portals = close_portal name q.portals }

encoded_bind : BindMessage → Values → Result Error FrameAction
encoded_bind m values =
    elim (encode_bind m.portal m.statement m.param_formats values m.result_formats) [
      | ok body ↦ ok (replace_body body)
      | err e ↦ err (pgwire e)
    ]

module _ {Q S P : Type 0} (rw' : Rewriting Q S) where
  rewritten :
      (SqlOutcome → QueryRewriter Q S P → Outcome Q S P)
      → Bytes
      → QueryRewriter Q S P
      → Outcome Q S P
  rewritten next sql q =
      let (r, sql', keys) = rw'.rewrite_sql sql q.sql q.keys in
      let q' = record q { sql = sql'; keys = keys } in
      elim r [ ok outcome ↦ next outcome q' | err e ↦ (err e, q') ]

  -- what follows the loop over a statement's actions
  bound : BindMessage → Result Rejection (Values × List Bytes) → QueryRewriter Q S P → Outcome Q S P
  unfolding rejected check_unindexed encoded_bind
  bound m (err e) q = rejected e q
  bound m (ok (values, unindexed)) q =
      elim (check_unindexed rw'.unindexed_message q.on_unprotected unindexed) [
        | err e ↦ rejected e q
        | ok done ↦ (encoded_bind m values, q)
      ]

  unfoldable pub bind_actions :
      BindMessage → Option ParamTransforms → QueryRewriter Q S P → Outcome Q S P
  unfolding bound
  bind_actions m none q = (ok relay, q)
  bind_actions m (some []) q = (ok relay, q)
  bind_actions m (some (entry ∷ rest)) q =
      let (r, keys) = bind_params rw' (entry ∷ rest) m (m.params, []) q.keys in
      bound m r (record q { keys = keys })

  unfoldable pub bind_message : BindMessage → QueryRewriter Q S P → Outcome Q S P
  unfolding bind_actions
  bind_message m q = elim (result_format_codes m) [
    | err e ↦ (err (pgwire e), q)
    | ok codes ↦
        let (r, portals) = Portals.bind m.portal m.statement (some codes) q.portals in
        elim r [
          | err e ↦ (err e, record q { portals = portals })
          | ok params ↦ bind_actions m params (record q { portals = portals })
        ]
  ]

  unfoldable pub bind : Bytes → QueryRewriter Q S P → Outcome Q S P
  unfolding bind_message
  bind body q = elim (parse_bind body) [ err e ↦ (err (pgwire e), q) | ok m ↦ bind_message m q ]

  with_target :
      (Target → Bytes → QueryRewriter Q S P → Outcome Q S P)
      → Bytes
      → QueryRewriter Q S P
      → Outcome Q S P
  with_target next body q = elim (describe_target body) [
    | err e ↦ (err e, q)
    | ok (target, name) ↦ next target name q
  ]

  with_cstr :
      (Bytes → QueryRewriter Q S P → Outcome Q S P) → Bytes → QueryRewriter Q S P → Outcome Q S P
  with_cstr next body q = elim (take_cstr body) [
    | err e ↦ (err (pgwire e), q)
    | ok (name, rest) ↦ next name q
  ]

  parse_frame : Bytes → QueryRewriter Q S P → Outcome Q S P
  unfolding rewritten
  parse_frame body q = elim (parse_parse body) [
    | err e ↦ (err (pgwire e), q)
    | ok m ↦ rewritten (parse_outcome m) m.query q
  ]

  unfoldable pub handle : ℕ → Bytes → QueryRewriter Q S P → Outcome Q S P
  unfolding with_cstr rewritten query_outcome parse_frame bind with_target tracked close_target
  handle msg_type body q =
      if msg_type == b'Q'
      then with_cstr (rewritten query_outcome) body q
      else if msg_type == b'P'
      then parse_frame body q
      else if msg_type == b'B'
      then bind body q
      else if msg_type == b'D'
      then with_target (λ target name q'. tracked relay (expect_describe target name q'.portals) q')
          body q
      else if msg_type == b'E'
      then with_cstr (λ name q'. tracked relay (expect_execute name q'.portals) q') body q
      else if msg_type == b'S' || msg_type == b'F'
      then tracked relay (expect_batch q.portals) q
      else if msg_type == b'd' || (msg_type == b'c' || msg_type == b'f')
      then (ok relay, record q { portals = copy_data msg_type q.portals })
      else if msg_type == b'C'
      then with_target (λ target name q'. (ok relay, close_target target name q')) body q
      else (ok relay, q)

  unfoldable pub on_frame : ℕ → Bytes → QueryRewriter Q S P → Outcome Q S P
  unfolding discard_until_sync
  on_frame msg_type body q =
      if q.awaiting_sync
      then (let (action, q') = discard_until_sync msg_type q in (ok action, q'))
      else handle msg_type body q

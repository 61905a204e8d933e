-- ===== src/Proxy/Session/Live.antt =====
-- The closures of `run` in crates/proxy/src/session.rs: both relays work on the portals, the
-- transforms' keys and the transaction status that they share, and each has its half of the proxy
-- where one is configured. The column map stays as it was published when the session began.
use dbsec.Prelude.{
  ℕ, ◌≡◌, Bool, true, ◌&&◌, ◌||◌, Option, none, some, [], ◌∷◌, ◌==◌, if◌then◌else◌, Result, ok, err,
  Bytes, starts_with, inl, inr, Bool-cases, Option-cases,
}
use dbsec.Proxy.{Error, FrameAction, relay}
use dbsec.Proxy.Portals.{Tracked}
use dbsec.Proxy.Portals.Answers.{copy_in_started}
use dbsec.Proxy.Rows.{Described}
use dbsec.Proxy.Rows.Frames as RowFrames
use dbsec.Proxy.Rows.Frames.{RowDecryptor, is_refusal, inspect, action_of}
use dbsec.Proxy.Session.{until_authenticated}
use dbsec.Proxy.Session.Sides.{Session, Sides, Reach}
use dbsec.Proxy.Session.Framed.{no_frames, Framed, Answers, AnswersFrames, Reach-FramedBoth}
use dbsec.Proxy.Writes.{Rewriting, QueryRewriter}
use dbsec.Proxy.Writes.Frames as WriteFrames
use dbsec.Proxy.Writes.Frames.Answered.{error_response-Framed, on_frame-Answers}

pub record Shared (Q S : Type 0) : Type 0 where
  pub portals : Tracked (Described S)
  pub keys : S
  pub tx_status : ℕ
  pub authenticated : Bool
  pub rewriter : Option (QueryRewriter Q S (Described S))
  pub decryptor : Option (RowDecryptor S)

-- AuthenticationOk is the R message whose code is 0.
unfoldable pub note_authentication : ℕ → Bytes → Bool → Bool
note_authentication msg_type body authenticated =
    if msg_type == b'R' && starts_with body (0 ∷ 0 ∷ 0 ∷ 0 ∷ []) then true else authenticated

note_status : Bytes → ℕ → ℕ
note_status [] status = status
note_status (b ∷ body) status = b

module _ {Q S : Type 0} where
  unfoldable pub note_backend_state : ℕ → Bytes → Shared Q S → Shared Q S
  unfolding note_status
  note_backend_state msg_type body s =
      if msg_type == b'Z'
      then record s { tx_status = note_status body s.tx_status }
      else if msg_type == b'G' || msg_type == b'W'
      then record s { portals = copy_in_started s.portals }
      else s

  unfoldable pub note : ℕ → Bytes → Shared Q S → Shared Q S
  unfolding note_authentication note_backend_state
  note msg_type body s =
      note_backend_state msg_type body
        (record s { authenticated = note_authentication msg_type body s.authenticated })

  after_rewriter :
      WriteFrames.Outcome Q S (Described S) → Shared Q S → Result Error FrameAction × Shared Q S
  after_rewriter (r, q) s = (r, record s { portals = q.portals; keys = q.keys; rewriter = some q })

  after_decryptor :
      Result Error FrameAction × RowDecryptor S → Shared Q S → Result Error FrameAction × Shared Q S
  after_decryptor (r, d) s =
      (r, record s { portals = d.portals; keys = d.keys; decryptor = some d })

  unfoldable pub from_client :
      Rewriting Q S → ℕ → Bytes → Shared Q S → Result Error FrameAction × Shared Q S
  unfolding after_rewriter
  from_client rw' msg_type body s = elim s.rewriter [
    | none ↦ (ok relay, s)
    | some q ↦
        after_rewriter
          (WriteFrames.on_frame rw' msg_type body
            (record q { portals = s.portals; keys = s.keys; tx_status = s.tx_status }))
          s
  ]

  unfoldable pub decrypt_frame :
      RowFrames.Texts → ℕ → Bytes → Shared Q S → Result Error FrameAction × Shared Q S
  unfolding after_decryptor
  decrypt_frame texts msg_type body s = elim s.decryptor [
    | none ↦ (ok relay, s)
    | some d ↦
        after_decryptor
          (RowFrames.on_frame texts msg_type body (record d { portals = s.portals; keys = s.keys }))
          s
  ]

  unfoldable pub from_upstream :
      RowFrames.Texts → ℕ → Bytes → Shared Q S → Result Error FrameAction × Shared Q S
  unfolding note decrypt_frame
  from_upstream texts msg_type body s = decrypt_frame texts msg_type body (note msg_type body s)

  abbrev pub sides : Rewriting Q S → RowFrames.Texts → Sides (Shared Q S)
  sides rw' texts = record {
    from_client = from_client rw';
    from_upstream = from_upstream texts;
    client_limit = λ s. until_authenticated s.authenticated;
  }

action_of-Answers :
    (texts : RowFrames.Texts) (r : Result Error (Option Bytes)) → Answers (action_of texts r)
unfolding action_of
action_of-Answers texts (ok none) = tt
action_of-Answers texts (ok (some body)) = tt
action_of-Answers texts (err e) = elim (Bool-cases (is_refusal e)) [
  | inl f ↦ rw (action_of, f) (error_response-Framed (texts.message e))
  | inr f ↦ rw (action_of, f) tt
]

module _ {Q S : Type 0} (rw' : Rewriting Q S) (texts : RowFrames.Texts) where
  from_client-Answers :
      (t : ℕ) (body : Bytes) (s : Shared Q S) → Answers (from_client rw' t body s).0
  unfolding from_client after_rewriter
  from_client-Answers t body s = elim (Option-cases s.rewriter) [
    | inl e ↦ rw (from_client, e) tt
    | inr (q, e) ↦
        rw (from_client, e)
          (on_frame-Answers rw' t body
            (record q { portals = s.portals; keys = s.keys; tx_status = s.tx_status }))
  ]

  decrypt_frame-Answers :
      (t : ℕ) (body : Bytes) (s : Shared Q S) → Answers (decrypt_frame texts t body s).0
  unfolding decrypt_frame after_decryptor RowFrames.on_frame
  decrypt_frame-Answers t body s = elim (Option-cases s.decryptor) [
    | inl e ↦ rw (decrypt_frame, e) tt
    | inr (d, e) ↦
        rw (decrypt_frame, e)
          (action_of-Answers texts
            (inspect texts t body (record d { portals = s.portals; keys = s.keys })).0)
  ]

  sides-AnswersFrames : AnswersFrames (sides rw' texts)
  unfolding from_upstream
  sides-AnswersFrames = record {
    client = from_client-Answers;
    upstream = λ t body s. decrypt_frame-Answers t body (note t body s);
  }

  -- However the rounds of the two relays interleave, and whatever the client and the server send,
  -- what a session has written to each of them by any moment is whole frames, in which the answers
  -- that the proxy makes itself stand between the frames that it passes on and never inside one.
  -- The session starts with nothing written.
  pub session-Framed :
      (start : Session (Shared Q S)) {s : Session (Shared Q S)}
      → start.to_client.written ≡ []
      → start.to_upstream.written ≡ []
      → Reach (sides rw' texts) start s
      → Framed s.to_client.written × Framed s.to_upstream.written
  session-Framed start c u r =
      Reach-FramedBoth (sides rw' texts) sides-AnswersFrames r (rw c no_frames, rw u no_frames)

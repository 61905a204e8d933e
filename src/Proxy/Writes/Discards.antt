-- ===== src/Proxy/Writes/Discards.antt =====
-- `discard_until_sync` of crates/proxy/src/encrypt/frame.rs: the rest of a batch whose statement was
-- refused.
use dbsec.Prelude.{
  ℕ, ◌≡◌, ◌≢◌, refl, true, false, List, [], ◌∷◌, ◌++◌, ◌==◌, length, replicate, Result, ok, Bytes,
  All, arith,
}
use dbsec.Proxy.{Error, FrameAction, reply}
use dbsec.Proxy.Writes.{Rewriting, QueryRewriter, ready_for_query}
use dbsec.Proxy.Writes.Frames.{on_frame, discard_until_sync}

-- A frame that neither ends the batch nor the session.
abbrev pub InBatch : ℕ × Bytes → Type 0
InBatch (msg_type, body) = (msg_type ≢ b'S') × (msg_type ≢ b'X')

not_eq : (m n : ℕ) → m ≢ n → (m == n) ≡ false
not_eq m n h = ground arith

module _ {Q S P : Type 0} (rw' : Rewriting Q S) where
  -- A client's frames in order, with what each is answered by.
  unfoldable pub run :
      List (ℕ × Bytes) → QueryRewriter Q S P → List (Result Error FrameAction) × QueryRewriter Q S P
  run [] q = ([], q)
  run ((msg_type, body) ∷ fs) q =
      let (r, q') = on_frame rw' msg_type body q in let (rs, q'') = run fs q' in (r ∷ rs, q'')

  on_frame-InBatch :
      (t : ℕ) (body : Bytes) (q : QueryRewriter Q S P)
      → q.awaiting_sync ≡ true
      → InBatch (t, body)
      → on_frame rw' t body q ≡ (ok (reply []), q)
  unfolding on_frame discard_until_sync
  on_frame-InBatch t body q h a = rw (on_frame, h, not_eq t b'S' a.0, not_eq t b'X' a.1) refl

  on_frame-Sync :
      (body : Bytes) (q : QueryRewriter Q S P)
      → q.awaiting_sync ≡ true
      → on_frame rw' b'S' body q
        ≡ (ok (reply (ready_for_query q.tx_status)), record q { awaiting_sync = false })
  unfolding on_frame discard_until_sync
  on_frame-Sync body q h = rw (on_frame, h) refl

  -- However many frames of a refused batch follow, none of them is sent on or changes the session,
  -- and its Sync is reached: it is answered by one ReadyForQuery, and frames are taken again.
  pub run_discards :
      (fs : List (ℕ × Bytes)) (body : Bytes) (q : QueryRewriter Q S P)
      → q.awaiting_sync ≡ true
      → All InBatch fs
      → run (fs ++ (b'S', body) ∷ []) q ≡ (
        replicate (length fs) (ok (reply [])) ++ ok (reply (ready_for_query q.tx_status)) ∷ [],
        record q { awaiting_sync = false },
      )
  unfolding run
  run_discards [] body q h a = rw (on_frame-Sync body q h) refl
  run_discards ((t, b) ∷ fs) body q h a =
      rw (on_frame-InBatch t b q h a.0, run_discards fs body q h a.1) refl

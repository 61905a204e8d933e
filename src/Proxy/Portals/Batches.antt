-- ===== src/Proxy/Portals/Batches.antt =====
-- The queue of expected responses of crates/proxy/src/portal.rs at the end of a batch and in a
-- copy.
use dbsec.Prelude.{
  ℕ, zero, suc, ◌≡◌, ◌≢◌, refl, ap, ◌∙◌, false, some, List, [], ◌∷◌, ◌++◌, ◌==◌, ==_iff,
  if◌then◌else◌, All, replicate, append-nil, arith,
}
use dbsec.Proxy.Portals.{
  idle, started, Execution, Pending, describing, executing, batch, Tracked, expect_batch, push,
  copy_data_type,
}
use dbsec.Proxy.Portals.Answers.{
  copy_in_started, front_execute, copy_data, copy_frame, copy_in_after, drop_markers, drop_batches,
  batch_answered, behind_batch, execute_answered, behind_execute,
}
use dbsec.Proxy.Portals.Sessions.{
  Call, run, step, copies, copy_starts, expects_batch, answers_execute, answers_batch,
}

module _ {P : Type 0} where
  -- a response of the batch that is not its boundary
  abbrev pub IsOwed : Pending P → Type 0
  IsOwed batch = ⊥
  IsOwed _ = Unit

  -- not the Execute with an id
  abbrev pub IsOther : ℕ → Pending P → Type 0
  IsOther id (executing e) = e.id ≢ id
  IsOther id _ = Unit

  abbrev pub NoBatchInFront : List (Pending P) → Type 0
  NoBatchInFront (batch ∷ q) = ⊥
  NoBatchInFront _ = Unit

  behind_batch-append :
      (xs ys : List (Pending P)) → All IsOwed xs → behind_batch (xs ++ batch ∷ ys) ≡ ys
  unfolding behind_batch
  behind_batch-append [] ys h = refl
  behind_batch-append (batch ∷ xs) ys h = absurd h.0
  behind_batch-append (describing r ∷ xs) ys h = behind_batch-append xs ys h.1
  behind_batch-append (executing e ∷ xs) ys h = behind_batch-append xs ys h.1

  -- A ReadyForQuery settles its batch: all that was still owed up to the batch's own marker is
  -- forgotten, the marker with it, nothing of a later batch is, and no copy is in progress.
  pub batch_answered_lem :
      (t : Tracked P) (xs ys : List (Pending P))
      → t.pending ≡ xs ++ batch ∷ ys
      → All IsOwed xs
      → batch_answered t ≡ record t { pending = ys; copy_in = idle }
  unfolding batch_answered
  batch_answered_lem t xs ys e h = rw (e, behind_batch-append xs ys h)

  -- Outside a copy the frames of a copy change nothing.
  pub copy_data_stray : (msg_type : ℕ) (t : Tracked P) → t.copy_in ≡ idle → copy_data msg_type t ≡ t
  unfolding copy_data copy_frame
  copy_data_stray msg_type t e = rw e

  drop_batches-replicate :
      (n : ℕ) (ys : List (Pending P))
      → NoBatchInFront ys
      → drop_batches (replicate n batch ++ ys) ≡ ys
  unfolding drop_batches
  drop_batches-replicate zero [] h = refl
  drop_batches-replicate zero (batch ∷ ys) h = absurd h
  drop_batches-replicate zero (describing r ∷ ys) h = refl
  drop_batches-replicate zero (executing e ∷ ys) h = refl
  drop_batches-replicate (suc n) ys h = drop_batches-replicate n ys h

  drop_markers-own :
      (xs ys : List (Pending P)) (e : Execution P) (n : ℕ)
      → All (IsOther e.id) xs
      → NoBatchInFront ys
      → drop_markers e.id (xs ++ executing e ∷ (replicate n batch ++ ys)) ≡ xs ++ executing e ∷ ys
  unfolding drop_markers
  drop_markers-own [] ys e n h k =
      rw (drop_markers, (==_iff e.id e.id).1 refl, drop_batches-replicate n ys k)
  drop_markers-own (batch ∷ xs) ys e n h k = ap (◌∷◌ batch) (drop_markers-own xs ys e n h.1 k)
  drop_markers-own (describing r ∷ xs) ys e n h k =
      ap (◌∷◌ (describing r)) (drop_markers-own xs ys e n h.1 k)
  drop_markers-own (executing x ∷ xs) ys e n h k =
      let other : (x.id == e.id) ≡ false = ground (arith, h.0) in
      rw (drop_markers, other, drop_markers-own xs ys e n h.1 k)

  -- In a copy that an Execute started, a frame of the copy drops the batch markers right behind
  -- the first entry of that Execute, and no other entry of the queue, whatever is queued in front
  -- of it and behind; any frame but CopyData also ends the copy.
  pub copy_data_own :
      (msg_type : ℕ) (t : Tracked P) (xs ys : List (Pending P)) (e : Execution P) (n : ℕ)
      → t.copy_in ≡ started (some e.id)
      → t.pending ≡ xs ++ executing e ∷ (replicate n batch ++ ys)
      → All (IsOther e.id) xs
      → NoBatchInFront ys
      → copy_data msg_type t ≡ record t {
        pending = xs ++ executing e ∷ ys;
        copy_in = if msg_type == copy_data_type then started (some e.id) else idle;
      }
  unfolding copy_data copy_frame copy_in_after
  copy_data_own msg_type t xs ys e n c q h k = rw (c, q, drop_markers-own xs ys e n h k)

  abbrev pub in_copy : Tracked P → Execution P → Tracked P
  in_copy t e = record t { pending = executing e ∷ []; copy_in = started (some e.id) }

  frames :
      (n : ℕ) (cs : List (Call P)) (t : Tracked P) (e : Execution P)
      → run (replicate n (copies copy_data_type) ++ cs) (in_copy t e) ≡ run cs (in_copy t e)
  unfolding run
  frames zero cs t e = refl
  frames (suc n) cs t e =
      let same : step (copies copy_data_type) (in_copy t e) ≡ in_copy t e =
        unfold step in copy_data_own copy_data_type (in_copy t e) [] [] e 0 refl refl tt tt in
      ap (run (replicate n (copies copy_data_type) ++ cs)) same ∙ frames n cs t e

  first_frame :
      (msg_type k : ℕ) (t : Tracked P) (e : Execution P)
      → t.pending ≡ executing e ∷ replicate k batch
      → copy_data msg_type (copy_in_started t) ≡ record t {
        pending = executing e ∷ [];
        copy_in = if msg_type == copy_data_type then started (some e.id) else idle;
      }
  unfolding copy_in_started front_execute
  first_frame msg_type k t e q =
      copy_data_own msg_type (copy_in_started t) [] [] e k (rw q)
        (q ∙ rw (append-nil (replicate {A = Pending P} k batch))) tt tt

  settled :
      (t : Tracked P) (e : Execution P)
      → run
          (expects_batch ∷ answers_execute ∷ answers_batch ∷ [])
          (record t { pending = executing e ∷ []; copy_in = idle })
        ≡ record t { pending = []; copy_in = idle }
  unfolding run step expect_batch push execute_answered behind_execute batch_answered behind_batch
  settled t e = refl

  ended :
      (final : ℕ) (t : Tracked P) (e : Execution P)
      → (final == copy_data_type) ≡ false
      → run (copies final ∷ expects_batch ∷ answers_execute ∷ answers_batch ∷ []) (in_copy t e)
        ≡ record t { pending = []; copy_in = idle }
  unfolding run step
  ended final t e h =
      let closed : copy_data final (in_copy t e)
          ≡ record t { pending = executing e ∷ []; copy_in = idle } =
        copy_data_own final (in_copy t e) [] [] e 0 refl refl tt tt ∙ rw h in
      ap (run (expects_batch ∷ answers_execute ∷ answers_batch ∷ [])) closed ∙ settled t e

  -- A pipelined COPY leaves the queue in step. The client sent Execute and any number of Syncs,
  -- which the backend ignores; after the copy has started, any number of data frames, the frame
  -- that ends it, a fresh Sync, and the backend's two answers, nothing is owed any more and no
  -- copy is in progress.
  pub run-copy :
      (k n final : ℕ) (t : Tracked P) (e : Execution P)
      → t.pending ≡ executing e ∷ replicate k batch
      → final ≢ copy_data_type
      → run
          (copy_starts
            ∷ (replicate n (copies copy_data_type)
                ++ copies final ∷ expects_batch ∷ answers_execute ∷ answers_batch ∷ []))
          t
        ≡ record t { pending = []; copy_in = idle }
  unfolding run step
  run-copy k zero final t e q ne =
      let other : (final == copy_data_type) ≡ false = ground (arith, ne) in
      ap (run (expects_batch ∷ answers_execute ∷ answers_batch ∷ []))
        (first_frame final k t e q ∙ rw other)
      ∙ settled t e
  run-copy k (suc n) final t e q ne =
      let other : (final == copy_data_type) ≡ false = ground (arith, ne) in
      let tail = copies final ∷ expects_batch ∷ answers_execute ∷ answers_batch ∷ [] in
      ap (run (replicate n (copies copy_data_type) ++ tail)) (first_frame copy_data_type k t e q)
      ∙ frames n tail t e
      ∙ ended final t e other

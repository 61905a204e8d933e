-- ===== src/Proxy/Portals/Caps/Sessions.antt =====
-- The caps of crates/proxy/src/portal.rs: the calls of the read path, and any sequence of calls.
use dbsec.Prelude.{
  ℕ, ◌≤◌, ◌≡◌, refl, none, some, List, [], ◌∷◌, All, length, Bytes, bytes_eq, arith, Bool-cases,
  inl, inr,
}
use dbsec.Proxy.Portals.{
  idle, started, CopyIn, Statement, Pending, describing, executing, batch, Tracked, expect_batch,
}
use dbsec.Proxy.Portals.Answers.{
  copy_in_started, copy_data, copy_frame, drop_markers, drop_batches, describe_answered,
  describe_front, describe_entry, fill_all, no_data, rederived, rederive_front, execute_answered,
  behind_execute, batch_answered, behind_batch,
}
use dbsec.Proxy.Portals.Sessions.{
  Call, parses, binds, closes_statement, closes_portal, expects_describe, expects_execute,
  expects_batch, copy_starts, copies, describes, has_no_data, rederives, answers_execute,
  answers_batch, step, run,
}
use dbsec.Proxy.Portals.Caps.{
  HasShortName, IsCapped, shrunk, push-IsCapped, parse-IsCapped, bind-IsCapped,
  close_statement-IsCapped, close_portal-IsCapped, expect_describe-IsCapped,
  expect_execute-IsCapped,
}

module _ {P : Type 0} where
  length-drop_batches : (q : List (Pending P)) → length (drop_batches q) ≤ length q
  unfolding drop_batches
  length-drop_batches [] = omega arith
  length-drop_batches (batch ∷ q) = omega (arith, length-drop_batches q)
  length-drop_batches (executing e ∷ q) = omega arith
  length-drop_batches (describing r ∷ q) = omega arith

  length-drop_markers : (id : ℕ) (q : List (Pending P)) → length (drop_markers id q) ≤ length q
  unfolding drop_markers
  length-drop_markers id [] = omega arith
  length-drop_markers id (batch ∷ q) = omega (arith, length-drop_markers id q)
  length-drop_markers id (describing r ∷ q) = omega (arith, length-drop_markers id q)
  length-drop_markers id (executing e ∷ q) =
      ground (arith, length-drop_markers id q, length-drop_batches q)

  copy_frame-IsCapped :
      (msg_type : ℕ) (c : CopyIn) (t : Tracked P) → IsCapped t → IsCapped (copy_frame msg_type c t)
  unfolding copy_frame
  copy_frame-IsCapped msg_type idle t i = i
  copy_frame-IsCapped msg_type (started none) t i = shrunk t t.pending _ (omega arith) i
  copy_frame-IsCapped msg_type (started (some id)) t i =
      shrunk t _ _ (length-drop_markers id t.pending) i

  length-behind_batch : (q : List (Pending P)) → length (behind_batch q) ≤ length q
  unfolding behind_batch
  length-behind_batch [] = omega arith
  length-behind_batch (batch ∷ q) = omega arith
  length-behind_batch (executing e ∷ q) = omega (arith, length-behind_batch q)
  length-behind_batch (describing r ∷ q) = omega (arith, length-behind_batch q)

  length-behind_execute : (q : List (Pending P)) → length (behind_execute q) ≤ length q
  unfolding behind_execute
  length-behind_execute [] = omega arith
  length-behind_execute (batch ∷ q) = omega arith
  length-behind_execute (executing e ∷ q) = omega arith
  length-behind_execute (describing r ∷ q) = omega arith

  length-fill_all :
      (id : ℕ) (positions : P) (q : List (Pending P)) → length (fill_all id positions q) ≡ length q
  unfolding fill_all
  length-fill_all id positions [] = refl
  length-fill_all id positions (p ∷ q) = omega (arith, length-fill_all id positions q)

  length-rederive_front :
      (positions : P) (q : List (Pending P)) → length (rederive_front positions q) ≤ length q
  unfolding rederive_front
  length-rederive_front positions [] = omega arith
  length-rederive_front positions (batch ∷ q) = omega arith
  length-rederive_front positions (executing e ∷ q) = omega arith
  length-rederive_front positions (describing r ∷ q) = omega arith

  -- a description changes no name and adds none
  describe_entry-names :
      (name : Bytes) (id : ℕ) (positions : P) (m : List (Bytes × Statement P))
      → All HasShortName m
      → (length (describe_entry name id positions m) ≡ length m)
        × All HasShortName (describe_entry name id positions m)
  unfolding describe_entry
  describe_entry-names name id positions [] h = (refl, tt)
  describe_entry-names name id positions ((k, s) ∷ m) h =
      let (l, names) = describe_entry-names name id positions m h.1 in
      elim (Bool-cases (bytes_eq k name)) [
        | inl same ↦ rw (describe_entry, same) (refl, (h.0, h.1))
        | inr other ↦ rw (describe_entry, other) (omega (arith, l), (h.0, names))
      ]

  describe_front-IsCapped :
      (positions : P) (q : List (Pending P)) (t : Tracked P)
      → length q ≤ length t.pending
      → IsCapped t
      → IsCapped (describe_front positions q t)
  unfolding describe_front
  describe_front-IsCapped positions [] t h i = i
  describe_front-IsCapped positions (executing e ∷ q) t h i = i
  describe_front-IsCapped positions (batch ∷ q) t h i = i
  describe_front-IsCapped positions (describing none ∷ q) t h i =
      shrunk t q t.copy_in (omega arith) i
  describe_front-IsCapped positions (describing (some ref) ∷ q) t h i =
      let (l, names) =
        describe_entry-names ref.name ref.id positions t.statements i.statement_names in
      record {
        statements_fit = omega (arith, l, i.statements_fit);
        portals_fit = i.portals_fit;
        pending_fits = omega (arith, length-fill_all ref.id positions q, i.pending_fits);
        statement_names = names;
        portal_names = i.portal_names;
      }

  step-IsCapped : (c : Call P) (t : Tracked P) → IsCapped t → IsCapped (step c t)
  unfolding step copy_data describe_answered no_data rederived execute_answered batch_answered
      copy_in_started expect_batch
  step-IsCapped (parses statement params) t i = parse-IsCapped statement params t i
  step-IsCapped (binds name statement formats) t i = bind-IsCapped name statement formats t i
  step-IsCapped (closes_statement statement) t i = close_statement-IsCapped statement t i
  step-IsCapped (closes_portal name) t i = close_portal-IsCapped name t i
  step-IsCapped (expects_describe target name) t i = expect_describe-IsCapped target name t i
  step-IsCapped (expects_execute name) t i = expect_execute-IsCapped name t i
  step-IsCapped expects_batch t i = push-IsCapped t batch i
  step-IsCapped copy_starts t i = shrunk t t.pending _ (omega arith) i
  step-IsCapped (copies msg_type) t i = copy_frame-IsCapped msg_type t.copy_in t i
  step-IsCapped (describes positions) t i =
      describe_front-IsCapped positions t.pending t (omega arith) i
  step-IsCapped (has_no_data default) t i =
      describe_front-IsCapped default t.pending t (omega arith) i
  step-IsCapped (rederives positions) t i =
      shrunk t _ t.copy_in (length-rederive_front positions t.pending) i
  step-IsCapped answers_execute t i = shrunk t _ t.copy_in (length-behind_execute t.pending) i
  step-IsCapped answers_batch t i = shrunk t _ idle (length-behind_batch t.pending) i

  -- From a state within the caps, such as a fresh session, every sequence of calls leads to one:
  -- whatever a client and a backend send, and in whatever order, a session holds at most 1024
  -- statements, 1024 portals and 4096 expected responses, under names of at most 256 bytes.
  pub run-IsCapped : (cs : List (Call P)) (t : Tracked P) → IsCapped t → IsCapped (run cs t)
  unfolding run
  run-IsCapped [] t i = i
  run-IsCapped (c ∷ cs) t i = run-IsCapped cs (step c t) (step-IsCapped c t i)

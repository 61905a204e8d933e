-- ===== src/Proxy/Portals/Attribution/Captured.antt =====
-- What an Execute of crates/proxy/src/portal.rs captures when it is sent, the statement and the
-- formats, stays with its entry in the queue.
use dbsec.Prelude.{
  ℕ, Option, none, some, List, [], ◌∷◌, ◌==◌, All, All-append, leb, length, Result, ok, err,
  Bool-cases, Result-cases, inl, inr,
}
use dbsec.Proxy.{describe_target, Error}
use dbsec.Proxy.Params.{ResultFormats}
use dbsec.Proxy.Portals.{
  idle, started, CopyIn, Pending, describing, executing, batch, Tracked, guarded, push, check_name,
  parse, parse_checks, parsed, bind, bind_checks, bound_to, close_statement, close_portal,
  expect_describe, expect_execute, expect_batch, execution,
}
use dbsec.Proxy.Portals.Answers.{
  copy_in_started, copy_data, copy_frame, describe_answered, describe_front, fill, fill_all,
  fill_execution, no_data, rederived, rederive, rederive_front, execute_answered, batch_answered,
}
use dbsec.Proxy.Portals.Sessions.{
  Call, parses, binds, closes_statement, closes_portal, expects_describe, expects_execute,
  expects_batch, copy_starts, copies, describes, has_no_data, rederives, answers_execute,
  answers_batch, step,
}
use dbsec.Proxy.Portals.Attribution.Queue.{drop_markers-All, behind_batch-All, behind_execute-All}

module _ {P : Type 0} (E : Option ℕ → ResultFormats → Type 0) where
  abbrev pub RunsAs : Pending P → Type 0
  RunsAs (executing e) = E e.statement e.result_formats
  RunsAs _ = Unit

  -- what a call adds to the queue
  abbrev pub Captures : Call P → Tracked P → Type 0
  Captures (expects_execute name) t = RunsAs (executing (execution name t))
  Captures _ t = Unit

  guarded-RunsAs :
      {A : Type 0} (r : Result Error (Unit {0})) (a : A) (t' t : Tracked P)
      → All RunsAs t'.pending
      → All RunsAs t.pending
      → All RunsAs (guarded r (a, t') t).1.pending
  unfolding guarded
  guarded-RunsAs (ok done) a t' t h i = h
  guarded-RunsAs (err e) a t' t h i = i

  push-RunsAs :
      (t : Tracked P) (p : Pending P)
      → RunsAs p
      → All RunsAs t.pending
      → All RunsAs (push t p).1.pending
  unfolding push
  push-RunsAs t p h i = elim (Bool-cases (leb 4096 (length t.pending))) [
    | inl full ↦ rw (push, full) i
    | inr space ↦ rw (push, space) (All-append RunsAs t.pending (p ∷ []) i (h, tt))
  ]

  filled-RunsAs :
      (id : ℕ) (positions : P) (eid : ℕ) (formats : ResultFormats) (o : Option ℕ) (held : Option P)
      → E o formats
      → RunsAs (
          executing (
            fill_execution id positions
              (record { id = eid; statement = o; positions = held; result_formats = formats })))
  unfolding fill_execution
  filled-RunsAs id positions eid formats none held h = h
  filled-RunsAs id positions eid formats (some queued) (some p) h = h
  filled-RunsAs id positions eid formats (some queued) none h = elim (Bool-cases (queued == id)) [
    | inl same ↦ rw (fill_execution, same) h
    | inr other ↦ rw (fill_execution, other) h
  ]

  fill_all-RunsAs :
      (id : ℕ) (positions : P) (q : List (Pending P))
      → All RunsAs q
      → All RunsAs (fill_all id positions q)
  unfolding fill_all fill
  fill_all-RunsAs id positions [] h = tt
  fill_all-RunsAs id positions (executing e ∷ q) h = (
    filled-RunsAs id positions e.id e.result_formats e.statement e.positions h.0,
    fill_all-RunsAs id positions q h.1,
  )
  fill_all-RunsAs id positions (describing r ∷ q) h = (tt, fill_all-RunsAs id positions q h.1)
  fill_all-RunsAs id positions (batch ∷ q) h = (tt, fill_all-RunsAs id positions q h.1)

  describe_front-RunsAs :
      (positions : P) (q : List (Pending P)) (t : Tracked P)
      → All RunsAs q
      → All RunsAs t.pending
      → All RunsAs (describe_front positions q t).pending
  unfolding describe_front
  describe_front-RunsAs positions [] t h i = i
  describe_front-RunsAs positions (describing none ∷ rest) t h i = h.1
  describe_front-RunsAs positions (describing (some ref) ∷ rest) t h i =
      fill_all-RunsAs ref.id positions rest h.1
  describe_front-RunsAs positions (executing e ∷ rest) t h i = i
  describe_front-RunsAs positions (batch ∷ rest) t h i = i

  rederived-RunsAs :
      (positions : P) (eid : ℕ) (formats : ResultFormats) (o : Option ℕ) (held : Option P)
      → E o formats
      → RunsAs (
          executing (
            rederive positions
              (record { id = eid; statement = o; positions = held; result_formats = formats })))
  unfolding rederive
  rederived-RunsAs positions eid formats o none h = h
  rederived-RunsAs positions eid formats o (some p) h = h

  rederive_front-RunsAs :
      (positions : P) (q : List (Pending P))
      → All RunsAs q
      → All RunsAs (rederive_front positions q)
  unfolding rederive_front
  rederive_front-RunsAs positions [] h = tt
  rederive_front-RunsAs positions (executing e ∷ q) h =
      (rederived-RunsAs positions e.id e.result_formats e.statement e.positions h.0, h.1)
  rederive_front-RunsAs positions (describing r ∷ q) h = h
  rederive_front-RunsAs positions (batch ∷ q) h = h

  copy_frame-RunsAs :
      (msg_type : ℕ) (c : CopyIn) (t : Tracked P)
      → All RunsAs t.pending
      → All RunsAs (copy_frame msg_type c t).pending
  unfolding copy_frame
  copy_frame-RunsAs msg_type idle t h = h
  copy_frame-RunsAs msg_type (started none) t h = h
  copy_frame-RunsAs msg_type (started (some id)) t h = drop_markers-All RunsAs id t.pending h

  pub step-RunsAs :
      (c : Call P) (t : Tracked P)
      → Captures c t
      → All RunsAs t.pending
      → All RunsAs (step c t).pending
  unfolding step parse bind close_statement close_portal expect_describe expect_execute expect_batch
      copy_data describe_answered no_data rederived execute_answered batch_answered copy_in_started
  step-RunsAs (parses statement params) t n h =
      guarded-RunsAs (parse_checks statement t) tt (parsed statement params t) t h h
  step-RunsAs (binds name statement formats) t n h =
      guarded-RunsAs (bind_checks name statement t) _ (bound_to name statement formats t) t h h
  step-RunsAs (closes_statement statement) t n h = h
  step-RunsAs (closes_portal name) t n h = h
  step-RunsAs (expects_describe target name) t n h =
      elim (Result-cases (check_name describe_target name)) [
        | inl (done, e) ↦ rw (step, expect_describe, e) (push-RunsAs t _ tt h)
        | inr (f, e) ↦ rw (step, expect_describe, e) h
      ]
  step-RunsAs (expects_execute name) t n h = push-RunsAs _ _ n h
  step-RunsAs expects_batch t n h = push-RunsAs t batch tt h
  step-RunsAs copy_starts t n h = h
  step-RunsAs (copies msg_type) t n h = copy_frame-RunsAs msg_type t.copy_in t h
  step-RunsAs (describes positions) t n h = describe_front-RunsAs positions t.pending t h h
  step-RunsAs (has_no_data default) t n h = describe_front-RunsAs default t.pending t h h
  step-RunsAs (rederives positions) t n h = rederive_front-RunsAs positions t.pending h
  step-RunsAs answers_execute t n h = behind_execute-All RunsAs t.pending h
  step-RunsAs answers_batch t n h = behind_batch-All RunsAs t.pending h

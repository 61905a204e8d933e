-- ===== src/Proxy/Portals/Sessions.antt =====
-- A session as a sequence of calls: the two relay directions take the lock in some order, and the
-- state after them is a function of that order.
use dbsec.Prelude.{ℕ, none, some, List, [], ◌∷◌, ◌++◌, Bytes}
use dbsec.Proxy.Params.{ParamTransforms, ResultFormats}
use dbsec.Proxy.Portals.{
  Target, Execution, Pending, describing, executing, Tracked, parse, bind, close_statement,
  close_portal, expect_describe, expect_execute, expect_batch,
}
use dbsec.Proxy.Portals.Answers.{
  copy_in_started, copy_data, describe_answered, no_data, rederived, execute_answered,
  batch_answered,
}

-- The calls of `SessionPortals` that change the state.
pub data Call (P : Type 0) : Type 0 where
  parses : Bytes → ParamTransforms → Call P
  binds : Bytes → Bytes → ResultFormats → Call P
  closes_statement closes_portal : Bytes → Call P
  expects_describe : Target → Bytes → Call P
  expects_execute : Bytes → Call P
  expects_batch copy_starts : Call P
  copies : ℕ → Call P
  describes : P → Call P
  has_no_data : P → Call P
  rederives : P → Call P
  answers_execute answers_batch : Call P

module _ {P : Type 0} where
  unfoldable pub step : Call P → Tracked P → Tracked P
  step (parses statement params) t = (parse statement params t).1
  step (binds name statement formats) t = (bind name statement formats t).1
  step (closes_statement statement) t = close_statement statement t
  step (closes_portal name) t = close_portal name t
  step (expects_describe target name) t = (expect_describe target name t).1
  step (expects_execute name) t = (expect_execute name t).1
  step expects_batch t = (expect_batch t).1
  step copy_starts t = copy_in_started t
  step (copies msg_type) t = copy_data msg_type t
  step (describes positions) t = describe_answered positions t
  step (has_no_data default) t = no_data default t
  step (rederives positions) t = rederived positions t
  step answers_execute t = execute_answered t
  step answers_batch t = batch_answered t

  unfoldable pub run : List (Call P) → Tracked P → Tracked P
  unfolding step
  run [] t = t
  run (c ∷ cs) t = run cs (step c t)

  -- the description that a call attributes, with the statement that it describes
  unfoldable pub attributed : P → List (Pending P) → List (ℕ × P)
  attributed positions (describing (some ref) ∷ rest) = (ref.id, positions) ∷ []
  attributed positions _ = []

  unfoldable pub renewed_for : P → Execution P → List (ℕ × P)
  renewed_for positions e = elim e.statement [
    | none ↦ []
    | some id ↦ elim e.positions [ none ↦ [] | some held ↦ (id, positions) ∷ [] ]
  ]

  unfoldable pub renewed : P → List (Pending P) → List (ℕ × P)
  unfolding renewed_for
  renewed positions (executing e ∷ rest) = renewed_for positions e
  renewed positions _ = []

  unfoldable pub entry : Call P → Tracked P → List (ℕ × P)
  unfolding attributed renewed
  entry (describes positions) t = attributed positions t.pending
  entry (has_no_data default) t = attributed default t.pending
  entry (rederives positions) t = renewed positions t.pending
  entry _ t = []

  -- What a session was told: the descriptions in order, each with the id of the statement whose
  -- Describe, or whose Execute in answer, was at the front of the queue.
  unfoldable pub log : List (Call P) → Tracked P → List (ℕ × P)
  unfolding step entry
  log [] t = []
  log (c ∷ cs) t = entry c t ++ log cs (step c t)

-- ===== src/Proxy/Portals/Attribution/Reads.antt =====
-- The same for the calls of the read path, and for any call.
use dbsec.Prelude.{
  ℕ, refl, Option, none, some, List, [], ◌∷◌, ◌==◌, ==_iff, All, Bytes, bytes_eq, arith, Bool-cases,
  inl, inr,
}
use dbsec.Proxy.Params.{ResultFormats}
use dbsec.Proxy.Portals.{
  idle, started, CopyIn, Statement, Pending, describing, executing, batch, Tracked, expect_batch,
}
use dbsec.Proxy.Portals.Answers.{
  copy_in_started, copy_data, copy_frame, describe_answered, describe_front, describe_entry,
  describe_if, fill, fill_all, fill_execution, no_data, rederived, rederive, rederive_front,
  execute_answered, batch_answered,
}
use dbsec.Proxy.Portals.Sessions.{
  Call, parses, binds, closes_statement, closes_portal, expects_describe, expects_execute,
  expects_batch, copy_starts, copies, describes, has_no_data, rederives, answers_execute,
  answers_batch, step, entry, attributed, renewed, renewed_for,
}
use dbsec.Proxy.Portals.Attribution.Queue.{drop_markers-All, behind_batch-All, behind_execute-All}
use dbsec.Proxy.Portals.Attribution.{
  Held, HeldBy, HeldStatement, HeldPending, Attributed, push-Attributed, parse-Attributed,
  bind-Attributed, close_statement-Attributed, close_portal-Attributed, expect_describe-Attributed,
  expect_execute-Attributed,
}

module _ {P : Type 0} (D : ℕ × P → Type 0) where
  copy_frame-Attributed :
      (msg_type : ℕ) (c : CopyIn) (t : Tracked P)
      → Attributed D t
      → Attributed D (copy_frame msg_type c t)
  unfolding copy_frame
  copy_frame-Attributed msg_type idle t i = i
  copy_frame-Attributed msg_type (started none) t i = record {
    statements_held = i.statements_held;
    pending_held = i.pending_held;
  }
  copy_frame-Attributed msg_type (started (some id)) t i = record {
    statements_held = i.statements_held;
    pending_held = drop_markers-All (HeldPending D) id t.pending i.pending_held;
  }

  describe_if-Held :
      (name : Bytes) (id : ℕ) (positions : P) (s : Statement P)
      → D (id, positions)
      → Held D s.id s.described
      → HeldStatement D (name, describe_if id positions s)
  unfolding describe_if
  describe_if-Held name id positions s d h = elim (Bool-cases (s.id == id)) [
    | inl same ↦ rw (describe_if, same, (==_iff s.id id).0 same) d
    | inr other ↦ rw (describe_if, other) h
  ]

  describe_entry-HeldStatement :
      (name : Bytes) (id : ℕ) (positions : P) (m : List (Bytes × Statement P))
      → D (id, positions)
      → All (HeldStatement D) m
      → All (HeldStatement D) (describe_entry name id positions m)
  unfolding describe_entry
  describe_entry-HeldStatement name id positions [] d h = tt
  describe_entry-HeldStatement name id positions ((k, s) ∷ m) d h =
      elim (Bool-cases (bytes_eq k name)) [
        | inl same ↦ rw (describe_entry, same) (describe_if-Held k id positions s d h.0, h.1)
        | inr other ↦
            rw (describe_entry, other) (h.0, describe_entry-HeldStatement name id positions m d h.1)
      ]

  filled :
      (id : ℕ) (positions : P) (eid : ℕ) (formats : ResultFormats) (o : Option ℕ) (held : Option P)
      → D (id, positions)
      → HeldBy D o held
      → HeldPending D (
          executing (
            fill_execution id positions
              (record { id = eid; statement = o; positions = held; result_formats = formats })))
  unfolding fill_execution
  filled id positions eid formats none held d h = h
  filled id positions eid formats (some queued) (some p) d h = h
  filled id positions eid formats (some queued) none d h = elim (Bool-cases (queued == id)) [
    | inl same ↦ rw (fill_execution, same, (==_iff queued id).0 same) d
    | inr other ↦ rw (fill_execution, other) tt
  ]

  fill_all-HeldPending :
      (id : ℕ) (positions : P) (q : List (Pending P))
      → D (id, positions)
      → All (HeldPending D) q
      → All (HeldPending D) (fill_all id positions q)
  unfolding fill_all fill
  fill_all-HeldPending id positions [] d h = tt
  fill_all-HeldPending id positions (executing e ∷ q) d h = (
    filled id positions e.id e.result_formats e.statement e.positions d h.0,
    fill_all-HeldPending id positions q d h.1,
  )
  fill_all-HeldPending id positions (describing r ∷ q) d h =
      (tt, fill_all-HeldPending id positions q d h.1)
  fill_all-HeldPending id positions (batch ∷ q) d h =
      (tt, fill_all-HeldPending id positions q d h.1)

  describe_front-Attributed :
      (positions : P) (q : List (Pending P)) (t : Tracked P)
      → All (HeldPending D) q
      → All D (attributed positions q)
      → Attributed D t
      → Attributed D (describe_front positions q t)
  unfolding describe_front attributed
  describe_front-Attributed positions [] t h d i = i
  describe_front-Attributed positions (describing none ∷ rest) t h d i = record {
    statements_held = i.statements_held;
    pending_held = h.1;
  }
  describe_front-Attributed positions (describing (some ref) ∷ rest) t h d i = record {
    statements_held =
        describe_entry-HeldStatement ref.name ref.id positions t.statements d.0 i.statements_held;
    pending_held = fill_all-HeldPending ref.id positions rest d.0 h.1;
  }
  describe_front-Attributed positions (executing e ∷ rest) t h d i = i
  describe_front-Attributed positions (batch ∷ rest) t h d i = i

  rederive-Held :
      (positions : P) (eid : ℕ) (formats : ResultFormats) (o : Option ℕ) (held : Option P)
      → HeldBy D o held
      → All D (
          renewed_for positions
            (record { id = eid; statement = o; positions = held; result_formats = formats }))
      → HeldPending D (
          executing (
            rederive positions
              (record { id = eid; statement = o; positions = held; result_formats = formats })))
  unfolding rederive renewed_for
  rederive-Held positions eid formats none none h d = refl
  rederive-Held positions eid formats none (some p) h d = ground arith
  rederive-Held positions eid formats (some id) none h d = tt
  rederive-Held positions eid formats (some id) (some p) h d = d.0

  rederive_front-HeldPending :
      (positions : P) (q : List (Pending P))
      → All (HeldPending D) q
      → All D (renewed positions q)
      → All (HeldPending D) (rederive_front positions q)
  unfolding rederive_front renewed
  rederive_front-HeldPending positions [] h d = tt
  rederive_front-HeldPending positions (executing e ∷ q) h d =
      (rederive-Held positions e.id e.result_formats e.statement e.positions h.0 d, h.1)
  rederive_front-HeldPending positions (describing r ∷ q) h d = h
  rederive_front-HeldPending positions (batch ∷ q) h d = h

  pub step-Attributed :
      (c : Call P) (t : Tracked P) → All D (entry c t) → Attributed D t → Attributed D (step c t)
  unfolding step entry copy_data describe_answered no_data rederived execute_answered batch_answered
      copy_in_started expect_batch
  step-Attributed (parses statement params) t d i = parse-Attributed D statement params t i
  step-Attributed (binds name statement formats) t d i =
      bind-Attributed D name statement formats t i
  step-Attributed (closes_statement statement) t d i = close_statement-Attributed D statement t i
  step-Attributed (closes_portal name) t d i = close_portal-Attributed D name t i
  step-Attributed (expects_describe target name) t d i =
      expect_describe-Attributed D target name t i
  step-Attributed (expects_execute name) t d i = expect_execute-Attributed D name t i
  step-Attributed expects_batch t d i = push-Attributed D t batch tt i
  step-Attributed copy_starts t d i = record {
    statements_held = i.statements_held;
    pending_held = i.pending_held;
  }
  step-Attributed (copies msg_type) t d i = copy_frame-Attributed msg_type t.copy_in t i
  step-Attributed (describes positions) t d i =
      describe_front-Attributed positions t.pending t i.pending_held d i
  step-Attributed (has_no_data default) t d i =
      describe_front-Attributed default t.pending t i.pending_held d i
  step-Attributed (rederives positions) t d i = record {
    statements_held = i.statements_held;
    pending_held = rederive_front-HeldPending positions t.pending i.pending_held d;
  }
  step-Attributed answers_execute t d i = record {
    statements_held = i.statements_held;
    pending_held = behind_execute-All (HeldPending D) t.pending i.pending_held;
  }
  step-Attributed answers_batch t d i = record {
    statements_held = i.statements_held;
    pending_held = behind_batch-All (HeldPending D) t.pending i.pending_held;
  }

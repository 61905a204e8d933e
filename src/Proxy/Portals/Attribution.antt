-- ===== src/Proxy/Portals/Attribution.antt =====
-- The descriptions that the state of crates/proxy/src/portal.rs holds, and the statements that
-- they describe: the calls of the write path.
pub mod Queue
pub mod Captured
pub mod Origins
pub mod Reads
pub mod Logged
use dbsec.Prelude.{
  ℕ, ◌≡◌, refl, sym, ap, Bool, true, false, Option, none, some, List, [], ◌∷◌, ◌++◌, ◌==◌, ==_iff,
  if◌then◌else◌, All, All-append, leb, length, Result, ok, err, ◌>>=◌, ◌>>◌, Bytes, bytes_eq,
  bytes_eq_iff, arith, Bool-cases, Option-cases, Result-cases, inl, inr, not, ◌&&◌,
}
use dbsec.Proxy.{describe_target, Error, prepared_statement, prepared_statements}
use dbsec.NameMap.{get, insert, remove, retain, All-insert, All-remove, All-retain, All-get}
use dbsec.Proxy.Params.{ParamTransforms, ResultFormats}
use dbsec.Proxy.Portals.{
  idle, started, CopyIn, Portal, max_prepared_statements, check_name, room, guarded, Target,
  StatementRef, Statement, Execution, Pending, describing, executing, batch, Tracked, RowSource,
  from_portal, parse, parse_checks, parsed, bind_checks, bound_to, bind, close_statement,
  close_portal, expect_describe, expect_execute, expect_batch, push, execution, execution_of,
  described_ref, next, no_session,
}
use dbsec.Proxy.Portals.Answers.{
  copy_in_started, copy_data, copy_frame, drop_markers, drop_batches, describe_answered,
  describe_front, describe_entry, describe_if, fill, fill_all, fill_execution, no_data, rederived,
  rederive, rederive_front, execute_answered, behind_execute, batch_answered, behind_batch,
  row_source, front_source,
}
use dbsec.Proxy.Portals.Sessions.{
  Call, parses, binds, closes_statement, closes_portal, expects_describe, expects_execute,
  expects_batch, copy_starts, copies, describes, has_no_data, rederives, answers_execute,
  answers_batch, step, run, log, entry, attributed, renewed, renewed_for,
}

module _ {P : Type 0} (D : ℕ × P → Type 0) where
  abbrev pub Held : ℕ → Option P → Type 0
  Held id none = Unit
  Held id (some positions) = D (id, positions)

  abbrev pub HeldBy : Option ℕ → Option P → Type 0
  HeldBy (some id) o = Held id o
  HeldBy none o = o ≡ none

  abbrev pub HeldStatement : Bytes × Statement P → Type 0
  HeldStatement (name, s) = Held s.id s.described

  abbrev pub HeldPending : Pending P → Type 0
  HeldPending (executing e) = HeldBy e.statement e.positions
  HeldPending _ = Unit

  pub record Attributed (t : Tracked P) : Type 0 where
    pub statements_held : All HeldStatement t.statements
    pub pending_held : All HeldPending t.pending

  guarded-Attributed :
      {A : Type 0} (r : Result Error (Unit {0})) (a : A) (t' t : Tracked P)
      → Attributed t'
      → Attributed t
      → Attributed (guarded r (a, t') t).1
  unfolding guarded
  guarded-Attributed (ok done) a t' t h i = h
  guarded-Attributed (err e) a t' t h i = i

  pub push-Attributed :
      (t : Tracked P) (p : Pending P) → HeldPending p → Attributed t → Attributed (push t p).1
  unfolding push
  push-Attributed t p h i = elim (Bool-cases (leb 4096 (length t.pending))) [
    | inl full ↦ rw (push, full) i
    | inr space ↦
        rw (push, space)
          (record {
            statements_held = i.statements_held;
            pending_held = All-append HeldPending t.pending (p ∷ []) i.pending_held (h, tt);
          })
  ]

  pub parse-Attributed :
      (statement : Bytes) (params : ParamTransforms) (t : Tracked P)
      → Attributed t
      → Attributed (parse statement params t).1
  unfolding parse
  parse-Attributed statement params t i =
      guarded-Attributed (parse_checks statement t) tt (parsed statement params t) t
        (record {
          statements_held = All-insert HeldStatement statement _ t.statements tt i.statements_held;
          pending_held = i.pending_held;
        })
        i

  pub bind-Attributed :
      (name statement : Bytes) (formats : ResultFormats) (t : Tracked P)
      → Attributed t
      → Attributed (bind name statement formats t).1
  unfolding bind
  bind-Attributed name statement formats t i =
      guarded-Attributed (bind_checks name statement t) _ (bound_to name statement formats t) t
        (record { statements_held = i.statements_held; pending_held = i.pending_held }) i

  pub close_statement-Attributed :
      (statement : Bytes) (t : Tracked P) → Attributed t → Attributed (close_statement statement t)
  unfolding close_statement
  close_statement-Attributed statement t i = record {
    statements_held = All-remove HeldStatement statement t.statements i.statements_held;
    pending_held = i.pending_held;
  }

  pub close_portal-Attributed :
      (name : Bytes) (t : Tracked P) → Attributed t → Attributed (close_portal name t)
  unfolding close_portal
  close_portal-Attributed name t i = record {
    statements_held = i.statements_held;
    pending_held = i.pending_held;
  }

  pub expect_describe-Attributed :
      (target : Target) (name : Bytes) (t : Tracked P)
      → Attributed t
      → Attributed (expect_describe target name t).1
  unfolding expect_describe
  expect_describe-Attributed target name t i =
      elim (Result-cases (check_name describe_target name)) [
        | inl (done, e) ↦ rw (expect_describe, e) (push-Attributed t _ tt i)
        | inr (e, p) ↦ rw (expect_describe, p) i
      ]

  execution_of-HeldBy :
      (id : ℕ) (formats : ResultFormats) (name : Bytes) (m : List (Bytes × Statement P))
      (o : Option (Statement P))
      → get name m ≡ o
      → All HeldStatement m
      → HeldPending (executing (execution_of id formats o))
  unfolding execution_of
  execution_of-HeldBy id formats name m none e h = refl
  execution_of-HeldBy id formats name m (some s) e h = All-get HeldStatement name m h e

  execution-HeldBy :
      (name : Bytes) (t : Tracked P) → Attributed t → HeldPending (executing (execution name t))
  unfolding execution execution_of
  execution-HeldBy name t i = elim (Option-cases (get name t.portals)) [
    | inl miss ↦ rw (execution, miss) refl
    | inr (bound, hit) ↦
        rw (execution, hit)
          (execution_of-HeldBy _ bound.result_formats bound.statement t.statements _ refl
            i.statements_held)
  ]

  pub expect_execute-Attributed :
      (name : Bytes) (t : Tracked P) → Attributed t → Attributed (expect_execute name t).1
  unfolding expect_execute
  expect_execute-Attributed name t i =
      push-Attributed _ _ (execution-HeldBy name t i)
        (record { statements_held = i.statements_held; pending_held = i.pending_held })

-- ===== src/Proxy/Portals/Pipelined.antt =====
-- A batch that is on the wire before its first response: Describe, Execute, and what a driver may
-- pipeline behind them.
use dbsec.Prelude.{
  ℕ, ◌≤◌, ◌≡◌, refl, ◌∙◌, none, some, List, [], ◌∷◌, ==_iff, length, ok, Bytes, arith, Result-cases,
  inl, inr,
}
use dbsec.Proxy.{describe_target}
use dbsec.NameMap.{get}
use dbsec.Proxy.Params.{ParamTransforms, ResultFormats}
use dbsec.Proxy.Portals.{
  on_portal, StatementRef, Statement, Pending, describing, executing, Tracked, Portal, from_portal,
  max_name_len, check_name, described_ref, execution, execution_of, parse, parse_checks, guarded,
  close_statement, expect_describe, expect_execute, push, named, ref_of, statement_of,
}
use dbsec.Proxy.Portals.Answers.{
  describe_answered, describe_front, row_source, front_source, fill_all, fill, fill_execution,
}
use dbsec.Proxy.Portals.Sessions.{
  run, step, expects_describe, expects_execute, closes_statement, parses, describes,
}

check_name_short :
    (name : Bytes) → length name ≤ max_name_len → check_name describe_target name ≡ ok tt
unfolding check_name
check_name_short name h = ground arith

module _ {P : Type 0} where
  pending-parse :
      (statement : Bytes) (params : ParamTransforms) (t : Tracked P)
      → (parse statement params t).1.pending ≡ t.pending
  unfolding parse guarded
  pending-parse statement params t = elim (Result-cases (parse_checks statement t)) [
    | inl (done, e) ↦ rw (parse, e)
    | inr (e, p) ↦ rw (parse, p)
  ]

  row_source-described :
      (positions : P) (ref : StatementRef) (eid : ℕ) (formats : ResultFormats)
      (rest : List (Pending P)) (t : Tracked P)
      → t.pending
        ≡ describing (some ref)
          ∷ (executing (record {
            id = eid;
            statement = some ref.id;
            positions = none;
            result_formats = formats;
          })
              ∷ rest)
      → row_source (describe_answered positions t) ≡ from_portal positions formats
  unfolding row_source describe_answered describe_front front_source fill_all fill fill_execution
  row_source-described positions ref eid formats rest t h = rw (h, (==_iff ref.id ref.id).1 refl)

  described_ref_lem :
      (name : Bytes) (t : Tracked P) (bound : Portal) (s : Statement P)
      → get name t.portals ≡ some bound
      → get bound.statement t.statements ≡ some s
      → described_ref on_portal name t ≡ some (record { name = bound.statement; id = s.id })
  unfolding described_ref named ref_of statement_of
  described_ref_lem name t bound s p h = rw (described_ref, p, h)

  execution_lem :
      (name : Bytes) (t : Tracked P) (bound : Portal) (s : Statement P)
      → get name t.portals ≡ some bound
      → get bound.statement t.statements ≡ some s
      → execution name t ≡ record {
        id = t.next_execute_id;
        statement = some s.id;
        positions = s.described;
        result_formats = bound.result_formats;
      }
  unfolding execution execution_of
  execution_lem name t bound s p h = rw (execution, p, h)

  describe_queued :
      (name : Bytes) (t : Tracked P) (bound : Portal) (s : Statement P)
      → length name ≤ max_name_len
      → t.pending ≡ []
      → get name t.portals ≡ some bound
      → get bound.statement t.statements ≡ some s
      → (expect_describe on_portal name t).1 ≡ record t {
        pending = describing (some (record { name = bound.statement; id = s.id })) ∷ [];
      }
  unfolding expect_describe push
  describe_queued name t bound s short q p h =
      rw (
        expect_describe,
        check_name_short name short,
        described_ref_lem name t bound s p h,
        push,
        q,
      )

  execute_queued :
      (name : Bytes) (t : Tracked P) (x : Pending P)
      → (expect_execute name (record t { pending = x ∷ [] })).1.pending
        ≡ x ∷ executing (execution name t) ∷ []
  unfolding expect_execute push execution
  execute_queued name t x = refl

  -- The queue of an idle session after Describe and Execute of a portal of an undescribed statement.
  queued :
      (name : Bytes) (t : Tracked P) (bound : Portal) (s : Statement P)
      → length name ≤ max_name_len
      → t.pending ≡ []
      → get name t.portals ≡ some bound
      → get bound.statement t.statements ≡ some s
      → (run (expects_describe on_portal name ∷ expects_execute name ∷ []) t).pending
        ≡ describing (some (record { name = bound.statement; id = s.id }))
          ∷ (executing (record {
            id = t.next_execute_id;
            statement = some s.id;
            positions = s.described;
            result_formats = bound.result_formats;
          })
              ∷ [])
  unfolding run step
  queued name t bound s short q p h =
      rw (
        describe_queued name t bound s short q p h,
        execute_queued,
        execution_lem name t bound s p h,
      )

  -- In a session with nothing owed, a client pipelines Describe and Execute of a portal, with a
  -- name within the limit, whose statement is not described yet, and behind them closes that
  -- statement and parses its name again, all before the backend answers. The description that
  -- then answers the Describe is what the rows of the Execute are read with, in the formats that
  -- the portal's Bind chose.
  pub row_source-pipelined :
      (name : Bytes) (params : ParamTransforms) (positions : P) (t : Tracked P) (bound : Portal)
      (s : Statement P)
      → length name ≤ max_name_len
      → t.pending ≡ []
      → get name t.portals ≡ some bound
      → get bound.statement t.statements ≡ some s
      → s.described ≡ none
      → row_source (
          run
            (expects_describe on_portal name
              ∷ expects_execute name
              ∷ closes_statement bound.statement
              ∷ parses bound.statement params
              ∷ describes positions
              ∷ [])
            t)
        ≡ from_portal positions bound.result_formats
  unfolding run step close_statement
  row_source-pipelined name params positions t bound s short q p h undescribed =
      row_source-described positions (record { name = bound.statement; id = s.id })
        t.next_execute_id bound.result_formats [] _
        (pending-parse bound.statement params _
          ∙ queued name t bound s short q p h
          ∙ rw undescribed)

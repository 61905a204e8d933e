-- ===== src/Proxy/Portals/Tests.antt =====
-- Runs of a session, and the theorems on it at concrete states. A description is a number.
use dbsec.Prelude.{ℕ, ◌≡◌, refl, none, some, List, [], ◌∷◌, ◌++◌, ok, codes, bytes_eq, arith, pos}
use dbsec.NameMap.{get, insert, remove, contains_key}
use dbsec.Proxy.Params.{
  ParamTransforms, search_param, seal_param, unkeyed, record_action, find_action,
}
use dbsec.Proxy.Portals.{
  on_portal, on_statement, idle, Portal, Statement, Execution, executing, batch, Tracked,
  from_portal, no_session, bind, parse, check_name, room, next, expect_describe, expect_execute,
  expect_batch, push, described_ref, execution, statement_of,
}
use dbsec.Proxy.Portals.Answers.{describe_front, front_source, row_source, describe_answered}
use dbsec.Proxy.Portals.Sessions.{
  Call, parses, binds, expects_describe, expects_execute, expects_batch, describes, copies,
  copy_starts, answers_execute, answers_batch, step, run,
}
use dbsec.Proxy.Portals.Attribution.Logged.{Serves, row_source-Serves}
use dbsec.Proxy.Portals.Caps.{IsCapped}
use dbsec.Proxy.Portals.Caps.Sessions.{run-IsCapped}
use dbsec.Proxy.Portals.Batches.{run-copy}

-- Parse, Bind, Describe and Execute of the unnamed statement and portal, then the description.
abbrev calls : List (Call ℕ)
calls =
    parses [] []
    ∷ binds [] [] (some (pos 1 ∷ []))
    ∷ expects_describe on_portal []
    ∷ expects_execute []
    ∷ expects_batch
    ∷ describes 9
    ∷ []

row_source-calls : row_source (run calls (no_session ℕ)) ≡ from_portal 9 (some (pos 1 ∷ []))
unfolding row_source run step no_session parse bind expect_describe expect_execute expect_batch push
    described_ref execution describe_answered get insert remove contains_key next check_name room
    bytes_eq statement_of describe_front front_source
row_source-calls = refl

row_source-Serves_example : Serves calls 9 (some (pos 1 ∷ []))
row_source-Serves_example = row_source-Serves calls row_source-calls

-- The unnamed statement parsed again between the Bind and the Execute, and described.
abbrev parsed_again : List (Call ℕ)
parsed_again =
    parses [] []
    ∷ binds (codes "p") [] none
    ∷ parses [] []
    ∷ expects_describe on_statement []
    ∷ expects_execute (codes "p")
    ∷ expects_batch
    ∷ describes 9
    ∷ []

row_source-parsed_again : row_source (run parsed_again (no_session ℕ)) ≡ from_portal 9 none
unfolding row_source run step no_session parse bind expect_describe expect_execute expect_batch push
    described_ref execution describe_answered get insert remove contains_key next check_name room
    bytes_eq statement_of describe_front front_source
row_source-parsed_again = refl

no_session-IsCapped : IsCapped (no_session ℕ)
unfolding no_session
no_session-IsCapped = record {
  statements_fit = omega arith;
  portals_fit = omega arith;
  pending_fits = omega arith;
  statement_names = tt;
  portal_names = tt;
}

run-IsCapped_example : IsCapped (run calls (no_session ℕ))
run-IsCapped_example = run-IsCapped calls (no_session ℕ) no_session-IsCapped

abbrev undescribed_statement : Statement ℕ
undescribed_statement = record { id = 0; params = []; described = none }

abbrev unnamed_portal : Portal
unnamed_portal = record { statement = []; result_formats = some (pos 1 ∷ []) }

abbrev bound_session : Tracked ℕ
bound_session = record {
  statements = ([], undescribed_statement) ∷ [];
  portals = ([], unnamed_portal) ∷ [];
  pending = [];
  next_statement_id = 1;
  next_execute_id = 0;
  copy_in = idle;
}

abbrev copying : Execution ℕ
copying = record { id = 0; statement = some 0; positions = none; result_formats = none }

abbrev copy_session : Tracked ℕ
copy_session = record bound_session {
  pending = executing copying ∷ batch ∷ [];
  next_execute_id = 1;
}

run-copy_example :
    run
      (copy_starts
        ∷ copies b'd'
        ∷ copies b'd'
        ∷ copies b'c'
        ∷ expects_batch
        ∷ answers_execute
        ∷ answers_batch
        ∷ [])
      copy_session
    ≡ record copy_session { pending = []; copy_in = idle }
run-copy_example = run-copy 1 2 b'c' copy_session copying refl (omega arith)

abbrev one_action : ParamTransforms
one_action = (0, search_param 5) ∷ []

record-second :
    record_action one_action 1 (seal_param 6 unkeyed)
    ≡ ok (one_action ++ (1, seal_param 6 unkeyed) ∷ [])
unfolding record_action find_action
record-second = refl

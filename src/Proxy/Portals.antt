-- ===== src/Proxy/Portals.antt =====
-- crates/proxy/src/portal.rs: one session's extended-protocol state. Both relay directions take the
-- lock for one operation at a time, so each operation is a function of the state, and a session is
-- the sequence of them. `P` stands for `Positions`, which this file of the proxy only passes on.
pub mod Answers
pub mod Sessions
pub mod Attribution
pub mod Caps
pub mod Batches
pub mod Pipelined
pub mod Bound
mod Tests
use dbsec.Prelude.{
  ℕ, ◌+◌, ◌*◌, ◌%◌, ◌^◌, Bool, true, false, not, ◌&&◌, Option, none, some, List, [], ◌∷◌, ◌++◌,
  ◌==◌, leb, ltb, if◌then◌else◌, length, Result, ok, err, ◌>>=◌, ◌>>◌, Bytes, bytes_eq,
}
use dbsec.Proxy.{
  Error, session_limit, name_too_long, Tracks, Named, prepared_statements, portals,
  outstanding_responses, prepared_statement, portal, describe_target,
}
use dbsec.NameMap.{get, contains_key, remove, insert, retain}
use dbsec.Proxy.Params.{ParamTransforms, ResultFormats}

abbrev pub max_prepared_statements : ℕ
max_prepared_statements = 1024

abbrev pub max_portals : ℕ
max_portals = 1024

abbrev pub max_name_len : ℕ
max_name_len = 256

abbrev pub max_pending_responses : ℕ
max_pending_responses = 4096

abbrev pub copy_data_type : ℕ
copy_data_type = b'd'

pub data Target : Type 0 where
  on_statement on_portal : Target

pub data CopyIn : Type 0 where
  idle : CopyIn
  started : Option ℕ → CopyIn

pub record StatementRef : Type 0 where
  pub name : Bytes
  pub id : ℕ

pub record Portal : Type 0 where
  pub statement : Bytes
  pub result_formats : ResultFormats

module _ (P : Type 0) where
  pub data RowSource : Type 0 where
    from_portal : P → ResultFormats → RowSource
    last_description undescribed : RowSource

  pub record Statement : Type 0 where
    pub id : ℕ
    pub params : ParamTransforms
    pub described : Option P

  -- The fields of `Pending::Execute`.
  pub record Execution : Type 0 where
    pub id : ℕ
    pub statement : Option ℕ
    pub positions : Option P
    pub result_formats : ResultFormats

  pub data Pending : Type 0 where
    describing : Option StatementRef → Pending
    executing : Execution → Pending
    batch : Pending

  pub record Tracked : Type 0 where
    pub statements : List (Bytes × Statement)
    pub portals : List (Bytes × Portal)
    pub pending : List Pending
    pub next_statement_id : ℕ
    pub next_execute_id : ℕ
    pub copy_in : CopyIn

  unfoldable pub no_session : Tracked
  no_session = record {
    statements = [];
    portals = [];
    pending = [];
    next_statement_id = 0;
    next_execute_id = 0;
    copy_in = idle;
  }

unfoldable pub check_name : Named → Bytes → Result Error (Unit {0})
check_name what name =
    if ltb max_name_len (length name)
    then err (name_too_long what (length name) max_name_len)
    else ok tt

-- a counter of type u64
unfoldable pub next : ℕ → ℕ
next id = (id + 1) % 2 ^ 64

-- A room check in front of the change that needs the room; a name that is there is replaced.
unfoldable pub room {ℓ} :
    {V : Type ℓ} → Tracks → ℕ → Bytes → List (Bytes × V) → Result Error (Unit {0})
room what limit name m =
    if not (contains_key name m) && leb limit (length m)
    then err (session_limit what limit)
    else ok tt

statement_of : Option Portal → Option Bytes
statement_of none = none
statement_of (some bound) = some bound.statement

module _ {P : Type 0} where
  unfoldable pub push : Tracked P → Pending P → Result Error (Unit {0}) × Tracked P
  push t p =
      if leb max_pending_responses (length t.pending)
      then (err (session_limit outstanding_responses max_pending_responses), t)
      else (ok tt, record t { pending = t.pending ++ p ∷ [] })

  guarded {ℓ} :
      {A : Type ℓ}
      → Result Error (Unit {0})
      → A × Tracked P
      → Tracked P
      → Result Error A × Tracked P
  guarded (ok done) (a, t') t = (ok a, t')
  guarded (err e) after t = (err e, t)

  abbrev pub parse_checks : Bytes → Tracked P → Result Error (Unit {0})
  parse_checks statement t =
      check_name prepared_statement statement
      >> room prepared_statements max_prepared_statements statement t.statements

  abbrev pub parsed : Bytes → ParamTransforms → Tracked P → Tracked P
  parsed statement params t = record t {
    next_statement_id = next t.next_statement_id;
    statements =
        insert statement (record { id = t.next_statement_id; params = params; described = none })
          t.statements;
  }

  unfoldable pub parse : Bytes → ParamTransforms → Tracked P → Result Error (Unit {0}) × Tracked P
  unfolding guarded
  parse statement params t = guarded (parse_checks statement t) (tt, parsed statement params t) t

  params_of : Option (Statement P) → Option ParamTransforms
  params_of none = none
  params_of (some s) = some s.params

  abbrev pub bind_checks : Bytes → Bytes → Tracked P → Result Error (Unit {0})
  bind_checks name statement t =
      check_name portal name
      >> (check_name prepared_statement statement >> room Tracks.portals max_portals name t.portals)

  abbrev pub bound_to : Bytes → Bytes → ResultFormats → Tracked P → Tracked P
  bound_to name statement result_formats t = record t {
    portals =
        insert name (record { statement = statement; result_formats = result_formats }) t.portals;
  }

  unfoldable pub bind :
      Bytes → Bytes → ResultFormats → Tracked P → Result Error (Option ParamTransforms) × Tracked P
  unfolding guarded params_of
  bind name statement result_formats t =
      guarded (bind_checks name statement t)
        (params_of (get statement t.statements), bound_to name statement result_formats t) t

  unfoldable pub close_statement : Bytes → Tracked P → Tracked P
  close_statement statement t = record t {
    statements = remove statement t.statements;
    portals = retain (λ (bound : Portal). not (bytes_eq bound.statement statement)) t.portals;
  }

  unfoldable pub close_portal : Bytes → Tracked P → Tracked P
  close_portal name t = record t { portals = remove name t.portals }

  named : Target → Bytes → Tracked P → Option Bytes
  unfolding statement_of
  named on_statement name t = some name
  named on_portal name t = statement_of (get name t.portals)

  ref_of : Bytes → Option (Statement P) → Option StatementRef
  ref_of name none = none
  ref_of name (some s) = some (record { name = name; id = s.id })

  unfoldable pub described_ref : Target → Bytes → Tracked P → Option StatementRef
  unfolding named ref_of
  described_ref target name t = elim (named target name t) [
    | none ↦ none
    | some statement ↦ ref_of statement (get statement t.statements)
  ]

  unfoldable pub expect_describe : Target → Bytes → Tracked P → Result Error (Unit {0}) × Tracked P
  unfolding check_name push described_ref
  expect_describe target name t = elim (check_name describe_target name) [
    | ok done ↦ push t (describing (described_ref target name t))
    | err e ↦ (err e, t)
  ]

  execution_of : ℕ → ResultFormats → Option (Statement P) → Execution P
  execution_of id formats none = record {
    id = id;
    statement = none;
    positions = none;
    result_formats = formats;
  }
  execution_of id formats (some s) = record {
    id = id;
    statement = some s.id;
    positions = s.described;
    result_formats = formats;
  }

  unfoldable pub execution : Bytes → Tracked P → Execution P
  unfolding execution_of
  execution name t = elim (get name t.portals) [
    | none ↦ execution_of t.next_execute_id none none
    | some bound ↦
        execution_of t.next_execute_id bound.result_formats (get bound.statement t.statements)
  ]

  -- The id is taken before the queue may refuse the entry.
  unfoldable pub expect_execute : Bytes → Tracked P → Result Error (Unit {0}) × Tracked P
  unfolding push execution next
  expect_execute name t =
      push (record t { next_execute_id = next t.next_execute_id }) (executing (execution name t))

  unfoldable pub expect_batch : Tracked P → Result Error (Unit {0}) × Tracked P
  unfolding push
  expect_batch t = push t batch

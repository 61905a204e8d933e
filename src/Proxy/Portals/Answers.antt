-- ===== src/Proxy/Portals/Answers.antt =====
-- crates/proxy/src/portal.rs: what the backend's responses and the frames of a copy do to the
-- session's state.
use dbsec.Prelude.{ℕ, Option, none, some, List, [], ◌∷◌, ◌==◌, if◌then◌else◌, Bytes, bytes_eq}
use dbsec.Proxy.Portals.{
  CopyIn, idle, started, Statement, Execution, Pending, describing, executing, batch, Tracked,
  RowSource, from_portal, last_description, undescribed, copy_data_type,
}

unfoldable pub copy_in_after : ℕ → Option ℕ → CopyIn
copy_in_after msg_type started_by = if msg_type == copy_data_type then started started_by else idle

module _ {P : Type 0} where
  unfoldable pub front_execute : List (Pending P) → Option ℕ
  front_execute (executing e ∷ rest) = some e.id
  front_execute _ = none

  unfoldable pub copy_in_started : Tracked P → Tracked P
  unfolding front_execute
  copy_in_started t = record t { copy_in = started (front_execute t.pending) }

  -- `while matches!(pending.get(at), Some(Batch)) { pending.remove(at) }`, with `at` the front
  unfoldable pub drop_batches : List (Pending P) → List (Pending P)
  drop_batches (batch ∷ rest) = drop_batches rest
  drop_batches queue = queue

  -- the batch markers behind the first Execute with an id; without one nothing changes
  unfoldable pub drop_markers : ℕ → List (Pending P) → List (Pending P)
  unfolding drop_batches
  drop_markers id [] = []
  drop_markers id (executing e ∷ rest) =
      let later = drop_markers id rest in
      executing e ∷ (if e.id == id then drop_batches rest else later)
  drop_markers id (p ∷ rest) = p ∷ drop_markers id rest

  unfoldable pub copy_frame : ℕ → CopyIn → Tracked P → Tracked P
  copy_frame msg_type idle t = t
  copy_frame msg_type (started none) t = record t { copy_in = copy_in_after msg_type none }
  copy_frame msg_type (started (some id)) t = record t {
    copy_in = copy_in_after msg_type (some id);
    pending = drop_markers id t.pending;
  }

  unfoldable pub copy_data : ℕ → Tracked P → Tracked P
  unfolding copy_frame copy_in_after drop_markers
  copy_data msg_type t = copy_frame msg_type t.copy_in t

  unfoldable pub describe_if : ℕ → P → Statement P → Statement P
  describe_if id positions s = if s.id == id then record s { described = some positions } else s

  -- `if let Some(entry) = statements.get_mut(&name) { if entry.id == id { .. } }`
  unfoldable pub describe_entry :
      Bytes → ℕ → P → List (Bytes × Statement P) → List (Bytes × Statement P)
  unfolding describe_if
  describe_entry name id positions [] = []
  describe_entry name id positions ((k, s) ∷ m) =
      let later = describe_entry name id positions m in
      if bytes_eq k name then (k, describe_if id positions s) ∷ m else (k, s) ∷ later

  unfoldable pub fill_execution : ℕ → P → Execution P → Execution P
  fill_execution id positions e = elim e.statement [
    | none ↦ e
    | some queued ↦ elim e.positions [
      | some held ↦ e
      | none ↦ if queued == id then record e { positions = some positions } else e
    ]
  ]

  unfoldable pub fill : ℕ → P → Pending P → Pending P
  unfolding fill_execution
  fill id positions (executing e) = executing (fill_execution id positions e)
  fill id positions p = p

  unfoldable pub fill_all : ℕ → P → List (Pending P) → List (Pending P)
  unfolding fill
  fill_all id positions [] = []
  fill_all id positions (p ∷ rest) = fill id positions p ∷ fill_all id positions rest

  unfoldable pub describe_front : P → List (Pending P) → Tracked P → Tracked P
  describe_front positions (describing none ∷ rest) t = record t { pending = rest }
  describe_front positions (describing (some ref) ∷ rest) t = record t {
    statements = describe_entry ref.name ref.id positions t.statements;
    pending = fill_all ref.id positions rest;
  }
  describe_front positions _ t = t

  unfoldable pub describe_answered : P → Tracked P → Tracked P
  unfolding describe_front describe_entry fill_all
  describe_answered positions t = describe_front positions t.pending t

  -- `default` is `Positions::default()`.
  unfoldable pub no_data : P → Tracked P → Tracked P
  unfolding describe_answered
  no_data default t = describe_answered default t

  unfoldable pub rederive : P → Execution P → Execution P
  rederive positions e = elim e.positions [
    | none ↦ e
    | some held ↦ record e { positions = some positions }
  ]

  unfoldable pub rederive_front : P → List (Pending P) → List (Pending P)
  unfolding rederive
  rederive_front positions (executing e ∷ rest) = executing (rederive positions e) ∷ rest
  rederive_front positions queue = queue

  unfoldable pub rederived : P → Tracked P → Tracked P
  unfolding rederive_front
  rederived positions t = record t { pending = rederive_front positions t.pending }

  unfoldable pub front_source : List (Pending P) → RowSource P
  front_source (executing e ∷ rest) = elim e.positions [
    | none ↦ undescribed
    | some positions ↦ from_portal positions e.result_formats
  ]
  front_source _ = last_description

  unfoldable pub row_source : Tracked P → RowSource P
  unfolding front_source
  row_source t = front_source t.pending

  unfoldable pub behind_execute : List (Pending P) → List (Pending P)
  behind_execute (executing e ∷ rest) = rest
  behind_execute queue = queue

  unfoldable pub execute_answered : Tracked P → Tracked P
  unfolding behind_execute
  execute_answered t = record t { pending = behind_execute t.pending }

  -- `while let Some(pending) = pop_front() { if Batch { break } }`
  unfoldable pub behind_batch : List (Pending P) → List (Pending P)
  behind_batch [] = []
  behind_batch (batch ∷ rest) = rest
  behind_batch (p ∷ rest) = behind_batch rest

  unfoldable pub batch_answered : Tracked P → Tracked P
  unfolding behind_batch
  batch_answered t = record t { copy_in = idle; pending = behind_batch t.pending }

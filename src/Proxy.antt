-- ===== src/Proxy.antt =====
-- crates/proxy: the wire proxy. Its errors are here; `Params` holds what a statement's parameters
-- need, `Portals` the state that the two relay directions share, `Rows` the read path, and `Writes`
-- the write path. `Arrays`, `Lexer` and `Responses` are what these use.
pub mod Params
pub mod Portals
pub mod Responses
pub mod Rows
pub mod Arrays
pub mod Lexer
pub mod Writes
pub mod Session
use dbsec.Prelude.{ℕ, Bytes}
use dbsec.Core
use dbsec.Pgwire

pub data Tracks : Type 0 where
  prepared_statements portals outstanding_responses : Tracks

pub data Named : Type 0 where
  prepared_statement portal describe_target : Named

-- The variants of the proxy's `Error` that the modelled files return. A text that is only shown
-- is what it is made from: the row key of a failed binding is its bytes.
pub data Error : Type 0 where
  session_limit : Tracks → ℕ → Error
  name_too_long : Named → ℕ → ℕ → Error
  conflicting_parameter : ℕ → Error
  frame_too_large : ℕ → ℕ → ℕ → Error
  undescribed_row function_call_result rewrite_diverged : Error
  stale_column_map : Bytes → ℕ → Error
  protected_value_too_large : ℕ → ℕ → ℕ → Error
  computed_protected_column : Bytes → Error
  pre_auth_frame_too_large : ℕ → ℕ → ℕ → Error
  plaintext_rejected io : Error
  row_binding_failed : Bytes → Bytes → ℕ → Error
  ambiguous_row_key ambiguous_row_instance : Bytes → Bytes → Error
  wire : Core.Error → Error
  pgwire : Pgwire.Error → Error

-- `FrameAction` of session.rs: what the relay does with one frame.
pub data FrameAction : Type 0 where
  relay : FrameAction
  replace_body reply refuse_and_close : Bytes → FrameAction

-- `OnUnprotected` of config.rs.
pub data OnUnprotected : Type 0 where
  warn reject : OnUnprotected

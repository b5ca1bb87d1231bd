-- ===== src/Pipeline.antt =====
-- internal/pipeline/pipeline.go: a signed envelope is verified and filtered, and the result written
-- to the state file and, last, to allow.txt.
mod Defs
pub mod Lines
pub mod Verified
pub mod Outputs
unfoldable pub use Defs.{verify_and_filter, write_outputs, dedup, render, filter_loop}
pub use Defs.{
  Params, Result, State, VerifyError, Verdict, StateJson, WriteError, rejected, filtered,
}

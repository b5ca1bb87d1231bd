-- ===== src/Receive.antt =====
-- cmd/receive/receive.go: a signed envelope that is pushed over SSH, read from standard input.
mod Defs
mod Program
pub mod Exits
pub mod Limits
pub mod Outcome
pub mod Success
pub mod Working
unfoldable pub use Defs.{read_limited, run}
unfoldable pub use Program.{main}
pub use Program.{Process, Exit}
pub use Defs.{
  data_, pipeline_params, Stdin, ReceiveConfig, ReceiveError, EnvelopeJson, ReadResult, Answers,
  Finish,
}

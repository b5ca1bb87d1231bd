-- ===== src/Puller.antt =====
-- cmd/puller/puller.go: an envelope is fetched over HTTP or from a file, verified and written, and
-- the guard is loaded where the configuration and the command line ask for it.
mod Defs
mod Run
mod Program
pub mod Cycle
pub mod Cycles
pub mod Secrecy
pub mod Success
pub mod Working
unfoldable pub use Run.{run_once, is_refused}
unfoldable pub use Program.{main, cycle, cycles}
pub use Program.{Round, State, Process}
unfoldable pub use Defs.{source_label, redact_url, apply_allowed}
pub use Run.{pulled}
pub use Defs.{Finish, response, pipeline_params, PullerConfig, PullError, World, Options}

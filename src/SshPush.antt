-- ===== src/SshPush.antt =====
-- internal/sshpush/sshpush.go: an envelope is piped to a receiver over ssh.
mod Defs
pub mod Arguments
pub mod Capture
unfoldable pub use Defs.{build_args, push, truncate}
pub use Defs.{Target, PushResult, Run}

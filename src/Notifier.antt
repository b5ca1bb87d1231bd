-- ===== src/Notifier.antt =====
-- cmd/auth-server/notify.go: events that are posted to an optional webhook.
mod Defs
pub mod Laws
unfoldable pub use Defs.{notify, payload, new_notifier}
pub use Defs.{Notifier, Outside, Reply, replied, request_failed}

-- ===== src/RateLimit.antt =====
-- cmd/auth-server/ratelimit.go: failed logins are counted per peer in windows of a minute.
mod Defs
pub mod Windows
unfoldable pub use Defs.{new, blocked, bucket_for}
pub use Defs.{Limit, Limiter, Bucket}

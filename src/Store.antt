-- ===== src/Store.antt =====
-- internal/store/store.go: the records of authenticated addresses, each with a time to live.
mod Defs
mod Evict
pub mod Enforce
pub mod Snapshot
pub mod Recording
pub mod Purging
pub mod Restart
pub mod Opening
unfoldable pub use Defs.{
  load, new, record_entry, refresh_or_add, enforce_limit_locked, evict_loop, purge, snapshot, count,
  build_envelope, persist_locked, by_cidr, by_seen, expired,
}
pub use Defs.{Store, StoreJson, StoreError, RecordResult, Logged}

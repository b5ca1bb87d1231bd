-- ===== src/Nft.antt =====
-- internal/nftguard/nftguard.go: the nftables script of the guard, and its two runs of nft.
mod Script
mod Apply
pub mod Reordering
unfoldable pub use Script.{generate_script, decimal}
unfoldable pub use Apply.{apply}
pub use Script.{Config}
pub use Apply.{apply_cases, Answers, ApplyError}

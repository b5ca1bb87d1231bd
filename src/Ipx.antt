-- ===== src/Ipx.antt =====
-- internal/ipx/ipx.go: which CIDR is recorded for an address, and which received CIDRs count.
mod Defs
pub mod Request
pub mod Canonical
unfoldable pub use Defs.{parse_ip, cidr_for_request, canonical_cidr, family_of_cidr}
pub use Defs.{CidrError, CidrResult, cidr, refused, Family}

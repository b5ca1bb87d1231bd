-- ===== src/ClientIp.antt =====
-- internal/clientip/clientip.go: the address of the client, where proxy headers count only behind a
-- trusted peer.
mod Defs
pub mod Trust
unfoldable pub use Defs.{
  extract, new, usable, header_ip, source_for_header, peer_trusted, parse_trusted,
  parse_x_forwarded_for, remote_ip,
}
pub use Defs.{Config, Extractor, Request, Result}

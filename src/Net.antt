-- ===== src/Net.antt =====
-- Package net, as the program uses it: addresses, networks, prefixes and host-port pairs.
pub mod Ip
pub mod Cidr
mod HostPort
unfoldable pub use HostPort.{split_host_port}

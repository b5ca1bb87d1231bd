-- ===== src/Config.antt =====
-- internal/config/config.go: what the programs ask of their configuration.
mod Checks
mod Server
mod Files
mod Settings
mod Loading
pub mod Proxies
pub mod Parts
pub mod Paths
pub mod Inversion
pub mod Ready
pub mod Programs
unfoldable pub use Checks.{
  validate_credential, validate_nft, validate_trusted_proxy_cidrs, effective_trusted_proxy_cidrs,
  effective_client_ip_headers,
}
unfoldable pub use Files.{validate_receive, validate_puller, same_path}
pub use Checks.{ConfigError, NftConfig}
pub use Files.{ReceiveConfig, PullerConfig}
unfoldable pub use Server.{strict_host_key, reconcile_interval}
pub use Server.{PushTarget, PushConfig, NotifyConfig, ServerConfig}
unfoldable pub use Settings.{validate_push, validate_notify, validate_server}
unfoldable pub use Loading.{load_server_config, load_puller_config, load_receive_config}
pub use Settings.{Url}
pub use Loading.{Decoder, Loaded, LoadError, loaded, failed}

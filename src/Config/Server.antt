-- ===== src/Config/Server.antt =====
-- The configuration of the server: ServerConfig and what it holds, with its two readers.
use nft_auth_whitelist.Prelude.{Option, none, some, List, Bool, true}
use nft_auth_whitelist.Prelude.Int.{ℤ, pos}
use nft_auth_whitelist.Text.{Text}
use nft_auth_whitelist.Clock.{Duration, seconds}
use nft_auth_whitelist.RateLimit.{Limit}

-- None is a nil pointer.
pub record PushTarget : Type 0 where
  pub name : Text
  pub user : Text
  pub host : Text
  pub port : ℤ
  pub identity_file : Text
  pub strict_host_key_checking : Option Bool
  pub known_hosts_file : Text

unfoldable pub strict_host_key : PushTarget → Bool
strict_host_key t = elim t.strict_host_key_checking [ none ↦ true | some strict ↦ strict ]

pub record PushConfig : Type 0 where
  pub enabled : Bool
  pub timeout_seconds : ℤ
  pub targets : List PushTarget
  pub reconcile_interval_seconds : Option ℤ

-- 30 minutes if it is not set.
unfoldable pub reconcile_interval : PushConfig → Duration
reconcile_interval p = elim p.reconcile_interval_seconds [
  | none ↦ pos 1800000000000
  | some n ↦ seconds n
]

pub record NotifyConfig : Type 0 where
  pub webhook_url : Text
  pub telegram_chat_id : Text
  pub timeout_seconds : ℤ

-- A nil slice is the empty list: the program asks for the length of either.
pub record ServerConfig : Type 0 where
  pub listen : Text
  pub base_url : Text
  pub username : Text
  pub password : Text
  pub pull_token : Text
  pub hmac_secret : Text
  pub ttl_seconds : ℤ
  pub max_entries : ℤ
  pub allow_ipv4 : Bool
  pub allow_ipv6 : Bool
  pub allow_cidr_expand_ipv4 : Bool
  pub trusted_proxy_cidrs : List Text
  pub client_ip_headers : List Text
  pub trusted_proxies : List Text
  pub real_ip_header : Text
  pub data_dir : Text
  pub audit_log : Text
  pub rate_limit : Limit
  pub push : PushConfig
  pub notify : NotifyConfig
  pub freeze_file : Text

-- ===== src/Config/Settings.antt =====
-- Validate of the server's configuration, of its push block and of its notify block. url.Parse is
-- Go's own.
use nft_auth_whitelist.Prelude.{
  Option, none, some, List, [], ◌∷◌, Bool, false, not, ◌&&◌, ◌||◌, if◌then◌else◌,
}
use nft_auth_whitelist.Prelude.Int.{ℤ, pos, ltb_ℤ}
use nft_auth_whitelist.Text.{Text, text, text_eq, trim}
use nft_auth_whitelist.Net.Ip.{Ip, AddressSyntax, parse_ip, is_loopback}
use nft_auth_whitelist.Config.Checks.{
  ConfigError, and_then, refuse_if, is_empty, reject_placeholder, validate_credential,
  validate_trusted_proxy_cidrs, effective_trusted_proxy_cidrs,
}
use nft_auth_whitelist.Config.Server.{
  PushTarget, PushConfig, NotifyConfig, ServerConfig, strict_host_key,
}

-- What the program reads of a url.URL: `hostname` is Hostname().
pub record Url : Type 0 where
  pub scheme : Text
  pub host : Text
  pub hostname : Text

-- The fields of a target that must be set, then its port, then its known hosts.
unfoldable pub validate_target : PushTarget → Option ConfigError
unfolding strict_host_key
validate_target t =
    and_then
      (refuse_if
        (is_empty t.name || (is_empty t.user || (is_empty t.host || is_empty t.identity_file)))
        ConfigError.missing_fields)
      (and_then
        (refuse_if (ltb_ℤ t.port (pos 1) || ltb_ℤ (pos 65535) t.port) ConfigError.bad_target_port)
        (refuse_if (strict_host_key t && is_empty (trim t.known_hosts_file))
          ConfigError.no_known_hosts))

unfoldable pub validate_targets : List PushTarget → Option ConfigError
unfolding validate_target
validate_targets [] = none
validate_targets (t ∷ ts) = and_then (validate_target t) (validate_targets ts)

abbrev pub is_negative : Option ℤ → Bool
is_negative none = false
is_negative (some n) = ltb_ℤ n (pos 0)

unfoldable pub validate_push : PushConfig → Option ConfigError
unfolding validate_targets
validate_push p =
    if not p.enabled
    then none
    else and_then (refuse_if (is_empty p.targets) ConfigError.no_targets) (
        and_then
          (refuse_if (is_negative p.reconcile_interval_seconds) ConfigError.negative_interval)
          (validate_targets p.targets))

module _ (syn : AddressSyntax) where
  -- A nil net.IP is no loopback address.
  abbrev loopback_of : Option Ip → Bool
  loopback_of none = false
  loopback_of (some ip) = is_loopback ip

  unfoldable pub is_local : Text → Bool
  is_local host = text_eq host (text "localhost") || loopback_of (parse_ip syn host)

  unfoldable pub check_url : Option Url → Option ConfigError
  unfolding is_local
  check_url none = some ConfigError.bad_url
  check_url (some u) =
      if is_empty u.host
      then some ConfigError.bad_url
      else if text_eq u.scheme (text "https")
      then none
      else if text_eq u.scheme (text "http")
      then refuse_if (not (is_local u.hostname)) ConfigError.insecure_url
      else some ConfigError.insecure_url

  module _ (parse_url : Text → Option Url) where
    unfoldable pub validate_notify : NotifyConfig → Option ConfigError
    unfolding check_url
    validate_notify n = if is_empty n.webhook_url then none else check_url (parse_url n.webhook_url)

    unfoldable pub validate_server : ServerConfig → Option ConfigError
    unfolding validate_push validate_notify reject_placeholder
    validate_server c =
        and_then
          (refuse_if
            (is_empty c.username
              || (is_empty c.password || (is_empty c.pull_token || is_empty c.hmac_secret)))
            ConfigError.missing_fields)
          (and_then (reject_placeholder c.username) (
            and_then (validate_credential c.password 16) (
              and_then (validate_credential c.pull_token 32) (
                and_then (validate_credential c.hmac_secret 32) (
                  and_then
                    (validate_trusted_proxy_cidrs syn
                      (effective_trusted_proxy_cidrs c.trusted_proxy_cidrs c.trusted_proxies))
                    (and_then
                      (refuse_if (not c.allow_ipv4 && not c.allow_ipv6) ConfigError.no_family)
                      (and_then (validate_push c.push) (validate_notify c.notify))))))))

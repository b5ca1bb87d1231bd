-- ===== src/Config/Checks.antt =====
-- The checks that the programs share. Nothing is said of the texts of the errors.
use nft_auth_whitelist.Prelude.{
  ℕ, Option, none, some, List, [], ◌∷◌, ◌++◌, Bool, true, false, not, ◌&&◌, ◌||◌, ltb, ◌==◌,
  if◌then◌else◌, length,
}
use nft_auth_whitelist.Prelude.Int.{ℤ, pos, ltb_ℤ}
use nft_auth_whitelist.Text.{Text, text, text_eq, trim, lower, has_prefix, has_byte}
use nft_auth_whitelist.Net.Ip.{Ip, AddressSyntax, parse_ip, to4}
use nft_auth_whitelist.Net.Cidr.{IpNet, parse_cidr}

pub data ConfigError : Type 0 where
  missing_fields placeholder too_short invalid_proxy whole_family wrong_table bad_port : ConfigError
  bad_mode bad_source no_family same_paths bad_url insecure_url no_targets : ConfigError
  negative_interval bad_target_port no_known_hosts : ConfigError

-- One check after the other: the first error counts.
abbrev pub and_then : Option ConfigError → Option ConfigError → Option ConfigError
and_then (some e) next = some e
and_then none next = next

abbrev pub refuse_if : Bool → ConfigError → Option ConfigError
refuse_if true e = some e
refuse_if false e = none

unfoldable pub reject_placeholder : Text → Option ConfigError
reject_placeholder value =
    refuse_if (has_prefix (lower (trim value)) (text "change-me")) ConfigError.placeholder

unfoldable pub validate_credential : Text → ℕ → Option ConfigError
unfolding reject_placeholder
validate_credential value min =
    and_then (reject_placeholder value)
      (refuse_if (ltb (length (trim value)) min) ConfigError.too_short)

module _ (syn : AddressSyntax) where
  abbrev bits_for : Text → Option Ip → Option Text
  bits_for value none = none
  bits_for value (some ip) = elim (to4 ip) [
    | some q ↦ some (value ++ text "/32")
    | none ↦ some (value ++ text "/128")
  ]

  -- The entry as a CIDR.
  unfoldable pub with_bits : Text → Option Text
  with_bits value = if has_byte b'/' value then some value else bits_for value (parse_ip syn value)

  -- An IPv4 network has a mask of 32 bits and an IPv6 network one of 128, never of 0.
  abbrev check_network : Option IpNet → Option ConfigError
  check_network none = some ConfigError.invalid_proxy
  check_network (some n) = refuse_if (ltb 0 n.bits && n.ones == 0) ConfigError.whole_family

  abbrev check_value : Option Text → Option ConfigError
  check_value none = some ConfigError.invalid_proxy
  check_value (some value) = check_network (parse_cidr syn value)

  unfoldable pub validate_trusted_proxy_cidrs : List Text → Option ConfigError
  unfolding with_bits
  validate_trusted_proxy_cidrs [] = none
  validate_trusted_proxy_cidrs (raw ∷ rest) =
      and_then (check_value (with_bits (trim raw))) (validate_trusted_proxy_cidrs rest)

-- `append(trusted_proxy_cidrs, trusted_proxies...)`
unfoldable pub effective_trusted_proxy_cidrs : List Text → List Text → List Text
effective_trusted_proxy_cidrs trusted_proxy_cidrs trusted_proxies =
    trusted_proxy_cidrs ++ trusted_proxies

abbrev pub is_empty {ℓ} : {A : Type ℓ} → List A → Bool
is_empty [] = true
is_empty (x ∷ xs) = false

-- None is a nil slice.
unfoldable pub effective_client_ip_headers : List Text → Text → List Text → Option (List Text)
effective_client_ip_headers client_ip_headers real_ip_header trusted_proxy_cidrs =
    if not (is_empty client_ip_headers)
    then some client_ip_headers
    else if not (is_empty (trim real_ip_header))
    then some (real_ip_header ∷ [])
    else if not (is_empty trusted_proxy_cidrs)
    then some (text "CF-Connecting-IP" ∷ text "X-Real-IP" ∷ text "X-Forwarded-For" ∷ [])
    else none

pub record NftConfig : Type 0 where
  pub enabled : Bool
  pub table : Text
  pub protected_tcp_ports : List ℤ
  pub protected_udp_ports : List ℤ

unfoldable pub check_ports : List ℤ → Option ConfigError
check_ports [] = none
check_ports (p ∷ ps) =
    and_then (refuse_if (ltb_ℤ p (pos 1) || ltb_ℤ (pos 65535) p) ConfigError.bad_port)
      (check_ports ps)

unfoldable pub validate_nft : NftConfig → Option ConfigError
unfolding check_ports
validate_nft n =
    and_then (refuse_if (not (text_eq n.table (text "nft_auth_whitelist"))) ConfigError.wrong_table)
      (check_ports (n.protected_tcp_ports ++ n.protected_udp_ports))

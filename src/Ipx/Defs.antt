-- ===== src/Ipx/Defs.antt =====
-- ParseIP, CIDRForRequest, CanonicalCIDR and FamilyOfCIDR.
use nft_auth_whitelist.Prelude.{
  ℕ, ◌+◌, Option, none, some, ◌∷◌, ◌++◌, Bool, ◌&&◌, ◌==◌, if◌then◌else◌,
}
use nft_auth_whitelist.Text.{Text, text, trim, itoa}
use nft_auth_whitelist.Net.Ip
use nft_auth_whitelist.Net.Ip.{Ip, to4, v4_prefix, AddressSyntax}
use nft_auth_whitelist.Net.Cidr.{IpNet, mask, net_ip, parse_cidr}

pub data CidrError : Type 0 where
  nil_ip ipv4_not_allowed ipv6_not_allowed : CidrError

pub data CidrResult : Type 0 where
  cidr : Text → CidrResult
  refused : CidrError → CidrResult

pub data Family : Type 0 where
  ipv4 ipv6 invalid : Family

module _ (syn : AddressSyntax) where
  open syn use {format}

  -- The error is that the result is nil.
  unfoldable pub parse_ip : Text → Option Ip
  parse_ip s = Ip.parse_ip syn (trim s)

  unfoldable pub request_v4 : ℕ → Bool → Bool → Bool → CidrResult
  request_v4 q expand24 allow_expand allow_v4 =
      if allow_v4
      then (if expand24 && allow_expand
          then cidr (format (v4_prefix + mask 24 32 q) ++ text "/24")
          else cidr (format (v4_prefix + q) ++ text "/32"))
      else refused CidrError.ipv4_not_allowed

  unfoldable pub request_cidr : Option ℕ → Ip → Bool → Bool → Bool → Bool → CidrResult
  request_cidr (some q) ip expand24 allow_expand allow_v4 allow_v6 =
      request_v4 q expand24 allow_expand allow_v4
  request_cidr none ip expand24 allow_expand allow_v4 allow_v6 =
      if allow_v6 then cidr (format ip ++ text "/128") else refused CidrError.ipv6_not_allowed

  unfoldable pub cidr_for_request : Option Ip → Bool → Bool → Bool → Bool → CidrResult
  unfolding request_cidr request_v4
  cidr_for_request none expand24 allow_expand allow_v4 allow_v6 = refused CidrError.nil_ip
  cidr_for_request (some ip) expand24 allow_expand allow_v4 allow_v6 =
      request_cidr (to4 ip) ip expand24 allow_expand allow_v4 allow_v6

  unfoldable pub canonical_text : IpNet → Text
  unfolding net_ip
  canonical_text n = format (net_ip n) ++ b'/' ∷ itoa n.ones

  unfoldable pub canonical : Option IpNet → Bool → Bool → Option Text
  unfolding canonical_text
  canonical none allow_v4 allow_v6 = none
  canonical (some n) allow_v4 allow_v6 =
      if n.bits == 32
      then (if allow_v4 then some (canonical_text n) else none)
      else if n.bits == 128
      then (if allow_v6 then some (canonical_text n) else none)
      else none

  unfoldable pub canonical_cidr : Text → Bool → Bool → Option Text
  unfolding canonical
  canonical_cidr s allow_v4 allow_v6 = canonical (parse_cidr syn (trim s)) allow_v4 allow_v6

  unfoldable pub family : Option IpNet → Family
  family none = Family.invalid
  family (some n) = if n.bits == 32 then Family.ipv4 else Family.ipv6

  unfoldable pub family_of_cidr : Text → Family
  unfolding family
  family_of_cidr s = family (parse_cidr syn (trim s))

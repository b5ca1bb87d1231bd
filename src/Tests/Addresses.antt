-- ===== src/Tests/Addresses.antt =====
-- Addresses, CIDRs and proxies.
use nft_auth_whitelist.Prelude.{
  ℕ, ◌+◌, ◌<◌, some, none, [], ◌∷◌, ◌++◌, ◌≡◌, ◌≢◌, refl, true, false, arith, All, ◌⊎◌,
}
use nft_auth_whitelist.Text.{Text, text, text_eq, trim, split, cut, dtoi, has_byte, itoa}
use nft_auth_whitelist.Net.Ip.{
  Ip, v4_prefix, parse_ip, to4, addr_of, is_unspecified, is_loopback, is_private, is_multicast,
  is_link_local_unicast, is_link_local_multicast,
}
use nft_auth_whitelist.Net.Cidr.{IpNet, parse_cidr, contains}
use nft_auth_whitelist.Net.{split_host_port}
use nft_auth_whitelist.Net.Ip
use nft_auth_whitelist.Ipx
use nft_auth_whitelist.Ipx.{cidr_for_request, canonical_cidr}
use nft_auth_whitelist.Ipx.Request.{Holds, cidr_for_request-Holds}
use nft_auth_whitelist.Ipx.Canonical.{canonical_cidr-request, canonical_cidr_mapped}
use nft_auth_whitelist.ClientIp.{
  Extractor, Request, extract, usable, parse_x_forwarded_for, remote_ip, peer_trusted,
  parse_trusted,
}
use nft_auth_whitelist.ClientIp.Trust.{
  peer_result, extract-FromHeader, FromHeader, Silent, parse_x_forwarded_for-append,
}
use nft_auth_whitelist.Config.Proxies.{validate_trusted_proxy_cidrs_mapped, mapped_family}
use nft_auth_whitelist.Config.{validate_trusted_proxy_cidrs}
use nft_auth_whitelist.Tests.Sample.{sample_syntax, letters, number, parse_letters, mapped_literal}

-- 203.0.113.7
abbrev home : Ip
home = v4_prefix + 3405803783

abbrev home_text : Text
home_text = sample_syntax.format home

abbrev home_cidr : Text
home_cidr = home_text ++ text "/32"

home_allowed : cidr_for_request sample_syntax (some home) false true true true ≡ Ipx.cidr home_cidr
unfolding cidr_for_request to4 letters
home_allowed = refl

cidr_for_request-Holds_example : Holds sample_syntax home_cidr home
cidr_for_request-Holds_example =
    cidr_for_request-Holds sample_syntax home false true true true home_cidr (omega arith)
      home_allowed

canonical_cidr-request_example : canonical_cidr sample_syntax home_cidr true true ≡ some home_cidr
canonical_cidr-request_example =
    canonical_cidr-request sample_syntax home false true true true home_cidr (omega arith)
      home_allowed

literal_parses : sample_syntax.parse_addr (text "::ffff:0:0") ≡ some (Ip.v6 v4_prefix)
unfolding parse_letters mapped_literal text_eq
literal_parses = refl

validate_trusted_proxy_cidrs_mapped_example :
    (validate_trusted_proxy_cidrs sample_syntax (mapped_family ∷ []) ≡ none)
    × ((q : ℕ)
        → q < 4294967296
        → peer_trusted (parse_trusted sample_syntax (mapped_family ∷ [])) (v4_prefix + q) ≡ true)
validate_trusted_proxy_cidrs_mapped_example =
    validate_trusted_proxy_cidrs_mapped sample_syntax literal_parses

-- A network behind the prefix of the IPv4 addresses.
abbrev mapped_net : IpNet
mapped_net = record { ip = v4_prefix; ones = 96; bits = 128 }

abbrev mapped_canonical : Text
mapped_canonical = sample_syntax.format v4_prefix ++ text "/96"

mapped_canonical_of : canonical_cidr sample_syntax mapped_family true true ≡ some mapped_canonical
unfolding canonical_cidr parse_letters mapped_literal text_eq trim cut dtoi parse_cidr letters itoa
mapped_canonical_of = refl

mapped_parses : parse_cidr sample_syntax (trim mapped_family) ≡ some mapped_net
unfolding parse_letters mapped_literal text_eq trim cut dtoi parse_cidr
mapped_parses = refl

is_mapped : to4 v4_prefix ≢ none
unfolding to4
is_mapped e = cc

canonical_cidr_mapped_example : canonical_cidr sample_syntax mapped_canonical true true ≡ none
canonical_cidr_mapped_example =
    canonical_cidr_mapped sample_syntax mapped_family true true mapped_canonical mapped_net
      mapped_canonical_of mapped_parses refl (omega arith) is_mapped

no_trust : (peer : Ip) → peer_trusted [] peer ≡ false
unfolding peer_trusted
no_trust peer = refl

home_forwarded : parse_x_forwarded_for sample_syntax [] home_text ≡ some home
unfolding parse_x_forwarded_for parse_letters mapped_literal text_eq trim letters number split
    parse_ip usable is_unspecified is_loopback is_private is_multicast is_link_local_unicast
    is_link_local_multicast addr_of
home_forwarded = refl

parse_x_forwarded_for-append_example :
    parse_x_forwarded_for sample_syntax [] (text "forged" ++ b',' ∷ home_text) ≡ some home
parse_x_forwarded_for-append_example =
    parse_x_forwarded_for-append sample_syntax [] (text "forged") home_text home home_forwarded

abbrev direct : Request
direct = record { remote_addr = home_text ++ text ":4000"; header = λ name. text "forged" }

abbrev no_proxies : Extractor
no_proxies = record { trusted = []; headers = text "X-Real-IP" ∷ [] }

abbrev proxied : Request
proxied = record { remote_addr = home_text ++ text ":4000"; header = λ name. home_text }

abbrev one_proxy : Extractor
one_proxy = record {
  trusted = (let n : IpNet = record { ip = v4_prefix; ones = 96; bits = 128 } in n) ∷ [];
  headers = text "X-Real-IP" ∷ [];
}

proxied_peer : remote_ip sample_syntax proxied.remote_addr ≡ some home
unfolding remote_ip split_host_port has_byte cut trim parse_ip parse_letters mapped_literal text_eq
    letters number addr_of
proxied_peer = refl

proxy_trusted : peer_trusted one_proxy.trusted home ≡ true
unfolding peer_trusted to4 contains
proxy_trusted = refl

extract-FromHeader_example :
    (All (Silent sample_syntax one_proxy proxied.header) one_proxy.headers
      × (extract sample_syntax one_proxy proxied ≡ peer_result sample_syntax (some home)))
    ⊎ FromHeader sample_syntax one_proxy proxied (extract sample_syntax one_proxy proxied)
extract-FromHeader_example =
    extract-FromHeader sample_syntax one_proxy proxied home proxied_peer proxy_trusted

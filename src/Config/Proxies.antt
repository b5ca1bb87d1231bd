-- ===== src/Config/Proxies.antt =====
-- The check of the trusted proxies, against what the extractor makes of them.
use nft_auth_whitelist.Prelude.{ℕ, ◌+◌, ◌<◌, none, some, [], ◌∷◌, ◌≡◌, refl, true, arith}
use nft_auth_whitelist.Text.{Text, text, trim, cut, dtoi, has_byte}
use nft_auth_whitelist.Net.Ip.{AddressSyntax, v6, v4_prefix, v4_end, to4-as16}
use nft_auth_whitelist.Net.Cidr.{IpNet, parse_cidr, contains}
use nft_auth_whitelist.ClientIp.{parse_trusted, peer_trusted}
use nft_auth_whitelist.Config.Checks.{validate_trusted_proxy_cidrs, with_bits}

abbrev pub mapped_family : Text
mapped_family = text "::ffff:0:0/96"

abbrev mapped_net : IpNet
mapped_net = record { ip = v4_prefix; ones = 96; bits = 128 }

module _ (syn : AddressSyntax)
    (literal : syn.parse_addr (text "::ffff:0:0") ≡ some (v6 v4_prefix)) where
  parsed : parse_cidr syn mapped_family ≡ some mapped_net
  unfolding parse_cidr cut dtoi
  parsed = rw (parse_cidr, literal)

  trimmed : trim mapped_family ≡ mapped_family
  unfolding trim
  trimmed = refl

  accepted : validate_trusted_proxy_cidrs syn (mapped_family ∷ []) ≡ none
  unfolding validate_trusted_proxy_cidrs with_bits has_byte
  accepted = rw (validate_trusted_proxy_cidrs, trimmed, parsed)

  covered : (q : ℕ) → q < v4_end → contains mapped_net (v4_prefix + q) ≡ true
  unfolding contains
  covered q h = rw (contains, to4-as16 q h) (ground arith)

  trusted : parse_trusted syn (mapped_family ∷ []) ≡ mapped_net ∷ []
  unfolding parse_trusted has_byte
  trusted = rw (parse_trusted, trimmed, parsed)

  -- If the literal ::ffff:0:0 parses as the IPv6 address that it denotes, then the check accepts
  -- ::ffff:0:0/96 as a trusted proxy, and the extractor then trusts every IPv4 peer.
  pub validate_trusted_proxy_cidrs_mapped :
      (validate_trusted_proxy_cidrs syn (mapped_family ∷ []) ≡ none)
      × ((q : ℕ)
          → q < v4_end
          → peer_trusted (parse_trusted syn (mapped_family ∷ [])) (v4_prefix + q) ≡ true)
  unfolding peer_trusted
  validate_trusted_proxy_cidrs_mapped = (accepted, λ q h. rw (trusted, peer_trusted, covered q h))

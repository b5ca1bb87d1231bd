-- ===== src/Net/Cidr.antt =====
-- net.IPNet: a masked address, the length of its prefix and of the address in bits.
use nft_auth_whitelist.Prelude.{
  ℕ, ◌+◌, ◌-◌, ◌*◌, ◌/◌, ◌^◌, Option, none, some, Bool, false, leb, ◌==◌, if◌then◌else◌,
}
use nft_auth_whitelist.Text.{Text, cut, dtoi}
use nft_auth_whitelist.Net.Ip.{Ip, to4, Addr, v4, v6, v4_prefix, AddressSyntax}

pub record IpNet : Type 0 where
  pub ip : ℕ
  pub ones : ℕ
  pub bits : ℕ

-- The number without the bits behind the first `ones` of `bits`.
abbrev pub mask : ℕ → ℕ → ℕ → ℕ
mask ones bits n = n / 2 ^ (bits - ones) * 2 ^ (bits - ones)

unfoldable pub masked : Addr → ℕ → Option IpNet
masked (v4 n) ones =
    if leb ones 32 then some (record { ip = mask ones 32 n; ones = ones; bits = 32 }) else none
masked (v6 n) ones =
    if leb ones 128 then some (record { ip = mask ones 128 n; ones = ones; bits = 128 }) else none

-- The address and the prefix length at once, if both are well formed.
unfoldable pub both : Option Addr → Option ℕ → Option IpNet
unfolding masked
both (some a) (some n) = masked a n
both _ _ = none

-- net.ParseCIDR, of whose results the program uses the network.
unfoldable pub parse_cidr : AddressSyntax → Text → Option IpNet
unfolding both
parse_cidr syn s = elim (cut b'/' s) [
  | none ↦ none
  | some (addr, len) ↦ both (syn.parse_addr addr) (dtoi len)
]

-- `n.IP` in its 16-byte form.
unfoldable pub net_ip : IpNet → Ip
net_ip n = if n.bits == 32 then v4_prefix + n.ip else n.ip

-- networkNumberAndMask: a 128-bit network behind the IPv4 prefix counts as an IPv4 network.
number_and_mask : Option ℕ → IpNet → IpNet
number_and_mask (some q) n =
    if n.bits == 32 then n else record { ip = q; ones = n.ones - 96; bits = 32 }
number_and_mask none n = n

abbrev in_net : IpNet → ℕ → ℕ → Bool
in_net n width ip =
    if n.bits == width then n.ip / 2 ^ (n.bits - n.ones) == ip / 2 ^ (n.bits - n.ones) else false

contains_addr : Option ℕ → IpNet → Ip → Bool
contains_addr (some q) n ip = in_net n 32 q
contains_addr none n ip = in_net n 128 ip

-- `n.Contains(ip)`
unfoldable pub contains : IpNet → Ip → Bool
unfolding net_ip number_and_mask contains_addr to4
contains n ip = contains_addr (to4 ip) (number_and_mask (to4 (net_ip n)) n) ip

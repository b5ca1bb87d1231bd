-- ===== src/Net/Ip.antt =====
-- net.IP in its 16-byte form, as a number below 2^128, and the tests on it. An IPv4 address is the
-- number behind the prefix ::ffff:0:0. The text form is Go's own and enters as a record.
use nft_auth_whitelist.Prelude.{
  ℕ, ◌+◌, ◌/◌, ◌%◌, ◌<◌, ◌≡◌, ◌≢◌, Option, none, some, Bool, false, ◌&&◌, ◌||◌, arith, ◌==◌,
  if◌then◌else◌, All,
}
use nft_auth_whitelist.Text.{Text, IsGraph}

abbrev pub Ip : Type 0
Ip = ℕ

-- 2^128 and 2^32.
abbrev pub ip_end : ℕ
ip_end = 340282366920938463463374607431768211456

abbrev pub v4_end : ℕ
v4_end = 4294967296

-- The address ::ffff:0.0.0.0
abbrev pub v4_prefix : ℕ
v4_prefix = 281470681743360

-- `ip.To4()`
unfoldable pub to4 : Ip → Option ℕ
to4 ip = if ip / v4_end == 0xffff then some (ip % v4_end) else none

-- What an address literal denotes: an IPv4 address, or an IPv6 address (::ffff:a.b.c.d too).
pub data Addr : Type 0 where
  v4 v6 : ℕ → Addr

abbrev pub IsAddr : Addr → Type 0
IsAddr (v4 n) = n < v4_end
IsAddr (v6 n) = n < ip_end

unfoldable pub as16 : Addr → Ip
as16 (v4 n) = v4_prefix + n
as16 (v6 n) = n

-- How an address is printed: in the IPv4 form wherever `To4` succeeds.
addr_from : Option ℕ → Ip → Addr
addr_from (some n) ip = v4 n
addr_from none ip = v6 ip

unfoldable pub addr_of : Ip → Addr
unfolding to4 addr_from
addr_of ip = addr_from (to4 ip) ip

-- netip.ParseAddr, which fails here on an address with a zone, and `ip.String()`.
pub record AddressSyntax : Type 0 where
  pub parse_addr : Text → Option Addr
  pub format : Ip → Text
  pub parse-format : (ip : Ip) → ip < ip_end → parse_addr (format ip) ≡ some (addr_of ip)
  pub parse-IsAddr : (s : Text) (a : Addr) → parse_addr s ≡ some a → IsAddr a
  -- Digits, letters, dots and colons.
  pub format-graph : (ip : Ip) → All IsGraph (format ip)
  pub format-no_slash : (ip : Ip) → All (λ c. c ≢ b'/') (format ip)

abbrev as_ip : Option Addr → Option Ip
as_ip none = none
as_ip (some a) = some (as16 a)

-- net.ParseIP
unfoldable pub parse_ip : AddressSyntax → Text → Option Ip
unfolding as16
parse_ip syn s = as_ip (syn.parse_addr s)

-- The n bits of a 128-bit or 32-bit number from the top.
abbrev octet : ℕ → ℕ
octet n = n / 16777216

either {ℓ} : {A : Type ℓ} → Option ℕ → (ℕ → A) → A → A
either none f a = a
either (some n) f a = f n

unfoldable pub is_unspecified : Ip → Bool
unfolding to4 either
is_unspecified ip = ip == 0 || either (to4 ip) (λ n. n == 0) false

unfoldable pub is_loopback : Ip → Bool
unfolding to4 either
is_loopback ip = either (to4 ip) (λ n. octet n == 127) (ip == 1)

-- RFC 1918 and RFC 4193.
unfoldable pub is_private : Ip → Bool
unfolding to4 either
is_private ip =
    either (to4 ip) (λ n. octet n == 10 || (n / 1048576 == 2753 || n / 65536 == 49320))
      (ip / 2658455991569831745807614120560689152 == 126)

unfoldable pub is_multicast : Ip → Bool
unfolding to4 either
is_multicast ip =
    either (to4 ip) (λ n. n / 268435456 == 14) (ip / 1329227995784915872903807060280344576 == 255)

-- 169.254.0.0/16 and fe80::/10
unfoldable pub is_link_local_unicast : Ip → Bool
unfolding to4 either
is_link_local_unicast ip =
    either (to4 ip) (λ n. n / 65536 == 43518) (ip / 332306998946228968225951765070086144 == 1018)

-- 224.0.0.0/24, and ffx2::/16 for every x
unfoldable pub is_link_local_multicast : Ip → Bool
unfolding to4 either
is_link_local_multicast ip =
    either (to4 ip) (λ n. n / 256 == 14680064)
      (ip / 1329227995784915872903807060280344576 == 255
        && ip / 5192296858534827628530496329220096 % 16 == 2)

pub as16-lt : (a : Addr) → IsAddr a → as16 a < ip_end
unfolding as16
as16-lt (v4 n) h = omega arith
as16-lt (v6 n) h = h

pub to4-as16 : (n : ℕ) → n < v4_end → to4 (v4_prefix + n) ≡ some n
unfolding to4
to4-as16 n h = ground arith

pub to4-eq_some : (ip n : ℕ) → to4 ip ≡ some n → (ip ≡ v4_prefix + n) × (n < v4_end)
unfolding to4
to4-eq_some ip n h = ground arith

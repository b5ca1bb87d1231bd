-- ===== src/Nft/Reordering.antt =====
-- The script does not depend on the order of the lists.
use nft_auth_whitelist.Prelude.{Permᴰ, ◌≡◌, ◌⊎◌, true, false, arith}
use nft_auth_whitelist.Prelude.Int.{ℤ, pos, negsuc, ltb_ℤ}
use nft_auth_whitelist.Prelude.Sort.{IsOrder, sort-perm-eq_total}
use nft_auth_whitelist.Text.{text_lt-IsOrder, text_total}
use nft_auth_whitelist.Nft.Script.{Config, generate_script, elements, ports_list}

ltb_ℤ-IsOrder : IsOrder ltb_ℤ
ltb_ℤ-IsOrder = record { asym = asym; between = between }
  where
    asym : (a b : ℤ) → ltb_ℤ a b ≡ true → ltb_ℤ b a ≡ false
    asym a b h = ground arith

    between : (a b c : ℤ) → ltb_ℤ a b ≡ true → ltb_ℤ c b ≡ false → ltb_ℤ a c ≡ true
    between a b c h k = ground arith

ltb_ℤ-total : (a b : ℤ) → (a ≡ b) ⊎ ((ltb_ℤ a b ≡ true) ⊎ (ltb_ℤ b a ≡ true))
ltb_ℤ-total (pos m) (pos n) = ground arith
ltb_ℤ-total (pos m) (negsuc n) = ground arith
ltb_ℤ-total (negsuc m) (pos n) = ground arith
ltb_ℤ-total (negsuc m) (negsuc n) = ground arith

-- Two configurations with the same members in their lists.
pub record HasSameMembers (c c' : Config) : Type 0 where
  pub allow4 : Permᴰ c.allow4 c'.allow4
  pub allow6 : Permᴰ c.allow6 c'.allow6
  pub tcp : Permᴰ c.protected_tcp_ports c'.protected_tcp_ports
  pub udp : Permᴰ c.protected_udp_ports c'.protected_udp_ports

-- The script is the same for two configurations whose lists have the same members in any order.
pub generate_script-perm :
    (c c' : Config) → HasSameMembers c c' → generate_script c ≡ generate_script c'
unfolding generate_script elements ports_list
generate_script-perm c c' h =
    let a = sort-perm-eq_total text_lt-IsOrder text_total h.allow4 in
    let b = sort-perm-eq_total text_lt-IsOrder text_total h.allow6 in
    let t = sort-perm-eq_total ltb_ℤ-IsOrder ltb_ℤ-total h.tcp in
    let u = sort-perm-eq_total ltb_ℤ-IsOrder ltb_ℤ-total h.udp in rw (generate_script, a, b, t, u)

-- ===== src/Ipx/Canonical.antt =====
-- CanonicalCIDR: it takes what the server records as it is, and its result is its own canonical
-- form but for networks behind the IPv4 prefix.
use native.Mathlib.Nat.{div-mul-le_self, mul-div_cancel, one-le-pow}
use nft_auth_whitelist.Prelude.{
  ℕ, ◌≡◌, ◌≢◌, refl, sym, ap, subst, ◌∙◌, ◌<◌, ◌≤◌, ◌+◌, ◌-◌, ◌*◌, ◌/◌, ◌^◌, ◌⊎◌, inl, inr, none,
  some, Bool, ◌&&◌, Bool-cases, arith, All, All-map, Option-cases,
}
use nft_auth_whitelist.Text.{Text, text, trim, cut, IsGraph, dtoi, dtoi-itoa, itoa, itoa-IsDigit}
use nft_auth_whitelist.Net.Ip.{
  Ip, ip_end, v4_end, v4_prefix, to4, to4-eq_some, to4-as16, Addr, v4, v6, IsAddr, addr_of,
  AddressSyntax,
}
use nft_auth_whitelist.Net.Cidr.{IpNet, mask, net_ip, parse_cidr, both, masked}
use nft_auth_whitelist.Ipx.Defs.{cidr, cidr_for_request, canonical_cidr, canonical, canonical_text}
use nft_auth_whitelist.Ipx.Request.{parse_cidr-format, trim-format}

mask-le : (ones bits n : ℕ) → mask ones bits n ≤ n
mask-le ones bits n = div-mul-le_self n (2 ^ (bits - ones))

pub mask-mask : (ones bits n : ℕ) → mask ones bits (mask ones bits n) ≡ mask ones bits n
mask-mask ones bits n =
    ap (λ (x : ℕ). x * 2 ^ (bits - ones))
      (mul-div_cancel (n / 2 ^ (bits - ones)) (one-le-pow (bits - ones) 2 (omega arith)))

-- A network as `ParseCIDR` makes them: masked, in range.
pub record IsNet (n : IpNet) : Type 0 where
  pub sizes : ((n.bits ≡ 32) × (n.ip < v4_end)) ⊎ ((n.bits ≡ 128) × (n.ip < ip_end))
  pub short : n.ones ≤ n.bits
  pub is_masked : mask n.ones n.bits n.ip ≡ n.ip

masked-IsNet : (a : Addr) (k : ℕ) (n : IpNet) → IsAddr a → masked a k ≡ some n → IsNet n
unfolding masked
masked-IsNet (v4 m) k n h e =
    let e' : n ≡ record { ip = mask k 32 m; ones = k; bits = 32 } = ground arith in
    rw e' (record {
      sizes = inl (refl, omega (arith, mask-le k 32 m));
      short = ground arith;
      is_masked = mask-mask k 32 m;
    })
masked-IsNet (v6 m) k n h e =
    let e' : n ≡ record { ip = mask k 128 m; ones = k; bits = 128 } = ground arith in
    rw e' (record {
      sizes = inr (refl, omega (arith, mask-le k 128 m));
      short = ground arith;
      is_masked = mask-mask k 128 m;
    })

digit-IsGraph : (s : Text) → All (λ c. (b'0' ≤ c) × (c ≤ b'9')) s → All IsGraph s
digit-IsGraph s = All-map _ IsGraph s (λ c h. omega arith)

masked_v4 :
    (ip ones : ℕ)
    → ip < v4_end
    → ones ≤ 32
    → mask ones 32 ip ≡ ip
    → masked (addr_of (v4_prefix + ip)) ones ≡ some (record { ip = ip; ones = ones; bits = 32 })
unfolding masked addr_of
masked_v4 ip ones lt le m = rw (to4-as16 ip lt, addr_of) (ground (arith, m))

masked_v6 :
    (ip ones : ℕ)
    → to4 ip ≡ none
    → ones ≤ 128
    → mask ones 128 ip ≡ ip
    → masked (addr_of ip) ones ≡ some (record { ip = ip; ones = ones; bits = 128 })
unfolding masked addr_of
masked_v6 ip ones e le m = rw (e, addr_of) (ground (arith, m))

module _ (syn : AddressSyntax) where
  parse_cidr-IsNet : (s : Text) (n : IpNet) → parse_cidr syn s ≡ some n → IsNet n
  unfolding parse_cidr both
  parse_cidr-IsNet s n h = elim (Option-cases (cut b'/' s)) [
    | inl e ↦ absurd (ground (arith, e))
    | inr ((addr, len), e) ↦ elim (Option-cases (syn.parse_addr addr)) [
      | inl f ↦ absurd (ground (arith, e, f))
      | inr (a, f) ↦ elim (Option-cases (dtoi len)) [
        | inl g ↦ absurd (ground (arith, e, f, g))
        | inr (k, g) ↦ masked-IsNet a k n (syn.parse-IsAddr addr a f) (ground (arith, e, f, g))
      ]
    ]
  ]

  net_ip-lt : (n : IpNet) → IsNet n → net_ip n < ip_end
  unfolding net_ip
  net_ip-lt n h = ground (arith, h.sizes)

  -- A network that is no IPv6 network behind the IPv4 prefix.
  abbrev pub IsPlain : IpNet → Type 0
  IsPlain n = (n.bits ≡ 32) ⊎ (to4 n.ip ≡ none)

  reparse : (n : IpNet) → IsNet n → IsPlain n → masked (addr_of (net_ip n)) n.ones ≡ some n
  unfolding net_ip
  reparse n h p = elim h.sizes [
    | inl (w, lt) ↦
        let ip' : net_ip n ≡ v4_prefix + n.ip = ground (arith, w) in
        let n' : n ≡ record { ip = n.ip; ones = n.ones; bits = 32 } = ground (arith, w) in
        rw ip' (
          masked_v4 n.ip n.ones lt (ground (arith, w, h.short))
            (subst (λ b. mask n.ones b n.ip ≡ n.ip) w h.is_masked)
          ∙ ap some (sym n'))
    | inr (w, lt) ↦
        let ip' : net_ip n ≡ n.ip = ground (arith, w) in
        let n' : n ≡ record { ip = n.ip; ones = n.ones; bits = 128 } = ground (arith, w) in
        rw ip' (
          masked_v6 n.ip n.ones (ground (arith, w, p)) (ground (arith, w, h.short))
            (subst (λ b. mask n.ones b n.ip ≡ n.ip) w h.is_masked)
          ∙ ap some (sym n'))
  ]

  parse-canonical_text :
      (n : IpNet) → IsNet n → IsPlain n → parse_cidr syn (trim (canonical_text syn n)) ≡ some n
  unfolding canonical_text
  parse-canonical_text n h p =
      let short : n.ones ≤ 128 = ground (arith, h.sizes, h.short) in
      rw (trim-format syn (net_ip n) (itoa n.ones) (digit-IsGraph _ (itoa-IsDigit n.ones))) (
        parse_cidr-format syn (net_ip n) n.ones (itoa n.ones) (net_ip-lt n h)
          (dtoi-itoa n.ones short)
        ∙ reparse n h p)

  -- CanonicalCIDR takes its own result and leaves it as it is, if what it parsed is an IPv4 network
  -- or an IPv6 network that is not behind the IPv4 prefix.
  pub canonical_cidr_idem :
      (s : Text) (allow_v4 allow_v6 : Bool) (c : Text)
      → canonical_cidr syn s allow_v4 allow_v6 ≡ some c
      → ((n : IpNet) → parse_cidr syn (trim s) ≡ some n → IsPlain n)
      → canonical_cidr syn c allow_v4 allow_v6 ≡ some c
  unfolding canonical_cidr
  canonical_cidr_idem s allow_v4 allow_v6 c h plain =
      elim (Option-cases (parse_cidr syn (trim s))) [
        | inl e ↦ absurd (ground (arith, e))
        | inr (n, e) ↦
            let c' : canonical_text syn n ≡ c = ground (arith, e) in
            let again = parse-canonical_text n (parse_cidr-IsNet (trim s) n e) (plain n e) in
            let same : parse_cidr syn (trim c) ≡ parse_cidr syn (trim s) =
              subst (λ t. parse_cidr syn (trim t) ≡ some n) c' again ∙ sym e in
            ap (λ o. canonical syn o allow_v4 allow_v6) same ∙ h
      ]

  -- A network that prints as itself, of an allowed family.
  taken :
      (n : IpNet) (allow_v4 allow_v6 : Bool)
      → IsNet n
      → IsPlain n
      → canonical syn (some n) allow_v4 allow_v6 ≡ some (canonical_text syn n)
      → canonical_cidr syn (canonical_text syn n) allow_v4 allow_v6 ≡ some (canonical_text syn n)
  unfolding canonical_cidr
  taken n allow_v4 allow_v6 h p e =
      ap (λ o. canonical syn o allow_v4 allow_v6) (parse-canonical_text n h p) ∙ e

  texts : (itoa 24 ≡ text "24") × (itoa 32 ≡ text "32") × (itoa 128 ≡ text "128")
  unfolding itoa
  texts = (refl, refl, refl)

  -- A CIDR that CIDRForRequest returns is taken by CanonicalCIDR with the same families allowed,
  -- and is canonical already.
  pub canonical_cidr-request :
      (ip : Ip) (expand24 allow_expand allow_v4 allow_v6 : Bool) (c : Text)
      → ip < ip_end
      → cidr_for_request syn (some ip) expand24 allow_expand allow_v4 allow_v6 ≡ cidr c
      → canonical_cidr syn c allow_v4 allow_v6 ≡ some c
  unfolding cidr_for_request canonical canonical_text net_ip
  canonical_cidr-request ip expand24 allow_expand allow_v4 allow_v6 c h r =
      elim (Option-cases (to4 ip)) [
        | inl e ↦
            let n : IpNet = record { ip = ip; ones = 128; bits = 128 } in
            let c' : canonical_text syn n ≡ c = rw texts.2 (ground (arith, e)) in
            let t =
              taken n allow_v4 allow_v6
                (record { sizes = inr (refl, h); short = omega arith; is_masked = ground arith })
                (inr e) (ground (arith, e)) in
            subst (λ x. canonical_cidr syn x allow_v4 allow_v6 ≡ some x) c' t
        | inr (q, e) ↦ elim (Bool-cases (expand24 && allow_expand)) [
          | inl x ↦
              let n : IpNet = record { ip = mask 24 32 q; ones = 24; bits = 32 } in
              let c' : canonical_text syn n ≡ c = rw texts.0 (ground (arith, e, x)) in
              let t =
                taken n allow_v4 allow_v6
                  (record {
                    sizes = inl (refl, omega (arith, to4-eq_some ip q e));
                    short = omega arith;
                    is_masked = mask-mask 24 32 q;
                  })
                  (inl refl) (ground (arith, e)) in
              subst (λ y. canonical_cidr syn y allow_v4 allow_v6 ≡ some y) c' t
          | inr x ↦
              let n : IpNet = record { ip = q; ones = 32; bits = 32 } in
              let c' : canonical_text syn n ≡ c = rw texts.1 (ground (arith, e, x)) in
              let t =
                taken n allow_v4 allow_v6
                  (record {
                    sizes = inl (refl, omega (arith, to4-eq_some ip q e));
                    short = omega arith;
                    is_masked = ground arith;
                  })
                  (inl refl) (ground (arith, e)) in
              subst (λ y. canonical_cidr syn y allow_v4 allow_v6 ≡ some y) c' t
        ]
      ]

  v4_too_long : (ip ones : ℕ) → to4 ip ≢ none → 32 < ones → masked (addr_of ip) ones ≡ none
  unfolding masked addr_of
  v4_too_long ip ones mapped over = elim (Option-cases (to4 ip)) [
    | inl e ↦ absurd (mapped e)
    | inr (q, e) ↦ rw (e, addr_of) (ground (arith, over))
  ]

  parse_mapped :
      (n : IpNet)
      → IsNet n
      → n.bits ≡ 128
      → 32 < n.ones
      → to4 n.ip ≢ none
      → parse_cidr syn (trim (canonical_text syn n)) ≡ none
  unfolding canonical_text net_ip
  parse_mapped n h w over mapped =
      let short : n.ones ≤ 128 = ground (arith, w, h.short) in
      let ip' : net_ip n ≡ n.ip = ground (arith, w) in
      rw (trim-format syn (net_ip n) (itoa n.ones) (digit-IsGraph _ (itoa-IsDigit n.ones))) (
        parse_cidr-format syn (net_ip n) n.ones (itoa n.ones) (net_ip-lt n h)
          (dtoi-itoa n.ones short)
        ∙ rw ip' (v4_too_long n.ip n.ones mapped over))

  -- CanonicalCIDR refuses its own result for an IPv6 network behind the IPv4 prefix with more than
  -- 32 bits in its prefix.
  pub canonical_cidr_mapped :
      (s : Text) (allow_v4 allow_v6 : Bool) (c : Text) (n : IpNet)
      → canonical_cidr syn s allow_v4 allow_v6 ≡ some c
      → parse_cidr syn (trim s) ≡ some n
      → n.bits ≡ 128
      → 32 < n.ones
      → to4 n.ip ≢ none
      → canonical_cidr syn c allow_v4 allow_v6 ≡ none
  unfolding canonical_cidr canonical_text
  canonical_cidr_mapped s allow_v4 allow_v6 c n h e w over mapped =
      let c' : canonical_text syn n ≡ c = ground (arith, e) in
      let r = parse_mapped n (parse_cidr-IsNet (trim s) n e) w over mapped in
      subst (λ t. canonical syn (parse_cidr syn (trim t)) allow_v4 allow_v6 ≡ none) c'
        (ap (λ o. canonical syn o allow_v4 allow_v6) r)

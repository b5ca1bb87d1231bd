-- ===== src/Ipx/Request.antt =====
-- What is recorded for an address is a network that holds the address, and the receiver takes it
-- as it is.
use nft_auth_whitelist.Prelude.{
  ℕ, ◌≡◌, refl, ◌∙◌, ◌<◌, ◌+◌, inl, inr, none, some, ◌∷◌, ◌++◌, Bool, true, arith, All, All-append,
  Option-cases, Bool-cases, ◌&&◌,
}
use nft_auth_whitelist.Text.{Text, text, trim, trim_graph, cut-append, IsGraph, dtoi}
use nft_auth_whitelist.Net.Ip.{Ip, ip_end, v4_prefix, to4, to4-eq_some, addr_of, AddressSyntax}
use nft_auth_whitelist.Net.Cidr.{IpNet, mask, parse_cidr, masked, contains}
use nft_auth_whitelist.Ipx.Defs.{cidr, cidr_for_request}

module _ (syn : AddressSyntax) where
  open syn use {parse_addr, format, parse-format, format-graph, format-no_slash}

  -- A printed prefix is read as the address and the length that were printed.
  pub parse_cidr-format :
      (ip n : ℕ) (tail : Text)
      → ip < ip_end
      → dtoi tail ≡ some n
      → parse_cidr syn (format ip ++ b'/' ∷ tail) ≡ masked (addr_of ip) n
  unfolding parse_cidr
  parse_cidr-format ip n tail h e =
      rw (cut-append b'/' (format ip) tail (format-no_slash ip), parse-format ip h, e, parse_cidr)

  pub trim-format :
      (ip : ℕ) (tail : Text)
      → All IsGraph tail
      → trim (format ip ++ b'/' ∷ tail) ≡ format ip ++ b'/' ∷ tail
  trim-format ip tail h =
      trim_graph _ (All-append IsGraph (format ip) (b'/' ∷ tail) (format-graph ip) (omega arith, h))

  abbrev pub Holds : Text → Ip → Type 0
  Holds c ip = (n : IpNet) × (parse_cidr syn c ≡ some n) × (contains n ip ≡ true)

  lengths :
      (dtoi (text "24") ≡ some 24) × (dtoi (text "32") ≡ some 32) × (dtoi (text "128") ≡ some 128)
  unfolding dtoi
  lengths = (refl, refl, refl)

  wide : (ip q : ℕ) → to4 ip ≡ some q → Holds (format (v4_prefix + mask 24 32 q) ++ text "/24") ip
  unfolding addr_of contains masked
  wide ip q e =
      let e' = to4-eq_some ip q e in
      (
        record { ip = mask 24 32 q; ones = 24; bits = 32 },
        parse_cidr-format (v4_prefix + mask 24 32 q) 24 (text "24") (omega arith) lengths.0
            ∙ ground (arith, e'),
        ground (arith, e'),
      )

  narrow : (ip q : ℕ) → to4 ip ≡ some q → Holds (format (v4_prefix + q) ++ text "/32") ip
  unfolding addr_of contains masked
  narrow ip q e =
      let e' = to4-eq_some ip q e in
      (
        record { ip = q; ones = 32; bits = 32 },
        parse_cidr-format (v4_prefix + q) 32 (text "32") (omega arith) lengths.1
            ∙ ground (arith, e'),
        ground (arith, e'),
      )

  single : (ip : ℕ) → ip < ip_end → to4 ip ≡ none → Holds (format ip ++ text "/128") ip
  unfolding addr_of contains masked
  single ip h e = (
    record { ip = ip; ones = 128; bits = 128 },
    parse_cidr-format ip 128 (text "128") h lengths.2 ∙ ground (arith, e),
    ground (arith, e),
  )

  -- A CIDR that CIDRForRequest returns for an address parses as a network that contains the
  -- address.
  pub cidr_for_request-Holds :
      (ip : Ip) (expand24 allow_expand allow_v4 allow_v6 : Bool) (c : Text)
      → ip < ip_end
      → cidr_for_request syn (some ip) expand24 allow_expand allow_v4 allow_v6 ≡ cidr c
      → Holds c ip
  unfolding cidr_for_request
  cidr_for_request-Holds ip expand24 allow_expand allow_v4 allow_v6 c h r =
      elim (Option-cases (to4 ip)) [
        | inl e ↦
            let c' : format ip ++ text "/128" ≡ c = ground (arith, e) in rw (← c') (single ip h e)
        | inr (q, e) ↦ elim (Bool-cases (expand24 && allow_expand)) [
          | inl x ↦
              let c' : format (v4_prefix + mask 24 32 q) ++ text "/24" ≡ c = ground (arith, e, x) in
              rw (← c') (wide ip q e)
          | inr x ↦
              let c' : format (v4_prefix + q) ++ text "/32" ≡ c = ground (arith, e, x) in
              rw (← c') (narrow ip q e)
        ]
      ]

-- ===== src/ClientIp/Trust.antt =====
-- What a client can and cannot decide about the address that it is taken for.
use mathlib.Core.List.{reverse-append}
use nft_auth_whitelist.Prelude.{
  ℕ, Option, none, some, List, [], ◌∷◌, ◌++◌, ◌≡◌, refl, ap, ◌∙◌, ◌⊎◌, inl, inr, reverse, true,
  false, ◌==◌, arith, Bool-cases, Option-cases, All,
}
use nft_auth_whitelist.Text.{Text, text, text_eq, trim, split}
use nft_auth_whitelist.Net.Ip.{Ip, AddressSyntax}
use nft_auth_whitelist.Net.Cidr.{IpNet}
use nft_auth_whitelist.ClientIp.Defs.{
  Extractor, Request, Result, is_empty, peer_trusted, source_for_header, usable, remote_ip,
  part_decides, parts_loop, parse_x_forwarded_for, parse_single_ip, header_ip, headers_loop,
  extract_from, extract,
}

split-cons : (c : ℕ) (s : Text) → (p : Text) × (ps : List Text) × (split c s ≡ p ∷ ps)
unfolding split
split-cons c [] = ([], [], refl)
split-cons c (x ∷ s) = elim (Bool-cases (x == c)) [
  | inl e ↦ ([], split c s, rw (split, e))
  | inr e ↦ let (p, ps, h) = split-cons c s in (x ∷ p, ps, rw (split, e, h))
]

split-append : (c : ℕ) (s t : Text) → split c (s ++ c ∷ t) ≡ split c s ++ split c t
unfolding split
split-append c [] t = ground arith
split-append c (x ∷ s) t =
    let (p, ps, h) = split-cons c s in
    let ih = split-append c s t in
    elim (Bool-cases (x == c)) [ inl e ↦ ground (arith, e) | inr e ↦ ground (arith, e) ]

module _ (syn : AddressSyntax) where
  parts_loop-append :
      (trusted : List IpNet) (ps qs : List Text) (ip : Ip)
      → parts_loop syn trusted ps ≡ some ip
      → parts_loop syn trusted (ps ++ qs) ≡ some ip
  unfolding parts_loop
  parts_loop-append trusted [] qs ip h = cc
  parts_loop-append trusted (p ∷ ps) qs ip h = ground (arith, parts_loop-append trusted ps qs ip)

  -- An address that the end of X-Forwarded-For gives is the result whatever stands in front of a
  -- comma before it.
  pub parse_x_forwarded_for-append :
      (trusted : List IpNet) (s t : Text) (ip : Ip)
      → parse_x_forwarded_for syn trusted t ≡ some ip
      → parse_x_forwarded_for syn trusted (s ++ b',' ∷ t) ≡ some ip
  unfolding parse_x_forwarded_for
  parse_x_forwarded_for-append trusted s t ip h =
      rw (split-append b',' s t, reverse-append)
        (parts_loop-append trusted (reverse (split b',' t)) _ ip h)

  parts_loop-usable :
      (trusted : List IpNet) (ps : List Text) (ip : Ip)
      → parts_loop syn trusted ps ≡ some ip
      → (usable ip ≡ true) × (peer_trusted trusted ip ≡ false)
  unfolding parts_loop part_decides
  parts_loop-usable trusted [] ip h = cc
  parts_loop-usable trusted (p ∷ ps) ip h = ground (arith, parts_loop-usable trusted ps ip)

  -- The header gives the address: it is not blank, and is taken for a usable address.
  pub record Gives (e : Extractor) (value : Text → Text) (h : Text) (ip : Ip) : Type 0 where
    pub not_blank : is_empty (trim (value h)) ≡ false
    pub given : header_ip syn e.trusted (source_for_header h) (value h) ≡ some ip
    pub is_usable : usable ip ≡ true
    pub not_proxy :
        text_eq (source_for_header h) (text "x-forwarded-for") ≡ true
        → peer_trusted e.trusted ip ≡ false

  -- The header is blank, or holds no usable address.
  abbrev pub Silent : Extractor → (Text → Text) → Text → Type 0
  Silent e value h =
      (is_empty (trim (value h)) ≡ true)
      ⊎ (header_ip syn e.trusted (source_for_header h) (value h) ≡ none)

  -- The header is the first of the list that gives an address.
  pub record IsFirst (e : Extractor) (value : Text → Text) (hs : List Text) (h : Text) (ip : Ip)
      : Type 0 where
    pub before : List Text
    pub behind : List Text
    pub place : hs ≡ before ++ h ∷ behind
    pub silent : All (Silent e value) before
    pub gives : Gives e value h ip

  -- The address is the one that the first header gives.
  pub record FromHeader (e : Extractor) (r : Request) (res : Result) : Type 0 where
    pub ip : Ip
    pub name : Text
    pub first : IsFirst e r.header e.headers name ip
    pub client : res.client_ip ≡ some ip
    pub source : res.source ≡ source_for_header name

  -- The result that rests on the peer alone.
  abbrev pub peer_result : Option Ip → Result
  peer_result ip = record { client_ip = ip; source = text "remote_addr"; remote = ip }

  header_ip-usable :
      (trusted : List IpNet) (source value : Text) (ip : Ip)
      → header_ip syn trusted source value ≡ some ip
      → (usable ip ≡ true)
        × (text_eq source (text "x-forwarded-for") ≡ true → peer_trusted trusted ip ≡ false)
  unfolding header_ip parse_x_forwarded_for parse_single_ip
  header_ip-usable trusted source value ip h =
      elim (Bool-cases (text_eq source (text "x-forwarded-for"))) [
        | inl t ↦
            let (u, n) =
              parts_loop-usable trusted (reverse (split b',' value)) ip (ground (arith, t)) in
            (u, λ x. n)
        | inr t ↦ (ground (arith, t), λ x. absurd (cc))
      ]

  headers_loop-gives :
      (e : Extractor) (value : Text → Text) (hs : List Text) (res : Result)
      → (All (Silent e value) hs × (headers_loop syn e.trusted value hs res ≡ res))
        ⊎ ((ip : Ip) × (name : Text) × IsFirst e value hs name ip
            × (headers_loop syn e.trusted value hs res ≡ (
                let r : Result = record res {
                  client_ip = some ip;
                  source = source_for_header name;
                } in
                r)))
  unfolding headers_loop
  headers_loop-gives e value [] res = inl (tt, refl)
  headers_loop-gives e value (h ∷ hs) res =
      let later =
        λ (q : Silent e value h)
            (s : headers_loop syn e.trusted value (h ∷ hs) res
              ≡ headers_loop syn e.trusted value hs res).
          go q s (headers_loop-gives e value hs res) in
      elim (Bool-cases (is_empty (trim (value h)))) [
        | inl b ↦ later (inl b) (rw (headers_loop, b))
        | inr b ↦ elim (Option-cases (header_ip syn e.trusted (source_for_header h) (value h))) [
          | inl n ↦ later (inr n) (rw (headers_loop, b, n))
          | inr (ip, g) ↦
              let (u, p) = header_ip-usable e.trusted (source_for_header h) (value h) ip g in
              let gives : Gives e value h ip = record {
                not_blank = b;
                given = g;
                is_usable = u;
                not_proxy = p;
              } in
              inr (
                ip,
                h,
                record { before = []; behind = hs; place = refl; silent = tt; gives = gives },
                rw (headers_loop, b, g),
              )
        ]
      ]
    where
      go :
          Silent e value h
          → headers_loop syn e.trusted value (h ∷ hs) res ≡ headers_loop syn e.trusted value hs res
          → (All (Silent e value) hs × (headers_loop syn e.trusted value hs res ≡ res))
            ⊎ ((ip : Ip) × (name : Text) × IsFirst e value hs name ip
                × (headers_loop syn e.trusted value hs res ≡ (
                    let r : Result = record res {
                      client_ip = some ip;
                      source = source_for_header name;
                    } in
                    r)))
          → (All (Silent e value) (h ∷ hs) × (headers_loop syn e.trusted value (h ∷ hs) res ≡ res))
            ⊎ ((ip : Ip) × (name : Text) × IsFirst e value (h ∷ hs) name ip
                × (headers_loop syn e.trusted value (h ∷ hs) res ≡ (
                    let r : Result = record res {
                      client_ip = some ip;
                      source = source_for_header name;
                    } in
                    r)))
      go q s (inl (a, f)) = inl ((q, a), s ∙ f)
      go q s (inr (ip, name, g, f)) = inr (
        ip,
        name,
        record {
          before = h ∷ g.before;
          behind = g.behind;
          place = ap (◌∷◌ h) g.place;
          silent = (q, g.silent);
          gives = g.gives;
        },
        s ∙ f,
      )

  -- Behind a trusted peer Extract gives the peer's address if every configured header is blank or
  -- holds no usable address, and otherwise the usable address that the first other header gives,
  -- with that header's name as the source; an address from X-Forwarded-For is then no trusted
  -- proxy.
  pub extract-FromHeader :
      (e : Extractor) (r : Request) (peer : Ip)
      → remote_ip syn r.remote_addr ≡ some peer
      → peer_trusted e.trusted peer ≡ true
      → (All (Silent e r.header) e.headers × (extract syn e r ≡ peer_result (some peer)))
        ⊎ FromHeader e r (extract syn e r)
  unfolding extract
  extract-FromHeader e r ip n t =
      let same : extract syn e r
          ≡ headers_loop syn e.trusted r.header e.headers (peer_result (some ip)) =
        rw (extract, n, extract_from, t) in
      elim (headers_loop-gives e r.header e.headers (peer_result (some ip))) [
        | inl (a, f) ↦ inl (a, same ∙ f)
        | inr (ip', name, g, f) ↦ inr (record {
          ip = ip';
          name = name;
          first = g;
          client = ap (λ x. x.client_ip) (same ∙ f);
          source = ap (λ x. x.source) (same ∙ f);
        })
      ]

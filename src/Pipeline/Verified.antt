-- ===== src/Pipeline/Verified.antt =====
-- VerifyAndFilter: when it accepts, and what it then keeps.
use mathlib.Core.List.{append-nil, append_assoc}
use nft_auth_whitelist.Prelude.{
  ◌<◌, Option, none, some, List, [], ◌∷◌, ◌++◌, ◌≡◌, refl, sym, ap, ◌∙◌, ◌↔◌, ◌⊎◌, inl, inr, true,
  false, arith, if◌then◌else◌, length, map, Bool-cases,
}
use nft_auth_whitelist.Prelude.Int.{ℤ, pos, negsuc, ltb_ℤ}
use nft_auth_whitelist.Prelude.Sort.{IsStrict}
use nft_auth_whitelist.Text.{Text, text_eq, text_lt, text_eq_iff}
use nft_auth_whitelist.Clock.{Time, after}
use nft_auth_whitelist.Signer.{Entry, Envelope, Crypto, verify}
use nft_auth_whitelist.Net.Ip.{AddressSyntax}
use nft_auth_whitelist.Ipx.{canonical_cidr}
use nft_auth_whitelist.Audit.{Log}
use nft_auth_whitelist.Pipeline.Lines.{has, has-lines, lines, lines-IsStrict}
use nft_auth_whitelist.Pipeline.Defs.{
  Params, Result, filtered, filter_step, filter_loop, keep_entry, verify_and_filter, sorted_result,
  is_one,
}

module _ (crypto : Crypto) (syn : AddressSyntax) where
  -- The CIDR that an entry gives to the list at a time, if any.
  abbrev pub accepts : Params → Time → Entry → Option Text
  accepts p now e =
      if after e.expires_at now then canonical_cidr syn e.cidr p.allow_ipv4 p.allow_ipv6 else none

  -- Some entry gives the CIDR.
  abbrev pub SomeAccepted : Params → Time → Text → List Entry → Type 0
  SomeAccepted p now c [] = ⊥
  SomeAccepted p now c (e ∷ es) = (accepts p now e ≡ some c) ⊎ SomeAccepted p now c es

  -- The entries that give one, with the CIDR in its canonical form, in their order.
  abbrev keep_some : Entry → Option Text → List Entry → List Entry
  keep_some e none es = es
  keep_some e (some canon) es = record e { cidr = canon } ∷ es

  abbrev pub accepted : Params → Time → List Entry → List Entry
  accepted p now [] = []
  accepted p now (e ∷ es) = keep_some e (accepts p now e) (accepted p now es)

  abbrev cidrs_of : List Entry → List Text
  cidrs_of = map (λ e. e.cidr)

  step-eq :
      (p : Params) (now : Time) (e : Entry) (r : Result)
      → filter_step crypto syn p now e r ≡ keep_entry crypto syn e (accepts p now e) r
  unfolding filter_step keep_entry
  step-eq p now e r = elim (Bool-cases (after e.expires_at now)) [ inl t ↦ rw t | inr t ↦ rw t ]

  kept_more :
      (e : Entry) (o : Option Text) (r : Result) (es : List Entry)
      → record {
        kept = (keep_entry crypto syn e o r).kept ++ es;
        cidrs = (keep_entry crypto syn e o r).cidrs ++ cidrs_of es;
      }
        ≡ (let r' : Result = record {
          kept = r.kept ++ keep_some e o es;
          cidrs = r.cidrs ++ cidrs_of (keep_some e o es);
        } in
            r')
  unfolding keep_entry
  kept_more e none r es = refl
  kept_more e (some canon) r es = λ i. record {
    kept = append_assoc r.kept (record e { cidr = canon } ∷ []) es i;
    cidrs = append_assoc r.cidrs (canon ∷ []) (cidrs_of es) i;
  }

  -- The loop collects what the entries give, in their order.
  filter_loop-eq :
      (p : Params) (now : Time) (es : List Entry) (r : Result)
      → filter_loop crypto syn p now es r ≡ record {
        kept = r.kept ++ accepted p now es;
        cidrs = r.cidrs ++ cidrs_of (accepted p now es);
      }
  unfolding filter_loop
  filter_loop-eq p now [] r =
      sym (λ i. record { kept = append-nil r.kept i; cidrs = append-nil r.cidrs i })
  filter_loop-eq p now (e ∷ es) r =
      filter_loop-eq p now es (filter_step crypto syn p now e r)
      ∙ rw (step-eq p now e r) (kept_more e (accepts p now e) r (accepted p now es))

  has_keep :
      (e : Entry) (c : Text) (o : Option Text) (es : List Entry) (S : Type 0)
      → (has c (cidrs_of es) ≡ true) ↔ S
      → (has c (cidrs_of (keep_some e o es)) ≡ true) ↔ ((o ≡ some c) ⊎ S)
  unfolding has
  has_keep e c none es S ih = (λ h. inr (ih.0 h), elim [ inl x ↦ absurd (cc) | inr s ↦ ih.1 s ])
  has_keep e c (some canon) es S ih = (
    λ h. elim (Bool-cases (text_eq canon c)) [
      | inl t ↦ inl (ap some ((text_eq_iff canon c).0 t))
      | inr t ↦ inr (ih.0 (ground arith))
    ],
    elim [
      | inl x ↦ let t = (text_eq_iff canon c).1 (cc) in ground (arith, t)
      | inr s ↦ let t = ih.1 s in ground (arith, t)
    ],
  )

  has-accepted :
      (p : Params) (now : Time) (c : Text) (es : List Entry)
      → (has c (cidrs_of (accepted p now es)) ≡ true) ↔ SomeAccepted p now c es
  unfolding has
  has-accepted p now c [] = (λ h. absurd (cc), λ h. absurd h)
  has-accepted p now c (e ∷ es) =
      has_keep e c (accepts p now e) (accepted p now es) (SomeAccepted p now c es)
        (has-accepted p now c es)

  abbrev collected : Params → Time → List Entry → Result
  collected p now es =
      sorted_result crypto syn (filter_loop crypto syn p now es (record { kept = []; cidrs = [] }))

  collected-eq :
      (p : Params) (now : Time) (es : List Entry)
      → collected p now es
        ≡ record { kept = accepted p now es; cidrs = lines (cidrs_of (accepted p now es)) }
  unfolding sorted_result
  collected-eq p now es = ap (sorted_result crypto syn) (filter_loop-eq p now es _)

  version_of : (n : ℤ) → is_one n ≡ true → n ≡ pos 1
  unfolding is_one
  version_of (pos n) h = ground arith
  version_of (negsuc n) h = cc

  one_IsOne : is_one (pos 1) ≡ true
  unfolding is_one
  one_IsOne = refl

  -- The conditions under which an envelope is taken.
  pub record IsTaken (env : Envelope) (p : Params) (now : Time) : Type 0 where
    pub genuine : verify crypto env p.hmac_secret ≡ true
    pub version_one : env.version ≡ pos 1
    pub fresh : now < env.expires_at
    pub within : ltb_ℤ p.max_entries (pos (length env.entries)) ≡ false

  -- What `VerifyAndFilter` promises of a result.
  pub record IsVerified (env : Envelope) (p : Params) (now : Time) (r : Result) : Type 0 where
    pub taken : IsTaken env p now
    pub ascending : IsStrict text_lt r.cidrs
    pub exact : (c : Text) → (has c r.cidrs ≡ true) ↔ SomeAccepted p now c env.entries
    pub kept : r.kept ≡ accepted p now env.entries

  module _ (env : Envelope) (p : Params) (al : Log) (now : Time) where
    IsTaken-of_filtered :
        (r : Result)
        → (verify_and_filter crypto syn env p al now).0 ≡ filtered r
        → IsTaken env p now × (collected p now env.entries ≡ r)
    unfolding verify_and_filter is_one
    IsTaken-of_filtered r h = (
      record {
        genuine = ground arith;
        version_one = version_of env.version (ground arith);
        fresh = ground arith;
        within = ground arith;
      },
      ground arith,
    )

    filtered_of_taken :
        IsTaken env p now
        → (verify_and_filter crypto syn env p al now).0 ≡ filtered (collected p now env.entries)
    unfolding verify_and_filter
    filtered_of_taken t =
        let g = t.genuine in
        let w = t.within in
        let f = t.fresh in
        let v : is_one env.version ≡ true = rw t.version_one one_IsOne in ground (arith, g, w, f, v)

    -- VerifyAndFilter returns a result exactly if the signature is right, the version is 1, the
    -- envelope expires later than now, and it has at most max_entries entries.
    pub verify_and_filter_iff :
        ((r : Result) × ((verify_and_filter crypto syn env p al now).0 ≡ filtered r))
        ↔ IsTaken env p now
    verify_and_filter_iff = (λ h. (IsTaken-of_filtered h.0 h.1).0, λ t. (_, filtered_of_taken t))

    -- If VerifyAndFilter returns a result, then the signature is right, the version is 1, the
    -- envelope expires later than now and has at most max_entries entries; the CIDRs ascend
    -- strictly, and are exactly those canonical CIDRs that the unexpired entries of allowed
    -- families give; and the entries kept are those entries, in their order, each under its
    -- canonical CIDR.
    pub verify_and_filter-IsVerified :
        (r : Result)
        → (verify_and_filter crypto syn env p al now).0 ≡ filtered r
        → IsVerified env p now r
    verify_and_filter-IsVerified r h =
        let (t, e) = IsTaken-of_filtered r h in
        let e' = sym e ∙ collected-eq p now env.entries in
        record {
          taken = t;
          ascending = rw e' (lines-IsStrict (cidrs_of (accepted p now env.entries)));
          exact = λ c. rw (e', has-lines) (has-accepted p now c env.entries);
          kept = ap (λ x. x.kept) e';
        }

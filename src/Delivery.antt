-- ===== src/Delivery.antt =====
-- From the store of cmd/auth-server to the list of a receiver: what BuildEnvelope signs is accepted
-- by VerifyAndFilter, and the list holds what the store held.
pub mod Applied
pub mod Pulled
use mathlib.Core.List.Permᴰ
use nft_auth_whitelist.Prelude.{
  ◌<◌, some, List, ◌∷◌, ◌≡◌, ◌↔◌, inl, inr, true, false, length, Permᴰ,
}
use nft_auth_whitelist.Prelude.Int.{pos, ltb_ℤ}
use nft_auth_whitelist.Dict.{MapOrder}
use nft_auth_whitelist.Text.{Text}
use nft_auth_whitelist.Clock.{Time, Duration, add, truncate}
use nft_auth_whitelist.Signer.{Entry, Envelope, Crypto}
use nft_auth_whitelist.Net.Ip.{AddressSyntax}
use nft_auth_whitelist.Audit.{Log}
use nft_auth_whitelist.Store.{Store, build_envelope}
use nft_auth_whitelist.Store.Snapshot.{IsValid, current, build_envelope-IsFresh}
use nft_auth_whitelist.Pipeline.{Params, Result, filtered, verify_and_filter}
use nft_auth_whitelist.Pipeline.Lines.{has}
use nft_auth_whitelist.Pipeline.Verified.{
  SomeAccepted, IsTaken, verify_and_filter_iff, verify_and_filter-IsVerified,
}

module _ (crypto : Crypto) (syn : AddressSyntax) where
  SomeAccepted-perm :
      (p : Params) (now : Time) (c : Text) {xs ys : List Entry}
      → Permᴰ xs ys
      → SomeAccepted crypto syn p now c xs
      → SomeAccepted crypto syn p now c ys
  SomeAccepted-perm p now c Permᴰ.nil h = h
  SomeAccepted-perm p now c (Permᴰ.cons {a} {b} {l₁} {l₂} e q) (inl x) = inl (rw (← e) x)
  SomeAccepted-perm p now c (Permᴰ.cons {a} {b} {l₁} {l₂} e q) (inr s) =
      inr (SomeAccepted-perm p now c q s)
  SomeAccepted-perm p now c (Permᴰ.swap {a} {b} {a'} {b'} {l} e f) h = rw (← e, ← f) (exchange h)
    where
      exchange :
          SomeAccepted crypto syn p now c (a ∷ b ∷ l) → SomeAccepted crypto syn p now c (b ∷ a ∷ l)
      exchange (inl x) = inr (inl x)
      exchange (inr (inl x)) = inl x
      exchange (inr (inr x)) = inr (inr x)
  SomeAccepted-perm p now c (Permᴰ.trans q r) h =
      SomeAccepted-perm p now c r (SomeAccepted-perm p now c q h)

  module _ (ord : MapOrder Entry) (now later : Time) (ttl : Duration) (s : Store) (env : Envelope)
      (p : Params) (al : Log) where
    -- If the server's store is valid and BuildEnvelope signs it under the receiver's secret, and
    -- the envelope has not expired and is within max_entries, then VerifyAndFilter accepts it, and
    -- its list holds exactly the CIDRs that the current entries of the store give to a receiver
    -- with these settings at that time.
    pub envelope_delivered :
        IsValid s
        → build_envelope crypto ord now ttl p.hmac_secret s ≡ some env
        → later < truncate (add (truncate now) ttl)
        → ltb_ℤ p.max_entries (pos (length env.entries)) ≡ false
        → (res : Result) × ((verify_and_filter crypto syn env p al later).0 ≡ filtered res)
          × ((c : Text)
              → (has c res.cidrs ≡ true)
                ↔ SomeAccepted crypto syn p later c (current (truncate now) s.entries))
    envelope_delivered v b l m =
        let f = build_envelope-IsFresh crypto now ttl p.hmac_secret s v ord b in
        let taken : IsTaken crypto syn env p later = record {
          genuine = f.accepted;
          version_one = f.version_one;
          fresh = rw f.expiry l;
          within = m;
        } in
        let (res, e) = (verify_and_filter_iff crypto syn env p al later).1 taken in
        let exact = (verify_and_filter-IsVerified crypto syn env p al later res e).exact in
        (
          res,
          e,
          λ c. (
            λ h. SomeAccepted-perm p later c f.export.exact ((exact c).0 h),
            λ h. (exact c).1 (SomeAccepted-perm p later c (Permᴰ.symm f.export.exact) h),
          ),
        )

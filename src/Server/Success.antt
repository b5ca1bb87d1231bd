-- ===== src/Server/Success.antt =====
-- What a page that reports a success means.
use nft_auth_whitelist.Prelude.{
  Option, none, some, ◌≡◌, inl, inr, refl, sym, ap, ◌∙◌, true, false, Bool-cases, Option-cases,
}
use nft_auth_whitelist.Text.{Text, text, text_eq}
use nft_auth_whitelist.Clock.{seconds}
use nft_auth_whitelist.Net.Ip.{Ip}
use nft_auth_whitelist.Ipx.{CidrResult, cidr, refused}
use nft_auth_whitelist.Auth.{check_basic_auth}
use nft_auth_whitelist.ClientIp.{Extractor, extract}
use nft_auth_whitelist.RateLimit.{blocked}
use nft_auth_whitelist.Signer.{Entry}
use nft_auth_whitelist.Store.{Logged, record_entry}
use nft_auth_whitelist.Server.Defs.{Server, ServerConfig, Request, World, Page}
use nft_auth_whitelist.Server.Push.{purge_logged}
use nft_auth_whitelist.Server.Root.{
  frozen, deny, after_record, record_cidr, request_cidr, admit, with_source, respond, handle_root,
  is_other,
}
use nft_auth_whitelist.Server.Access.{IsAdmitted, IsLet, method_cases}

-- The entry that a page shows as recorded.
abbrev pub shown : Page → Option Entry
shown (Page.success e results) = some e
shown _ = none

module _ (cfg : ServerConfig) (w : World) (client : Extractor) (r : Request) (s : Server) where
  -- What `Record` is called with, after the purge.
  abbrev pub recorded : Ip → Text → Logged
  recorded ip range =
      let p = (purge_logged w w.purged_at s).1 in
      record_entry w.store_json w.entry_order w.record_io range (w.syn.format ip) (text "web_auth")
        w.recorded_at (seconds cfg.ttl_seconds) p.store p.disk

  pub record IsSuccess (e : Entry) : Type 0 where
    pub ip : Ip
    pub range : Text
    pub admitted : IsAdmitted cfg w client r ip
    pub allowed : request_cidr cfg w r ip ≡ cidr range
    pub written : (recorded ip range).error ≡ none
    pub entry : (recorded ip range).result.entry ≡ e

  deny-shown : (peer key : Text) → shown (deny cfg w peer key r s).0 ≡ none
  unfolding deny
  deny-shown peer key = elim (Bool-cases (blocked w.bucket_order s.limiter key w.failed_at).0) [
    | inl b ↦ simp (deny, b)
    | inr b ↦ simp (deny, b)
  ]

  after_record-shown :
      (peer : Text) (ip : Ip) (source : Text) (l : Logged) (t : Server) (e : Entry)
      → shown (after_record cfg w r peer ip source l t).0 ≡ some e
      → (l.error ≡ none) × (l.result.entry ≡ e)
  unfolding after_record
  after_record-shown peer ip source l t e h = elim (Option-cases l.error) [
    | inl n ↦
        let page : shown (after_record cfg w r peer ip source l t).0 ≡ some l.result.entry =
          simp (after_record, n) in
        (n, cc)
    | inr (x, n) ↦
        let page : shown (after_record cfg w r peer ip source l t).0 ≡ none =
          simp (after_record, n) in
        absurd (cc)
  ]

  record_cidr-shown :
      (peer : Text) (ip : Ip) (source : Text) (e : Entry)
      → IsAdmitted cfg w client r ip
      → (o : CidrResult) → request_cidr cfg w r ip ≡ o
      → shown (record_cidr cfg w r peer ip source o (purge_logged w w.purged_at s).1).0 ≡ some e
      → IsSuccess e
  unfolding record_cidr
  record_cidr-shown peer ip source e a (refused x) k h = absurd (cc)
  record_cidr-shown peer ip source e a (cidr c) k h =
      let (n, same) =
        after_record-shown peer ip source (recorded ip c) (purge_logged w w.purged_at s).1 e h in
      record { ip = ip; range = c; admitted = a; allowed = k; written = n; entry = same }

  with_source-shown :
      (peer source : Text) (o : Option Ip) (e : Entry)
      → IsLet cfg w client r s
      → (extract w.syn client r.client).client_ip ≡ o
      → shown (with_source cfg w r peer o source s).0 ≡ some e
      → IsSuccess e
  unfolding with_source admit
  with_source-shown peer source none e a k h = absurd (cc)
  with_source-shown peer source (some ip) e a k h =
      elim (method_cases cfg w client r s r.method a.method) [
        | inl m ↦
            let page : shown (with_source cfg w r peer (some ip) source s).0 ≡ none =
              simp (with_source, m) in
            absurd (cc)
        | inr m ↦
            let admitted : IsAdmitted cfg w client r ip = record {
              path = a.path;
              method = m;
              authenticated = a.authenticated;
              not_frozen = a.not_frozen;
              source = k;
            } in
            let page : with_source cfg w r peer (some ip) source s
                ≡ admit cfg w r peer ip source s =
              simp (with_source, m) in
            record_cidr-shown peer ip source e admitted _ refl (ap (λ a. shown a.0) (sym page) ∙ h)
      ]

  respond-shown :
      (e : Entry)
      → text_eq r.path (text "/") ≡ true
      → is_other r.method ≡ false
      → shown (respond cfg w r (extract w.syn client r.client) s).0 ≡ some e
      → IsSuccess e
  unfolding respond
  respond-shown e p m h =
      elim (Bool-cases (check_basic_auth w.sha r.credentials cfg.username cfg.password)) [
        | inr b ↦
            let page : shown (respond cfg w r (extract w.syn client r.client) s).0 ≡ none =
              simp (respond, b) (deny-shown _ _) in
            absurd (cc)
        | inl b ↦ elim (Bool-cases (frozen cfg w)) [
          | inl f ↦
              let page : shown (respond cfg w r (extract w.syn client r.client) s).0 ≡ none =
                simp (respond, b, f) in
              absurd (cc)
          | inr f ↦
              with_source-shown _ _ _ e
                (record { path = p; method = m; authenticated = b; not_frozen = f }) refl
                (simp (respond, b, f) at h)
        ]
      ]

  -- If the handler of / answers with a page that shows an entry as recorded, then the request is a
  -- POST to / with the right credentials, no freeze is on, Extract gives the client's address,
  -- CIDRForRequest allows a CIDR for it, and after a purge Record returns this entry for that CIDR
  -- and address, without an error from the write.
  pub handle_root-IsSuccess :
      (e : Entry) → shown (handle_root cfg w client r s).0 ≡ some e → IsSuccess e
  unfolding handle_root
  handle_root-IsSuccess e h = elim (Bool-cases (text_eq r.path (text "/"))) [
    | inr p ↦
        let page : shown (handle_root cfg w client r s).0 ≡ none = simp (handle_root, p) in
        absurd (cc)
    | inl p ↦ elim (Bool-cases (is_other r.method)) [
      | inl m ↦
          let page : shown (handle_root cfg w client r s).0 ≡ none = simp (handle_root, p, m) in
          absurd (cc)
      | inr m ↦
          let page : handle_root cfg w client r s
              ≡ respond cfg w r (extract w.syn client r.client) s =
            simp (handle_root, p, m) in
          respond-shown e p m (ap (λ a. shown a.0) (sym page) ∙ h)
    ]
  ]

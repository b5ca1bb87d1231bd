-- ===== src/Server/Access.antt =====
-- Who can have an address recorded.
use nft_auth_whitelist.Prelude.{
  Option, none, some, ◌≡◌, ◌⊎◌, inl, inr, refl, true, false, Bool-cases, Option-cases,
}
use nft_auth_whitelist.Text.{Text, text, text_eq}
use nft_auth_whitelist.Clock.{seconds}
use nft_auth_whitelist.Net.Ip.{Ip}
use nft_auth_whitelist.Ipx.{CidrResult, cidr, refused}
use nft_auth_whitelist.Auth.{check_basic_auth}
use nft_auth_whitelist.ClientIp.{Extractor, extract}
use nft_auth_whitelist.Store.{Logged, record_entry}
use nft_auth_whitelist.Server.Defs.{
  Server, ServerConfig, Request, Method, get, post, other, World, Page,
}
use nft_auth_whitelist.Server.Push.{purge_logged}
use nft_auth_whitelist.RateLimit.{blocked}
use nft_auth_whitelist.Server.Pushing.{do_push-IsPush}
use nft_auth_whitelist.Server.Root.{
  frozen, deny, pushed, after_record, record_cidr, request_cidr, admit, with_source, respond,
  handle_root, is_other,
}

-- A request that may change what is recorded.
pub record IsAdmitted (cfg : ServerConfig) (w : World) (client : Extractor) (r : Request) (ip : Ip)
    : Type 0 where
  pub path : text_eq r.path (text "/") ≡ true
  pub method : r.method ≡ post
  pub authenticated : check_basic_auth w.sha r.credentials cfg.username cfg.password ≡ true
  pub not_frozen : frozen cfg w ≡ false
  pub source : (extract w.syn client r.client).client_ip ≡ some ip

-- The store and the disk are the old ones, nothing is pushed, and no notice is sent.
pub record IsUntouched (s : Server) (a : Page × Server) : Type 0 where
  pub store : a.1.store ≡ s.store
  pub disk : a.1.disk ≡ s.disk
  pub notices : a.1.notices ≡ s.notices

-- What Record leaves after the purge.
abbrev pub record_purged : ServerConfig → World → Text → Ip → Server → Logged
record_purged cfg w range ip s =
    let p = (purge_logged w w.purged_at s).1 in
    record_entry w.store_json w.entry_order w.record_io range (w.syn.format ip) (text "web_auth")
      w.recorded_at (seconds cfg.ttl_seconds) p.store p.disk

-- The address was recorded: by an admitted request, after a purge, and with the source address.
pub record IsRecorded (cfg : ServerConfig) (w : World) (client : Extractor) (r : Request)
    (s : Server) (a : Page × Server) : Type 0 where
  pub ip : Ip
  pub admitted : IsAdmitted cfg w client r ip
  pub range : Text
  pub allowed : request_cidr cfg w r ip ≡ cidr range
  pub store : a.1.store ≡ (record_purged cfg w range ip s).store
  pub disk : a.1.disk ≡ (record_purged cfg w range ip s).disk

-- The address was refused by its family, after a purge.
pub record IsPurged (cfg : ServerConfig) (w : World) (client : Extractor) (r : Request) (s : Server)
    (a : Page × Server) : Type 0 where
  pub ip : Ip
  pub admitted : IsAdmitted cfg w client r ip
  pub page : a.0 ≡ Page.family_refused
  pub store : a.1.store ≡ (purge_logged w w.purged_at s).1.store
  pub disk : a.1.disk ≡ (purge_logged w w.purged_at s).1.disk

module _ (cfg : ServerConfig) (w : World) (client : Extractor) (r : Request) (s : Server) where
  abbrev pub Access : Page × Server → Type 0
  Access a = IsUntouched s a ⊎ (IsRecorded cfg w client r s a ⊎ IsPurged cfg w client r s a)

  deny-IsUntouched : (peer key : Text) → IsUntouched s (deny cfg w peer key r s)
  unfolding deny
  deny-IsUntouched peer key =
      elim (Bool-cases (blocked w.bucket_order s.limiter key w.failed_at).0) [
        | inl e ↦ rw (deny, e) (record { store = refl; disk = refl; notices = refl })
        | inr e ↦ rw (deny, e) (record { store = refl; disk = refl; notices = refl })
      ]

  pushed-store :
      (t : Server) → ((pushed cfg w t).1.store ≡ t.store) × ((pushed cfg w t).1.disk ≡ t.disk)
  unfolding pushed
  pushed-store t = elim (Bool-cases cfg.push.enabled) [
    | inl e ↦ let k = (do_push-IsPush cfg w w.pushed_at t).0 in simp (pushed, e) (k.store, k.disk)
    | inr e ↦ simp (pushed, e) (refl, refl)
  ]

  after_record-store :
      (peer : Text) (ip : Ip) (source : Text) (l : Logged) (t : Server)
      → ((after_record cfg w r peer ip source l t).1.store ≡ l.store)
        × ((after_record cfg w r peer ip source l t).1.disk ≡ l.disk)
  unfolding after_record
  after_record-store peer ip source l t = elim (Option-cases l.error) [
    | inl e ↦ rw (after_record, e) (pushed-store _)
    | inr (x, e) ↦ rw (after_record, e) (refl, refl)
  ]

  admit-Access :
      (peer : Text) (ip : Ip) (source : Text)
      → IsAdmitted cfg w client r ip
      → (o : CidrResult) → request_cidr cfg w r ip ≡ o
      → IsRecorded cfg w client r s
          (record_cidr cfg w r peer ip source o (purge_logged w w.purged_at s).1)
        ⊎ IsPurged cfg w client r s
            (record_cidr cfg w r peer ip source o (purge_logged w w.purged_at s).1)
  unfolding record_cidr
  admit-Access peer ip source a (refused e) h =
      inr (record { ip = ip; admitted = a; page = refl; store = refl; disk = refl })
  admit-Access peer ip source a (cidr c) h =
      let (st, di) =
        after_record-store peer ip source (record_purged cfg w c ip s)
          (purge_logged w w.purged_at s).1 in
      inl (record { ip = ip; admitted = a; range = c; allowed = h; store = st; disk = di })

  untouched : (page : Page) → IsUntouched s (page, s)
  untouched page = record { store = refl; disk = refl; notices = refl }

  pub method_cases : (m : Method) → is_other m ≡ false → (m ≡ get) ⊎ (m ≡ post)
  method_cases get h = inl refl
  method_cases post h = inr refl
  method_cases other h = cc

  -- What holds of a request that is let in, its address aside.
  pub record IsLet : Type 0 where
    pub path : text_eq r.path (text "/") ≡ true
    pub method : is_other r.method ≡ false
    pub authenticated : check_basic_auth w.sha r.credentials cfg.username cfg.password ≡ true
    pub not_frozen : frozen cfg w ≡ false

  source_cases :
      (peer source : Text) (o : Option Ip)
      → IsLet
      → (extract w.syn client r.client).client_ip ≡ o
      → Access (with_source cfg w r peer o source s)
  unfolding with_source admit
  source_cases peer source none a h = inl (record { store = refl; disk = refl; notices = refl })
  source_cases peer source (some ip) a h = elim (method_cases r.method a.method) [
    | inl m ↦ simp (with_source, m) (inl (untouched (Page.form ip)))
    | inr m ↦
        let admitted : IsAdmitted cfg w client r ip = record {
          path = a.path;
          method = m;
          authenticated = a.authenticated;
          not_frozen = a.not_frozen;
          source = h;
        } in
        simp (with_source, m) (inr (admit-Access peer ip source admitted _ refl))
  ]

  respond-Access :
      text_eq r.path (text "/") ≡ true
      → is_other r.method ≡ false
      → Access (respond cfg w r (extract w.syn client r.client) s)
  unfolding respond
  respond-Access p m =
      elim (Bool-cases (check_basic_auth w.sha r.credentials cfg.username cfg.password)) [
        | inr b ↦ simp (respond, b) (inl (deny-IsUntouched _ _))
        | inl b ↦ elim (Bool-cases (frozen cfg w)) [
          | inl f ↦
              simp (respond, b, f) (inl (record { store = refl; disk = refl; notices = refl }))
          | inr f ↦
              simp (respond, b, f)
                (source_cases _ _ _
                  (record { path = p; method = m; authenticated = b; not_frozen = f }) refl)
        ]
      ]

  -- A request to the handler of / leaves the store, the disk and the notices as they were; or it is
  -- a POST to / with the right credentials, while no freeze is on, from a client whose address
  -- Extract gives, and the store is then the one that Purge and Record leave for a CIDR that
  -- CIDRForRequest allows for that address, or the one that Purge leaves, where the family of the
  -- address is not allowed.
  pub handle_root-Access : Access (handle_root cfg w client r s)
  unfolding handle_root
  handle_root-Access = elim (Bool-cases (text_eq r.path (text "/"))) [
    | inr p ↦ simp (handle_root, p) (inl (untouched Page.not_found))
    | inl p ↦ elim (Bool-cases (is_other r.method)) [
      | inl m ↦ simp (handle_root, p, m) (inl (untouched Page.method_not_allowed))
      | inr m ↦ simp (handle_root, p, m) (respond-Access p m)
    ]
  ]

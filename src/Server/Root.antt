-- ===== src/Server/Root.antt =====
-- handleRoot, from the guards to the record.
use nft_auth_whitelist.Prelude.{
  Option, none, some, List, [], ◌∷◌, ◌++◌, Bool, true, false, not, ◌&&◌, if◌then◌else◌,
}
use nft_auth_whitelist.Prelude.Int.{ℤ, pos}
use nft_auth_whitelist.Text.{Text, text, text_eq}
use nft_auth_whitelist.Clock.{seconds}
use nft_auth_whitelist.Net.{split_host_port}
use nft_auth_whitelist.Net.Ip.{Ip, AddressSyntax}
use nft_auth_whitelist.Ipx.{CidrResult, cidr, refused, cidr_for_request}
use nft_auth_whitelist.Auth.{check_basic_auth}
use nft_auth_whitelist.Audit.{
  Action, Log, Value, log, str, num, count, time, auth_success, auth_fail, auth_frozen,
  rate_limited, entry_add, entry_refresh,
}
use nft_auth_whitelist.Audit
use nft_auth_whitelist.ClientIp.{Extractor, extract}
use nft_auth_whitelist.ClientIp
use nft_auth_whitelist.RateLimit.{blocked}
use nft_auth_whitelist.Store.{Logged, record_entry}
use nft_auth_whitelist.SshPush
use nft_auth_whitelist.Server.Defs.{
  Server, ServerConfig, Request, Method, get, post, other, World, Page, Notice,
}
use nft_auth_whitelist.Server.Push.{do_push, purge_logged, log_expired, audited}

abbrev pub client_host : Text → Text
client_host remote_addr = elim (split_host_port remote_addr) [
  | none ↦ remote_addr
  | some host ↦ host
]

abbrev pub ip_string : AddressSyntax → Option Ip → Text → Text
ip_string syn none fallback = fallback
ip_string syn (some ip) fallback = syn.format ip

-- The parameter of the URL goes before that of the form, which a GET does not have.
unfoldable pub requested_scope : Request → Text
requested_scope r = elim r.scope_query [
  | [] ↦ elim r.method as (λ m. Text) [
    | post ↦ elim r.scope_form [ none ↦ [] | some scope ↦ scope ]
    | _ ↦ []
  ]
  | _ ∷ _ ↦ r.scope_query
]

unfoldable pub frozen : ServerConfig → World → Bool
frozen cfg w = if text_eq cfg.freeze_file [] then false else w.freeze_there

-- `peer`, `remote_ip`, `path` and the status of the answer.
abbrev fields : Text → Text → ℤ → List (Text × Value)
fields peer path status =
    (text "peer", str peer)
    ∷ (text "remote_ip", str peer)
    ∷ (text "path", str path)
    ∷ (text "status", num status)
    ∷ []

abbrev pub is_other : Method → Bool
is_other other = true
is_other _ = false

module _ (cfg : ServerConfig) (w : World) where
  abbrev warned : Action → Text → Request → ℤ → Server → Server
  warned action peer r status s =
      audited s (log action Audit.warn (fields peer r.path status) s.audit)

  unfoldable pub deny : Text → Text → Request → Server → Page × Server
  deny peer rate_key r s =
      let (over, limiter) = blocked w.bucket_order s.limiter rate_key w.failed_at in
      let s' = record s { limiter = limiter } in
      if over
      then (Page.too_many, warned rate_limited peer r (pos 429) s')
      else (Page.unauthorized, warned auth_fail peer r (pos 401) s')

  abbrev notice_new : Logged → Notice
  notice_new l = record {
    event = text "entry.new";
    fields =
        (text "cidr", str l.result.entry.cidr)
        ∷ (text "source", str (text "web_auth"))
        ∷ (text "expires_at", time l.result.entry.expires_at)
        ∷ [];
  }

  -- The records of a success, in the order of the code.
  abbrev success_log : Request → Text → Ip → Text → Logged → Log → Log
  success_log r peer ip source l al =
      let e = l.result.entry in
      let shown = w.syn.format ip in
      let al' =
        log auth_success Audit.fine
          ((text "ip", str shown)
            ∷ (text "client_ip", str shown)
            ∷ (text "client_ip_source", str source)
            ∷ (text "remote_ip", str peer)
            ∷ (text "path", str r.path)
            ∷ (text "status", num (pos 200))
            ∷ [])
          al in
      let al'' =
        log (if l.result.is_new then entry_add else entry_refresh) Audit.fine
          ((text "cidr", str e.cidr)
            ∷ (text "expires_at", time e.expires_at)
            ∷ (text "hit_count", num e.hit_count)
            ∷ [])
          al' in
      log_expired l.result.evicted ((text "reason", str (text "evicted")) ∷ []) al''

  unfoldable pub pushed : Server → List SshPush.PushResult × Server
  unfolding do_push
  pushed s = if cfg.push.enabled then do_push cfg w w.pushed_at s else ([], s)

  -- What follows `Record`.
  unfoldable pub after_record : Request → Text → Ip → Text → Logged → Server → Page × Server
  unfolding pushed
  after_record r peer ip source l s =
      let s₁ = record s { store = l.store; disk = l.disk } in
      let s₂ = record s₁ {
        audit = success_log r peer ip source l s.audit;
        notices = if l.result.is_new then s.notices ++ notice_new l ∷ [] else s.notices;
      } in
      let (results, s₃) = pushed s₂ in
      elim l.error [
        | some e ↦ (Page.internal_error, s₁)
        | none ↦ (Page.success l.result.entry results, s₃)
      ]

  unfoldable pub record_cidr : Request → Text → Ip → Text → CidrResult → Server → Page × Server
  unfolding after_record
  record_cidr r peer ip source (refused e) s = (
    Page.family_refused,
    audited s (
        log auth_fail Audit.warn
          ((text "peer", str peer)
            ∷ (text "client_ip", str (w.syn.format ip))
            ∷ (text "client_ip_source", str source)
            ∷ (text "remote_ip", str peer)
            ∷ (text "path", str r.path)
            ∷ (text "status", num (pos 403))
            ∷ [])
          s.audit),
  )
  record_cidr r peer ip source (cidr c) s =
      after_record r peer ip source
        (record_entry w.store_json w.entry_order w.record_io c (w.syn.format ip) (text "web_auth")
          w.recorded_at (seconds cfg.ttl_seconds) s.store s.disk)
        s

  unfoldable pub request_cidr : Request → Ip → CidrResult
  unfolding requested_scope
  request_cidr r ip =
      cidr_for_request w.syn (some ip)
        (cfg.allow_cidr_expand_ipv4 && text_eq (requested_scope r) (text "24"))
        cfg.allow_cidr_expand_ipv4 cfg.allow_ipv4 cfg.allow_ipv6

  -- A POST by an authenticated client with a known address.
  unfoldable pub admit : Request → Text → Ip → Text → Server → Page × Server
  unfolding purge_logged record_cidr request_cidr
  admit r peer ip source s =
      let (removed, s') = purge_logged w w.purged_at s in
      record_cidr r peer ip source (request_cidr r ip) s'

  unfoldable pub with_source : Request → Text → Option Ip → Text → Server → Page × Server
  unfolding admit
  with_source r peer none source s = (
    Page.no_source,
    audited s (
        log auth_fail Audit.warn
          (fields peer r.path (pos 400)
            ++ (text "reason", str (text "could not determine source IP")) ∷ [])
          s.audit),
  )
  with_source r peer (some ip) source s = elim r.method as (λ m. Page × Server) [
    | get ↦ (Page.form ip, s)
    | _ ↦ admit r peer ip source s
  ]

  unfoldable pub respond : Request → ClientIp.Result → Server → Page × Server
  unfolding deny frozen with_source
  respond r resolved s =
      let peer = ip_string w.syn resolved.remote (client_host r.client.remote_addr) in
      let rate_key = ip_string w.syn resolved.client_ip peer in
      if not (check_basic_auth w.sha r.credentials cfg.username cfg.password)
      then deny peer rate_key r s
      else if frozen cfg w
      then (Page.frozen, warned auth_frozen peer r (pos 503) s)
      else with_source r peer resolved.client_ip resolved.source s

  unfoldable pub handle_root : Extractor → Request → Server → Page × Server
  unfolding respond
  handle_root client r s =
      if not (text_eq r.path (text "/"))
      then (Page.not_found, s)
      else if is_other r.method
      then (Page.method_not_allowed, s)
      else respond r (extract w.syn client r.client) s

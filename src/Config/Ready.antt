-- ===== src/Config/Ready.antt =====
-- What the programs may rely on in a configuration that has been loaded.
use nft_auth_whitelist.Prelude.{
  Option, none, some, List, [], ◌∷◌, ◌≡◌, ◌⊎◌, inl, inr, refl, subst, Bool, true, false, not, ◌&&◌,
  ◌||◌, arith, All, Bool-cases,
}
use nft_auth_whitelist.Prelude.Int.{pos, ltb_ℤ}
use nft_auth_whitelist.Text.{Text, text, text_eq, text_eq_iff, trim}
use nft_auth_whitelist.AtomicFile.{Disk}
use nft_auth_whitelist.Net.Ip.{AddressSyntax}
use nft_auth_whitelist.Config.Checks.{
  is_empty, reject_placeholder, validate_trusted_proxy_cidrs, effective_trusted_proxy_cidrs,
}
use nft_auth_whitelist.Config.Server.{
  PushTarget, PushConfig, NotifyConfig, ServerConfig, strict_host_key,
}
use nft_auth_whitelist.Config.Settings.{
  Url, is_local, check_url, is_negative, validate_target, validate_targets, validate_push,
  validate_notify, validate_server,
}
use nft_auth_whitelist.Config.Loading.{
  Decoder, loaded, complete_server, server_defaults, read_json_file, load_server_config,
}
use nft_auth_whitelist.Config.Inversion.{
  IsPositive, positive_or-IsPositive, family_cases, and_check-loaded,
}
use nft_auth_whitelist.Config.Parts.{
  IsSecret, IsPort, and_then-none, refuse_if-none, credential-IsSecret,
}

-- A target that ssh can be called for: every field is set, the port is one, and the host's key is
-- checked against a file, or checking was switched off.
pub record IsTarget (t : PushTarget) : Type 0 where
  pub name : is_empty t.name ≡ false
  pub user : is_empty t.user ≡ false
  pub host : is_empty t.host ≡ false
  pub identity : is_empty t.identity_file ≡ false
  pub port : IsPort t.port
  pub hosts :
      (t.strict_host_key_checking ≡ some false) ⊎ (is_empty (trim t.known_hosts_file) ≡ false)

strict_cases :
    (t : PushTarget) → strict_host_key t ≡ false → t.strict_host_key_checking ≡ some false
unfolding strict_host_key
strict_cases t h = ground arith

validate_target-IsTarget : (t : PushTarget) → validate_target t ≡ none → IsTarget t
unfolding validate_target
validate_target-IsTarget t h =
    let (a, h₁) = and_then-none _ _ h in
    let (b, c) = and_then-none _ _ h₁ in
    let a' : (is_empty t.name || (is_empty t.user || (is_empty t.host || is_empty t.identity_file)))
        ≡ false =
      refuse_if-none _ _ a in
    let b' : (ltb_ℤ t.port (pos 1) || ltb_ℤ (pos 65535) t.port) ≡ false = refuse_if-none _ _ b in
    let c' : (strict_host_key t && is_empty (trim t.known_hosts_file)) ≡ false =
      refuse_if-none _ _ c in
    record {
      name = ground arith;
      user = ground arith;
      host = ground arith;
      identity = ground arith;
      port = ground arith;
      hosts = elim (Bool-cases (strict_host_key t)) [
        | inl s ↦ inr (ground arith)
        | inr s ↦ inl (strict_cases t s)
      ];
    }

validate_targets-IsTarget : (ts : List PushTarget) → validate_targets ts ≡ none → All IsTarget ts
unfolding validate_targets
validate_targets-IsTarget [] h = tt
validate_targets-IsTarget (t ∷ ts) h =
    let (a, b) = and_then-none _ _ h in
    (validate_target-IsTarget t a, validate_targets-IsTarget ts b)

-- What holds of a push block that is switched on.
pub record IsPushed (p : PushConfig) : Type 0 where
  pub some_target : is_empty p.targets ≡ false
  pub interval : is_negative p.reconcile_interval_seconds ≡ false
  pub targets : All IsTarget p.targets

push-IsPushed : (p : PushConfig) → validate_push p ≡ none → p.enabled ≡ true → IsPushed p
unfolding validate_push
push-IsPushed p h e =
    let (a, h₁) = and_then-none _ _ (simp (validate_push, e) at h) in
    let (b, c) = and_then-none _ _ h₁ in
    record {
      some_target = refuse_if-none _ _ a;
      interval = refuse_if-none _ _ b;
      targets = validate_targets-IsTarget p.targets c;
    }

module _ (syn : AddressSyntax) (parse_url : Text → Option Url) where
  -- The notices go nowhere, over https, or over http to this host.
  pub data GoesSafely (n : NotifyConfig) : Type 0 where
    nowhere : n.webhook_url ≡ [] → GoesSafely n
    by_https : (u : Url) → parse_url n.webhook_url ≡ some u → u.scheme ≡ text "https" → GoesSafely n
    by_http :
        (u : Url)
        → parse_url n.webhook_url ≡ some u
        → u.scheme ≡ text "http"
        → is_local syn u.hostname ≡ true
        → GoesSafely n

  url_cases :
      (n : NotifyConfig) (o : Option Url)
      → parse_url n.webhook_url ≡ o
      → check_url syn o ≡ none
      → GoesSafely n
  unfolding check_url
  url_cases n none e h = absurd (cc)
  url_cases n (some u) e h = elim (Bool-cases (is_empty u.host)) [
    | inl a ↦ absurd (ground (arith, a))
    | inr a ↦ elim (Bool-cases (text_eq u.scheme (text "https"))) [
      | inl b ↦ by_https u e ((text_eq_iff u.scheme (text "https")).0 b)
      | inr b ↦ elim (Bool-cases (text_eq u.scheme (text "http"))) [
        | inr d ↦ absurd (ground (arith, a, b, d))
        | inl d ↦
            let l : not (is_local syn u.hostname) ≡ false =
              refuse_if-none _ _ (simp (check_url, a, b, d) at h) in
            by_http u e ((text_eq_iff u.scheme (text "http")).0 d) (ground arith)
      ]
    ]
  ]

  eq_of_empty : (s : Text) → is_empty s ≡ true → s ≡ []
  eq_of_empty [] h = refl
  eq_of_empty (c ∷ s) h = cc

  notify-GoesSafely : (n : NotifyConfig) → validate_notify syn parse_url n ≡ none → GoesSafely n
  unfolding validate_notify
  notify-GoesSafely n h = elim (Bool-cases (is_empty n.webhook_url)) [
    | inl e ↦ nowhere (eq_of_empty n.webhook_url e)
    | inr e ↦ url_cases n (parse_url n.webhook_url) refl (simp (validate_notify, e) at h)
  ]

  -- What LoadServerConfig promises.
  pub record IsReady (c : ServerConfig) : Type 0 where
    pub username : reject_placeholder c.username ≡ none
    pub password : IsSecret c.password 16
    pub pull_token : IsSecret c.pull_token 32
    pub hmac_secret : IsSecret c.hmac_secret 32
    pub proxies :
        validate_trusted_proxy_cidrs syn
          (effective_trusted_proxy_cidrs c.trusted_proxy_cidrs c.trusted_proxies)
        ≡ none
    pub family : (c.allow_ipv4 ≡ true) ⊎ (c.allow_ipv6 ≡ true)
    pub push : c.push.enabled ≡ true → IsPushed c.push
    pub notify : GoesSafely c.notify
    pub ttl : IsPositive c.ttl_seconds
    pub entries : IsPositive c.max_entries
    pub push_timeout : IsPositive c.push.timeout_seconds
    pub notify_timeout : IsPositive c.notify.timeout_seconds

  -- The limits, which the completion makes positive.
  record IsLimited (c : ServerConfig) : Type 0 where
    pub ttl : IsPositive c.ttl_seconds
    pub entries : IsPositive c.max_entries
    pub push_timeout : IsPositive c.push.timeout_seconds
    pub notify_timeout : IsPositive c.notify.timeout_seconds

  accepted-IsReady :
      (c : ServerConfig) → validate_server syn parse_url c ≡ none → IsLimited c → IsReady c
  unfolding validate_server
  accepted-IsReady c h l =
      let (_, h₁) = and_then-none _ _ h in
      let (u, h₂) = and_then-none _ _ h₁ in
      let (p, h₃) = and_then-none _ _ h₂ in
      let (t, h₄) = and_then-none _ _ h₃ in
      let (k, h₅) = and_then-none _ _ h₄ in
      let (x, h₆) = and_then-none _ _ h₅ in
      let (f, h₇) = and_then-none _ _ h₆ in
      let (q, n) = and_then-none _ _ h₇ in
      record {
        username = u;
        password = credential-IsSecret c.password 16 p;
        pull_token = credential-IsSecret c.pull_token 32 t;
        hmac_secret = credential-IsSecret c.hmac_secret 32 k;
        proxies = x;
        family = family_cases _ _ (refuse_if-none _ _ f);
        push = push-IsPushed c.push q;
        notify = notify-GoesSafely c.notify n;
        ttl = l.ttl;
        entries = l.entries;
        push_timeout = l.push_timeout;
        notify_timeout = l.notify_timeout;
      }

module _ (join : Text → Text → Text) where
  complete-IsLimited :
      (syn : AddressSyntax) (parse_url : Text → Option Url) (c : ServerConfig)
      → IsLimited syn parse_url (complete_server join c)
  unfolding complete_server
  complete-IsLimited syn parse_url c = record {
    ttl = positive_or-IsPositive c.ttl_seconds _ (omega arith);
    entries = positive_or-IsPositive c.max_entries _ (omega arith);
    push_timeout = positive_or-IsPositive c.push.timeout_seconds _ (omega arith);
    notify_timeout = positive_or-IsPositive c.notify.timeout_seconds _ (omega arith);
  }

  -- A configuration that LoadServerConfig returns has a user name that is no placeholder, secrets
  -- of 16, 32 and 32 bytes or more that are none either, proxies that the check accepts, an allowed
  -- family, targets that can be called if the push is on, a webhook that is https or local if there
  -- is one, and positive limits.
  pub load_server_config-IsReady :
      (syn : AddressSyntax) (parse_url : Text → Option Url) (decode : Decoder ServerConfig)
      (readable : Bool) (d : Disk) (path : Text) (c : ServerConfig)
      → load_server_config join syn parse_url decode readable d path ≡ loaded c
      → IsReady syn parse_url c
  unfolding load_server_config
  load_server_config-IsReady syn parse_url decode readable d path c h =
      let (v, e, n) =
        and_check-loaded (complete_server join) (validate_server syn parse_url)
          (read_json_file decode readable d path server_defaults) c h in
      accepted-IsReady syn parse_url c n
        (subst (IsLimited syn parse_url) e (complete-IsLimited syn parse_url v))

-- ===== src/Config/Programs.antt =====
-- What the receiver and the puller may rely on in a configuration that has been loaded.
use nft_auth_whitelist.Prelude.{
  none, ◌≡◌, ◌⊎◌, inl, inr, subst, Bool, true, false, ◌&&◌, ◌||◌, arith, Bool-cases, if◌then◌else◌,
}
use nft_auth_whitelist.Text.{Text, text, text_eq, text_eq_iff}
use nft_auth_whitelist.AtomicFile.{Disk}
use nft_auth_whitelist.Config.Checks.{is_empty, validate_credential}
use nft_auth_whitelist.Config.Loading.{
  Decoder, loaded, complete_receive, complete_puller, receive_defaults, puller_defaults,
  load_puller_config, read_json_file, load_receive_config,
}
use nft_auth_whitelist.Config.Inversion.{
  IsPositive, positive_or-IsPositive, family_cases, and_check-loaded,
}
use nft_auth_whitelist.Config.Files.{
  ReceiveConfig, PullerConfig, validate_receive, validate_puller, same_path, is_http, check_source,
}
use nft_auth_whitelist.Config.Paths.{IsSafe, validate_receive-IsSafe}
use nft_auth_whitelist.Config.Parts.{
  IsSecret, IsGuard, nft-IsGuard, and_then-none, refuse_if-none, credential-IsSecret,
}

module _ (clean : Text → Text) where
  pub record IsReceiverReady (c : ReceiveConfig) : Type 0 where
    pub safe : IsSafe clean c
    pub input : IsPositive c.input_max_bytes
    pub entries : IsPositive c.max_entries

  complete-IsPositive :
      (c : ReceiveConfig)
      → IsPositive (complete_receive c).input_max_bytes
        × IsPositive (complete_receive c).max_entries
  unfolding complete_receive
  complete-IsPositive c = (
    positive_or-IsPositive c.input_max_bytes _ (omega arith),
    positive_or-IsPositive c.max_entries _ (omega arith),
  )

  -- Doc.
  pub load_receive_config-IsReady :
      (decode : Decoder ReceiveConfig) (readable : Bool) (d : Disk) (path : Text)
      (c : ReceiveConfig)
      → load_receive_config clean decode readable d path ≡ loaded c
      → IsReceiverReady c
  unfolding load_receive_config
  load_receive_config-IsReady decode readable d path c h =
      let (v, e, n) =
        and_check-loaded complete_receive (validate_receive clean)
          (read_json_file decode readable d path receive_defaults) c h in
      let p =
        subst (λ x. IsPositive x.input_max_bytes × IsPositive x.max_entries) e
          (complete-IsPositive v) in
      record { safe = validate_receive-IsSafe clean c n; input = p.0; entries = p.1 }

  -- The source of the lists, with what it needs: a URL and a token, or a file that is no output.
  pub data HasSource (c : PullerConfig) : Type 0 where
    http :
        is_http clean c.source ≡ true
        → is_empty c.server_url ≡ false
        → IsSecret c.pull_token 32
        → HasSource c
    file :
        c.source ≡ text "file"
        → is_empty c.input_allow_json ≡ false
        → same_path clean c.input_allow_json c.output_allow_txt ≡ false
        → same_path clean c.input_allow_json c.output_state_json ≡ false
        → HasSource c

  pub record IsPullerReady (c : PullerConfig) : Type 0 where
    pub source : HasSource c
    pub secret : IsSecret c.hmac_secret 32
    pub output : is_empty c.output_allow_txt ≡ false
    pub state : same_path clean c.output_state_json c.output_allow_txt ≡ false
    pub family : (c.allow_ipv4 ≡ true) ⊎ (c.allow_ipv6 ≡ true)
    pub guard : IsGuard c.nft
    pub interval : IsPositive c.interval_seconds
    pub entries : IsPositive c.max_entries

  -- The switch on the source, case by case.
  data Source (c : PullerConfig) : Type 0 where
    http_given :
        is_http clean c.source ≡ true
        → (is_empty c.server_url
            || (is_empty c.pull_token || (is_empty c.hmac_secret || is_empty c.output_allow_txt)))
          ≡ false
        → Source c
    file_given :
        is_http clean c.source ≡ false
        → text_eq c.source (text "file") ≡ true
        → (is_empty c.input_allow_json || (is_empty c.hmac_secret || is_empty c.output_allow_txt))
          ≡ false
        → Source c

  check_source-Source : (c : PullerConfig) → check_source clean c ≡ none → Source c
  unfolding check_source
  check_source-Source c h = elim (Bool-cases (is_http clean c.source)) [
    | inl e ↦ http_given e (refuse_if-none _ _ (simp (check_source, e) at h))
    | inr e ↦ elim (Bool-cases (text_eq c.source (text "file"))) [
      | inl f ↦ file_given e f (refuse_if-none _ _ (simp (check_source, e, f) at h))
      | inr f ↦ absurd (ground (arith, e, f))
    ]
  ]

  -- What the check of the paths of a file source leaves.
  file_paths :
      (c : PullerConfig)
      → text_eq c.source (text "file") ≡ true
      → (text_eq c.source (text "file")
          && (same_path clean c.input_allow_json c.output_allow_txt
              || same_path clean c.input_allow_json c.output_state_json))
        ≡ false
      → (same_path clean c.input_allow_json c.output_allow_txt ≡ false)
        × (same_path clean c.input_allow_json c.output_state_json ≡ false)
  file_paths c e h = ground arith

  http_token :
      (c : PullerConfig)
      → is_http clean c.source ≡ true
      → (if is_http clean c.source then validate_credential c.pull_token 32 else none) ≡ none
      → IsSecret c.pull_token 32
  http_token c e h =
      credential-IsSecret c.pull_token 32
        (subst (λ b. (if b then validate_credential c.pull_token 32 else none) ≡ none) e h)

  has_source :
      (c : PullerConfig)
      → Source c
      → (if is_http clean c.source then validate_credential c.pull_token 32 else none) ≡ none
      → (text_eq c.source (text "file")
          && (same_path clean c.input_allow_json c.output_allow_txt
              || same_path clean c.input_allow_json c.output_state_json))
        ≡ false
      → HasSource c × (is_empty c.output_allow_txt ≡ false)
  has_source c (http_given e g) t p = (http e (ground arith) (http_token c e t), ground arith)
  has_source c (file_given e f g) t p =
      let (a, s) = file_paths c f p in
      (file ((text_eq_iff c.source (text "file")).0 f) (ground arith) a s, ground arith)

  record HasLimits (c : PullerConfig) : Type 0 where
    pub interval : IsPositive c.interval_seconds
    pub entries : IsPositive c.max_entries

  accepted-IsPullerReady :
      (c : PullerConfig) → validate_puller clean c ≡ none → HasLimits c → IsPullerReady c
  unfolding validate_puller
  accepted-IsPullerReady c h l =
      let (s, h₁) = and_then-none _ _ h in
      let (t, h₂) = and_then-none _ _ h₁ in
      let (k, h₃) = and_then-none _ _ h₂ in
      let (_, h₄) = and_then-none _ _ h₃ in
      let (f, h₅) = and_then-none _ _ h₄ in
      let (n, h₆) = and_then-none _ _ h₅ in
      let (a, p) = and_then-none _ _ h₆ in
      let (source, output) = has_source c (check_source-Source c s) t (refuse_if-none _ _ p) in
      record {
        source = source;
        secret = credential-IsSecret c.hmac_secret 32 k;
        output = output;
        state = refuse_if-none _ _ a;
        family = family_cases _ _ (refuse_if-none _ _ f);
        guard = nft-IsGuard c.nft n;
        interval = l.interval;
        entries = l.entries;
      }

  complete-HasLimits : (c : PullerConfig) → HasLimits (complete_puller c)
  unfolding complete_puller
  complete-HasLimits c = record {
    interval = positive_or-IsPositive c.interval_seconds _ (omega arith);
    entries = positive_or-IsPositive c.max_entries _ (omega arith);
  }

  -- A configuration that LoadPullerConfig returns has a source with what it needs, a URL and a long
  -- token or a file that is no output, a long secret, an output that the state file does not share,
  -- an allowed family, the program's own table with ports from 1 to 65535, and positive limits.
  pub load_puller_config-IsReady :
      (decode : Decoder PullerConfig) (readable : Bool) (d : Disk) (path : Text) (c : PullerConfig)
      → load_puller_config clean decode readable d path ≡ loaded c
      → IsPullerReady c
  unfolding load_puller_config
  load_puller_config-IsReady decode readable d path c h =
      let (v, e, n) =
        and_check-loaded complete_puller (validate_puller clean)
          (read_json_file decode readable d path puller_defaults) c h in
      accepted-IsPullerReady c n (subst HasLimits e (complete-HasLimits v))

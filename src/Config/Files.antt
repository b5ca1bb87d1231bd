-- ===== src/Config/Files.antt =====
-- The whole check of a configuration file. filepath.Clean is Go's own.
use nft_auth_whitelist.Prelude.{
  Option, none, some, [], ◌∷◌, Bool, true, false, not, ◌&&◌, ◌||◌, if◌then◌else◌,
}
use nft_auth_whitelist.Prelude.Int.{ℤ}
use nft_auth_whitelist.Text.{Text, text, text_eq}
use nft_auth_whitelist.Config.Checks.{
  ConfigError, NftConfig, and_then, refuse_if, validate_credential, validate_nft,
}

pub record ReceiveConfig : Type 0 where
  pub input_max_bytes : ℤ
  pub inbox_allow_json : Text
  pub hmac_secret : Text
  pub output_allow_txt : Text
  pub output_state_json : Text
  pub max_entries : ℤ
  pub allow_ipv4 : Bool
  pub allow_ipv6 : Bool
  pub mode : Text
  pub nft : NftConfig
  pub audit_log : Text

pub record PullerConfig : Type 0 where
  pub source : Text
  pub input_allow_json : Text
  pub server_url : Text
  pub pull_token : Text
  pub hmac_secret : Text
  pub interval_seconds : ℤ
  pub output_allow_txt : Text
  pub output_state_json : Text
  pub max_entries : ℤ
  pub allow_ipv4 : Bool
  pub allow_ipv6 : Bool
  pub require_https : Bool
  pub mode : Text
  pub nft : NftConfig
  pub audit_log : Text

abbrev pub is_empty : Text → Bool
is_empty [] = true
is_empty (c ∷ s) = false

abbrev check_mode : Text → Option ConfigError
check_mode mode =
    refuse_if (not (text_eq mode (text "export")) && not (text_eq mode (text "nft")))
      ConfigError.bad_mode

module _ (clean : Text → Text) where
  unfoldable pub same_path : Text → Text → Bool
  same_path a b = if is_empty a || is_empty b then false else text_eq (clean a) (clean b)

  unfoldable pub validate_receive : ReceiveConfig → Option ConfigError
  unfolding same_path
  validate_receive c =
      and_then
        (refuse_if
          (is_empty c.hmac_secret
            || (is_empty c.inbox_allow_json
                || (is_empty c.output_allow_txt || is_empty c.output_state_json)))
          ConfigError.missing_fields)
        (and_then (validate_credential c.hmac_secret 32) (
          and_then (check_mode c.mode) (
            and_then (refuse_if (not c.allow_ipv4 && not c.allow_ipv6) ConfigError.no_family) (
              and_then (validate_nft c.nft) (
                refuse_if
                  (same_path c.inbox_allow_json c.output_allow_txt
                    || (same_path c.output_state_json c.output_allow_txt
                        || same_path c.inbox_allow_json c.output_state_json))
                  ConfigError.same_paths)))))

  abbrev pub is_http : Text → Bool
  is_http source = is_empty source || text_eq source (text "http")

  -- The switch on the source, then the fields that are missing.
  unfoldable pub check_source : PullerConfig → Option ConfigError
  check_source c =
      let shared = is_empty c.hmac_secret || is_empty c.output_allow_txt in
      if is_http c.source
      then refuse_if (is_empty c.server_url || (is_empty c.pull_token || shared))
          ConfigError.missing_fields
      else if text_eq c.source (text "file")
      then refuse_if (is_empty c.input_allow_json || shared) ConfigError.missing_fields
      else some ConfigError.bad_source

  unfoldable pub validate_puller : PullerConfig → Option ConfigError
  unfolding check_source same_path
  validate_puller c = and_then (check_source c) (
      and_then (if is_http c.source then validate_credential c.pull_token 32 else none) (
        and_then (validate_credential c.hmac_secret 32) (
          and_then (check_mode c.mode) (
            and_then (refuse_if (not c.allow_ipv4 && not c.allow_ipv6) ConfigError.no_family) (
              and_then (validate_nft c.nft) (
                and_then
                  (refuse_if (same_path c.output_state_json c.output_allow_txt)
                    ConfigError.same_paths)
                  (refuse_if
                    (text_eq c.source (text "file")
                      && (same_path c.input_allow_json c.output_allow_txt
                          || same_path c.input_allow_json c.output_state_json))
                    ConfigError.same_paths)))))))

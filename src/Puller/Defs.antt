-- ===== src/Puller/Defs.antt =====
-- One pull cycle. net/http and json.Unmarshal are Go's own: a request is answered by a function.
use nft_auth_whitelist.Prelude.{
  ℕ, ltb, Option, none, some, List, [], ◌∷◌, ◌++◌, Bool, not, ◌||◌, ◌==◌, if◌then◌else◌, length,
}
use nft_auth_whitelist.Text.{Text, text, text_eq, prefix, cut, itoa}
use nft_auth_whitelist.Dict.{find}
use nft_auth_whitelist.Signer.{Envelope}
use nft_auth_whitelist.Net.Ip.{AddressSyntax}
use nft_auth_whitelist.Ipx.{Family, family_of_cidr}
pub use nft_auth_whitelist.Config.{PullerConfig}
use nft_auth_whitelist.AtomicFile.{File, Disk, Outcomes}
use nft_auth_whitelist.Audit.{Log, pull_fail}
use nft_auth_whitelist.Nft
use nft_auth_whitelist.Nft.{generate_script, ApplyError}
use nft_auth_whitelist.Receive.{EnvelopeJson}
use nft_auth_whitelist.Pipeline.{Params, VerifyError, WriteError}

pub record Options : Type 0 where
  pub dry_run : Bool
  pub apply : Bool

-- What a request comes to: an error with its text, which net/http begins with the URL, or a status
-- and a body, with the text of the error if it breaks off.
pub data Response : Type 0 where
  no_response : Text → Response
  response : ℕ → Text → Option Text → Response

-- The world around a cycle: the server, the file that is read with the text of the error if that
-- fails, the text of the error of json.Unmarshal, and the system's answers.
pub record World : Type 0 where
  pub get : Text → Text → Response
  pub read_ok : Bool
  pub read_error : Text
  pub decode_error : Text → Text
  pub state : Outcomes
  pub allow : Outcomes
  pub nft : Nft.Answers

-- Why there is no envelope, with the texts of the errors of other packages.
pub data FetchError : Type 0 where
  not_https no_input_path : FetchError
  unreadable_file : (path reason : Text) → FetchError
  not_decoded request_failed body_failed : Text → FetchError
  bad_status : ℕ → FetchError

-- `err.Error()`
unfoldable pub reason : FetchError → Text
reason not_https = text "require_https is enabled but server_url is not https://"
reason no_input_path = text "source=file requires input_allow_json"
reason (unreadable_file path e) = text "read " ++ (path ++ (text ": " ++ e))
reason (not_decoded e) = text "decode envelope: " ++ e
reason (request_failed e) = e
reason (body_failed e) = e
reason (bad_status status) = text "server returned status " ++ itoa status

pub data PullError : Type 0 where
  not_fetched : FetchError → PullError
  not_verified : VerifyError → PullError
  not_exported : WriteError → PullError
  not_applied : ApplyError → PullError

pub data Fetched : Type 0 where
  fetch_failed : FetchError → Fetched
  fetched : Envelope → Fetched

-- strings.IndexByte at '?', and the text before it.
unfoldable pub redact_cut : Text → Option (Text × Text) → Text
redact_cut raw none = raw
redact_cut raw (some (before, behind)) = before ++ text "?<redacted>"

unfoldable pub redact_url : Text → Text
unfolding redact_cut
redact_url raw = redact_cut raw (cut b'?' raw)

abbrev pub is_file : PullerConfig → Bool
is_file cfg = text_eq cfg.source (text "file")

unfoldable pub source_label : PullerConfig → Text
unfolding redact_url
source_label cfg =
    if is_file cfg then text "file:" ++ cfg.input_allow_json else redact_url cfg.server_url

abbrev pub pipeline_params : PullerConfig → Params
pipeline_params cfg = record {
  hmac_secret = cfg.hmac_secret;
  max_entries = cfg.max_entries;
  allow_ipv4 = cfg.allow_ipv4;
  allow_ipv6 = cfg.allow_ipv6;
  output_allow_txt = cfg.output_allow_txt;
  output_state_json = cfg.output_state_json;
  source_label = source_label cfg;
  reject_action = pull_fail;
}

unfoldable pub apply_allowed : PullerConfig → Bool
apply_allowed cfg = text_eq cfg.mode (text "nft") || cfg.nft.enabled

-- 8<<20
abbrev pub body_limit : ℕ
body_limit = 8388608

-- What a cycle leaves: its error, the disk, the audit log, the scripts that nft loaded, the output.
pub record Finish : Type 0 where
  pub error : Option PullError
  pub disk : Disk
  pub audit : Log
  pub loaded : List Text
  pub stdout : Text

module _ (env_json : EnvelopeJson) where
  unfoldable pub decode : World → Text → Fetched
  decode w b = elim (env_json.unmarshal b) [
    | none ↦ fetch_failed (not_decoded (w.decode_error b))
    | some env ↦ fetched env
  ]

  unfoldable pub decode_file : World → PullerConfig → Option Text → Fetched
  unfolding decode
  decode_file w cfg none = fetch_failed (unreadable_file cfg.input_allow_json w.read_error)
  decode_file w cfg (some b) =
      if w.read_ok
      then decode w b
      else fetch_failed (unreadable_file cfg.input_allow_json w.read_error)

  abbrev content_of : Option File → Option Text
  content_of none = none
  content_of (some f) = some f.content

  unfoldable pub read_envelope_file : World → PullerConfig → Disk → Fetched
  unfolding decode_file
  read_envelope_file w cfg d =
      if text_eq cfg.input_allow_json []
      then fetch_failed no_input_path
      else decode_file w cfg (content_of (find cfg.input_allow_json d.files))

  -- The body is read up to the limit; a connection that breaks off behind it is not noticed.
  unfoldable pub check_status : World → ℕ → Text → Fetched
  unfolding decode
  check_status w status body =
      if not (status == 200)
      then fetch_failed (bad_status status)
      else decode w (prefix body_limit body)

  unfoldable pub decode_response : World → Response → Fetched
  unfolding check_status
  decode_response w (no_response e) = fetch_failed (request_failed e)
  decode_response w (response status body none) = check_status w status body
  decode_response w (response status body (some e)) =
      if ltb (length body) body_limit
      then fetch_failed (body_failed e)
      else check_status w status body

  unfoldable pub fetch_envelope_http : World → PullerConfig → Fetched
  unfolding decode_response
  fetch_envelope_http w cfg = decode_response w (w.get cfg.server_url cfg.pull_token)

  unfoldable pub fetch_envelope : World → PullerConfig → Disk → Fetched
  unfolding read_envelope_file fetch_envelope_http
  fetch_envelope w cfg d =
      if is_file cfg then read_envelope_file w cfg d else fetch_envelope_http w cfg

module _ (syn : AddressSyntax) where
  abbrev of_family : Family → List Text → List Text
  of_family f [] = []
  of_family f (c ∷ cs) = elim (family_of_cidr syn c) as (λ g. List Text) [
    | Family.ipv4 ↦ elim f [ Family.ipv4 ↦ c ∷ of_family f cs | _ ↦ of_family f cs ]
    | Family.ipv6 ↦ elim f [ Family.ipv6 ↦ c ∷ of_family f cs | _ ↦ of_family f cs ]
    | Family.invalid ↦ of_family f cs
  ]

  unfoldable pub build_nft_script : PullerConfig → List Text → Text
  build_nft_script cfg cidrs =
      let c : Nft.Config = record {
        allow4 = of_family Family.ipv4 cidrs;
        allow6 = of_family Family.ipv6 cidrs;
        protected_tcp_ports = cfg.nft.protected_tcp_ports;
        protected_udp_ports = cfg.nft.protected_udp_ports;
      } in
      generate_script c

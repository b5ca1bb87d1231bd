-- ===== src/Config/Loading.antt =====
-- LoadServerConfig, LoadPullerConfig and LoadReceiveConfig: the defaults, the file, the values that
-- a file may not leave out, and the check. The decoder of encoding/json and filepath.Join are Go's.
use nft_auth_whitelist.Prelude.{
  ℕ, Option, none, some, [], ◌∷◌, map, Bool, true, false, ◌==◌, if◌then◌else◌,
}
use nft_auth_whitelist.Prelude.Int.{ℤ, pos, leb_ℤ}
use nft_auth_whitelist.Text.{Text, text}
use nft_auth_whitelist.Dict.{find}
use nft_auth_whitelist.AtomicFile.{Disk}
use nft_auth_whitelist.Net.Ip.{AddressSyntax}
use nft_auth_whitelist.Config.Checks.{ConfigError, NftConfig}
use nft_auth_whitelist.Config.Server.{PushTarget, ServerConfig}
use nft_auth_whitelist.Config.Files.{ReceiveConfig, PullerConfig, validate_receive, validate_puller}
use nft_auth_whitelist.Config.Settings.{Url, validate_server}

pub data LoadError : Type 0 where
  not_read not_parsed : LoadError
  invalid : ConfigError → LoadError

pub data Loaded (C : Type 0) : Type 0 where
  loaded : C → Loaded C
  failed : LoadError → Loaded C

abbrev pub or_default : Text → Text → Text
or_default [] default = default
or_default (c ∷ s) default = c ∷ s

abbrev pub positive_or : ℤ → ℕ → ℤ
positive_or n default = if leb_ℤ n (pos 0) then pos default else n

-- The decoder fills the fields that the text gives into the value that it is handed.
abbrev pub Decoder : Type 0 → Type 0
Decoder C = Text → C → Option C

abbrev decoded : {C : Type 0} → Option C → Loaded C
decoded none = failed not_parsed
decoded (some c) = loaded c

-- `readable` is false where a file that is there cannot be read.
unfoldable pub read_json_file : {C : Type 0} → Decoder C → Bool → Disk → Text → C → Loaded C
read_json_file decode readable d path v = elim (find path d.files) [
  | none ↦ failed not_read
  | some f ↦ if readable then decoded (decode f.content v) else failed not_read
]

-- The value with its defaults, if the check accepts it.
abbrev pub checked : {C : Type 0} → C → Option ConfigError → Loaded C
checked c none = loaded c
checked c (some e) = failed (invalid e)

abbrev pub and_check : {C : Type 0} → Loaded C → (C → C) → (C → Option ConfigError) → Loaded C
and_check (failed e) complete check = failed e
and_check (loaded c) complete check = checked (complete c) (check (complete c))

unfoldable pub complete_target : PushTarget → PushTarget
complete_target t = record t {
  port = elim t.port as (λ p. ℤ) [ pos n ↦ if n == 0 then pos 22 else pos n | other ↦ other ];
  strict_host_key_checking = elim t.strict_host_key_checking [
    | none ↦ some true
    | some strict ↦ some strict
  ];
}

abbrev pub server_defaults : ServerConfig
server_defaults = record {
  listen = text "127.0.0.1:8088";
  base_url = [];
  username = [];
  password = [];
  pull_token = [];
  hmac_secret = [];
  ttl_seconds = pos 1209600;
  max_entries = pos 200;
  allow_ipv4 = true;
  allow_ipv6 = false;
  allow_cidr_expand_ipv4 = false;
  trusted_proxy_cidrs = [];
  client_ip_headers = [];
  trusted_proxies = [];
  real_ip_header = [];
  data_dir = text "/var/lib/nft-auth-whitelist";
  audit_log = [];
  rate_limit = record { enabled = true; max_failures_per_minute = pos 10 };
  push = record {
    enabled = false;
    timeout_seconds = pos 0;
    targets = [];
    reconcile_interval_seconds = none;
  };
  notify = record { webhook_url = []; telegram_chat_id = []; timeout_seconds = pos 0 };
  freeze_file = [];
}

abbrev default_guard : NftConfig
default_guard = record {
  enabled = false;
  table = text "nft_auth_whitelist";
  protected_tcp_ports = [];
  protected_udp_ports = [];
}

abbrev complete_guard : NftConfig → NftConfig
complete_guard n = record n { table = or_default n.table (text "nft_auth_whitelist") }

module _ (join : Text → Text → Text) where
  unfoldable pub complete_server : ServerConfig → ServerConfig
  unfolding complete_target
  complete_server c = record c {
    listen = or_default c.listen (text "127.0.0.1:8088");
    ttl_seconds = positive_or c.ttl_seconds 1209600;
    max_entries = positive_or c.max_entries 200;
    push = record c.push {
      timeout_seconds = positive_or c.push.timeout_seconds 10;
      targets = map complete_target c.push.targets;
    };
    freeze_file = or_default c.freeze_file (join c.data_dir (text "freeze"));
    notify = record c.notify { timeout_seconds = positive_or c.notify.timeout_seconds 5 };
  }

  unfoldable pub load_server_config :
      AddressSyntax
      → (Text → Option Url)
      → Decoder ServerConfig
      → Bool
      → Disk
      → Text
      → Loaded ServerConfig
  unfolding read_json_file complete_server
  load_server_config syn parse_url decode readable d path =
      and_check (read_json_file decode readable d path server_defaults) complete_server
        (validate_server syn parse_url)

abbrev pub puller_defaults : PullerConfig
puller_defaults = record {
  source = text "http";
  input_allow_json = [];
  server_url = [];
  pull_token = [];
  hmac_secret = [];
  interval_seconds = pos 60;
  output_allow_txt = [];
  output_state_json = [];
  max_entries = pos 200;
  allow_ipv4 = true;
  allow_ipv6 = false;
  require_https = true;
  mode = text "export";
  nft = default_guard;
  audit_log = [];
}

unfoldable pub complete_puller : PullerConfig → PullerConfig
complete_puller c = record c {
  source = or_default c.source (text "http");
  interval_seconds = positive_or c.interval_seconds 60;
  max_entries = positive_or c.max_entries 200;
  mode = or_default c.mode (text "export");
  nft = complete_guard c.nft;
}

-- 1 << 20
abbrev pub receive_defaults : ReceiveConfig
receive_defaults = record {
  input_max_bytes = pos 1048576;
  inbox_allow_json = [];
  hmac_secret = [];
  output_allow_txt = [];
  output_state_json = [];
  max_entries = pos 200;
  allow_ipv4 = true;
  allow_ipv6 = false;
  mode = text "export";
  nft = default_guard;
  audit_log = [];
}

unfoldable pub complete_receive : ReceiveConfig → ReceiveConfig
complete_receive c = record c {
  input_max_bytes = positive_or c.input_max_bytes 1048576;
  max_entries = positive_or c.max_entries 200;
  mode = or_default c.mode (text "export");
  nft = complete_guard c.nft;
}

module _ (clean : Text → Text) where
  unfoldable pub load_puller_config :
      Decoder PullerConfig → Bool → Disk → Text → Loaded PullerConfig
  unfolding read_json_file complete_puller
  load_puller_config decode readable d path =
      and_check (read_json_file decode readable d path puller_defaults) complete_puller
        (validate_puller clean)

  unfoldable pub load_receive_config :
      Decoder ReceiveConfig → Bool → Disk → Text → Loaded ReceiveConfig
  unfolding read_json_file complete_receive
  load_receive_config decode readable d path =
      and_check (read_json_file decode readable d path receive_defaults) complete_receive
        (validate_receive clean)

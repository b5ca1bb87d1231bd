-- ===== src/Tests/Programs.antt =====
-- The receiver, the puller, the guard, ssh and the configuration.
use nft_auth_whitelist.Prelude.{
  some, none, [], ◌∷◌, ◌≡◌, ◌≢◌, refl, true, false, arith, Permᴰ, All, List,
}
use mathlib.Core.List.Permᴰ
use nft_auth_whitelist.Prelude.Int.{pos}
use nft_auth_whitelist.Text.{Text, text, text_eq, has_prefix}
use nft_auth_whitelist.Pipeline.{StateJson}
use nft_auth_whitelist.Pipeline.Outputs
use nft_auth_whitelist.Pipeline.Outputs.{allow_file, write_outputs-allow_file}
use nft_auth_whitelist.Receive
use nft_auth_whitelist.Receive.{EnvelopeJson, ReceiveConfig, Stdin, data_, read_limited, run}
use nft_auth_whitelist.Receive.Limits.{bounded_read, read_limited-bounded}
use nft_auth_whitelist.Puller
use nft_auth_whitelist.Puller.{PullerConfig, World, Options, run_once}
use nft_auth_whitelist.Puller.Cycle.{Ends, run_once-Ends}
use nft_auth_whitelist.Puller.Secrecy.{with_url, run_once_secret}
use nft_auth_whitelist.Nft
use nft_auth_whitelist.Nft.{generate_script}
use nft_auth_whitelist.Nft.Reordering.{generate_script-perm}
use nft_auth_whitelist.SshPush.{Target, build_args}
use nft_auth_whitelist.SshPush.Arguments.{
  Command, read_args, options_of, destination, build_args-read,
}
use nft_auth_whitelist.Config.{NftConfig}
use nft_auth_whitelist.Tests.Sample.{sample_crypto, sample_syntax, sample_io, empty_disk}
use nft_auth_whitelist.Tests.Signing.{envelope}

abbrev pub state_json : StateJson
state_json = record { marshal_state = λ s. some (text "{}") }

abbrev pub envelope_json : EnvelopeJson
envelope_json = record { unmarshal = λ b. some envelope }

abbrev pub guard_config : NftConfig
guard_config = record {
  enabled = false;
  table = text "nft_auth_whitelist";
  protected_tcp_ports = pos 443 ∷ [];
  protected_udp_ports = [];
}

abbrev pub config : ReceiveConfig
config = record {
  hmac_secret = text "key";
  max_entries = pos 10;
  allow_ipv4 = true;
  allow_ipv6 = false;
  input_max_bytes = pos 100;
  inbox_allow_json = text "inbox.json";
  output_allow_txt = text "allow.txt";
  output_state_json = text "state.json";
  mode = text "export";
  nft = guard_config;
  audit_log = [];
}

abbrev pub answers : Receive.Answers
answers = record {
  inbox = sample_io (text "tmp0");
  state = sample_io (text "tmp1");
  allow = sample_io (text "tmp2");
}

abbrev pub stdin : Stdin
stdin = record { bytes = text "{...}"; fails = false }

read_limited-bounded_example : read_limited stdin (pos 4) ≡ bounded_read stdin 4
read_limited-bounded_example = read_limited-bounded stdin 4 (omega arith)

abbrev pub puller : PullerConfig
puller = record {
  source = text "http";
  server_url = text "https://example.org/allow.json";
  pull_token = text "token";
  require_https = true;
  input_allow_json = [];
  hmac_secret = text "key";
  max_entries = pos 10;
  allow_ipv4 = true;
  allow_ipv6 = false;
  output_allow_txt = text "allow.txt";
  output_state_json = text "state.json";
  mode = text "nft";
  nft = guard_config;
  interval_seconds = pos 60;
  audit_log = [];
}

abbrev pub world : World
world = record {
  get = λ url token. Puller.response 200 (text "{...}") none;
  read_ok = true;
  read_error = [];
  decode_error = λ b. text "unexpected end of JSON input";
  state = sample_io (text "tmp1");
  allow = sample_io (text "tmp2");
  nft = record { found = true; check_ok = true; load_ok = true };
}

abbrev pub options : Options
options = record { dry_run = false; apply = true }

pub puller_apart : Outputs.AreApart world.state world.allow (Puller.pipeline_params puller)
unfolding text_eq
puller_apart = record { tmp_allow = refl; tmp_state = refl; other_tmp = refl; outputs = refl }

run_once-Ends_example :
    Ends sample_crypto sample_syntax envelope_json state_json options world 20000000000 puller
      empty_disk [] []
      (run_once sample_crypto sample_syntax envelope_json state_json options world 20000000000
        puller empty_disk [] [])
run_once-Ends_example =
    run_once-Ends sample_crypto sample_syntax envelope_json state_json options world 20000000000
      puller empty_disk [] [] puller_apart

abbrev cycle : Text → Puller.Finish
cycle url =
    run_once sample_crypto sample_syntax envelope_json state_json options world 20000000000
      (with_url puller url) empty_disk [] []

no_mark : All (λ c. c ≢ b'?') (text "https://a/")
no_mark = ground arith

run_once_secret_example : cycle (text "https://a/?token=1") ≡ cycle (text "https://a/?token=2")
run_once_secret_example =
    run_once_secret sample_crypto sample_syntax envelope_json state_json options world 20000000000
      puller (text "https://a/") (text "token=1") (text "token=2") empty_disk [] [] 200
      (text "{...}") none no_mark refl refl

abbrev guard : List Text → Nft.Config
guard cidrs = record {
  allow4 = cidrs;
  allow6 = [];
  protected_tcp_ports = pos 443 ∷ [];
  protected_udp_ports = [];
}

generate_script-perm_example :
    generate_script (guard (text "b" ∷ text "a" ∷ []))
    ≡ generate_script (guard (text "a" ∷ text "b" ∷ []))
generate_script-perm_example =
    generate_script-perm (guard (text "b" ∷ text "a" ∷ [])) (guard (text "a" ∷ text "b" ∷ []))
      (record {
        allow4 = Permᴰ.reverse (text "a" ∷ text "b" ∷ []);
        allow6 = Permᴰ.nil;
        tcp = Permᴰ.refl (pos 443 ∷ []);
        udp = Permᴰ.nil;
      })

abbrev target : Target
target = record {
  name = text "po0";
  user = text "deploy";
  host = text "po0.example.org";
  port = pos 22;
  identity_file = text "/etc/key";
  strict_host_key_checking = true;
  known_hosts_file = text "/etc/known_hosts";
}

no_dash : has_prefix (destination target) (text "-") ≡ false
unfolding has_prefix
no_dash = refl

build_args-read_example :
    read_args (build_args target (pos 10000000000))
    ≡ some (
        let c : Command = record {
          options = options_of target (pos 10000000000);
          destination = text "deploy@po0.example.org";
          command = [];
        } in
        c)
build_args-read_example = build_args-read target (pos 10000000000) no_dash

abbrev pub file : ReceiveConfig
file = record config { hmac_secret = text "0123456789abcdef0123456789abcdef" }

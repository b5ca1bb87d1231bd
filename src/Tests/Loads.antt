-- ===== src/Tests/Loads.antt =====
-- The programs from their command lines, and the notifier.
use nft_auth_whitelist.Prelude.{some, [], ◌∷◌, ◌≡◌, ◌⊎◌, refl, true, false, Permᴰ}
use nft_auth_whitelist.Prelude.Int.{pos}
use nft_auth_whitelist.Text.{Text, text, text_eq, has_prefix, lower, trim}
use nft_auth_whitelist.Dict.{Dict, find, HasDistinctKeys}
use nft_auth_whitelist.Audit.{Value, str}
use nft_auth_whitelist.Version.{default_build}
use nft_auth_whitelist.Config.{
  PullerConfig, loaded, load_server_config, load_receive_config, load_puller_config,
  validate_server, validate_push, validate_notify, validate_credential,
  validate_trusted_proxy_cidrs, effective_trusted_proxy_cidrs, validate_receive, validate_puller,
  validate_nft,
}
use nft_auth_whitelist.Config.Ready.{IsReady, load_server_config-IsReady}
use nft_auth_whitelist.Config.Programs.{IsPullerReady, load_puller_config-IsReady}
use nft_auth_whitelist.Pipeline.Outputs.{AreApart}
use nft_auth_whitelist.Receive
use nft_auth_whitelist.Receive.Exits.{AreTemporary, IsRefused, IsAccepted, main-Exits}
use nft_auth_whitelist.Puller
use nft_auth_whitelist.Puller.{Round, State}
use nft_auth_whitelist.Puller.Cycles
use nft_auth_whitelist.Puller.Cycles.{state_of, main-Origin}
use nft_auth_whitelist.Notifier.{Notifier, Outside, request_failed, payload}
use nft_auth_whitelist.Notifier.Laws.{with_order, payload-perm}
use nft_auth_whitelist.Tests.Sample.{sample_crypto, sample_syntax, sample_order}
use nft_auth_whitelist.Tests.Service.{guarded, configured, host}
use nft_auth_whitelist.Tests.Programs
use nft_auth_whitelist.Tests.Programs.{state_json, envelope_json, answers, stdin}

abbrev pub same : Text → Text
same p = p

server_loads :
    load_server_config host.join host.syn host.parse_url host.decode true configured
      (text "server.json")
    ≡ loaded guarded
unfolding find text_eq load_server_config validate_server validate_push validate_notify has_prefix
    lower trim validate_credential validate_trusted_proxy_cidrs effective_trusted_proxy_cidrs
server_loads = refl

load_server_config-IsReady_example : IsReady host.syn host.parse_url guarded
load_server_config-IsReady_example =
    load_server_config-IsReady host.join host.syn host.parse_url host.decode true configured
      (text "server.json") guarded server_loads

pub receive_loads :
    load_receive_config same (λ b c. some Programs.file) true configured (text "server.json")
    ≡ loaded Programs.file
unfolding find text_eq load_receive_config validate_receive has_prefix lower trim
    validate_credential validate_nft
receive_loads = refl

abbrev pulling : PullerConfig
pulling = record Programs.puller {
  pull_token = text "0123456789abcdef0123456789abcdef";
  hmac_secret = text "fedcba9876543210fedcba9876543210";
}

puller_loads :
    load_puller_config same (λ b c. some pulling) true configured (text "server.json")
    ≡ loaded pulling
unfolding find text_eq load_puller_config validate_puller has_prefix lower trim validate_credential
    validate_nft
puller_loads = refl

abbrev pub receiving : Receive.Process
receiving = record {
  show_version = false;
  config_path = text "server.json";
  config_readable = true;
  audit_opens = true;
  stdin = stdin;
  answers = answers;
  now = 20000000000;
}

pub temporary : AreTemporary answers Programs.file
unfolding text_eq
temporary = record { allow = refl; state = refl; state_allow = refl; inbox_allow = refl }

abbrev exit : Receive.Exit
exit =
    Receive.main sample_crypto sample_syntax envelope_json state_json same
      (λ b c. some Programs.file) default_build receiving configured

main-Exits_example :
    IsRefused sample_crypto sample_syntax envelope_json state_json same
      (λ b c. some Programs.file)
      default_build
      receiving
      configured
      Programs.file
      exit
    ⊎ IsAccepted sample_crypto sample_syntax envelope_json state_json same
        (λ b c. some Programs.file)
        default_build
        receiving
        configured
        Programs.file
        exit
main-Exits_example =
    main-Exits sample_crypto sample_syntax envelope_json state_json same (λ b c. some Programs.file)
      default_build receiving configured Programs.file refl receive_loads temporary

abbrev round : Round
round = record { world = Programs.world; now = 20000000000 }

rounds_apart : AreApart round.world.state round.world.allow (Puller.pipeline_params pulling)
unfolding text_eq
rounds_apart = record { tmp_allow = refl; tmp_state = refl; other_tmp = refl; outputs = refl }

abbrev process : Puller.Process
process = record {
  once = false;
  options = Programs.options;
  show_version = false;
  config_path = text "server.json";
  config_readable = true;
  audit_opens = true;
  first = round;
  ticks = round ∷ round ∷ [];
}

abbrev state : State
state = record { disk = configured; audit = []; guards = [] }

load_puller_config-IsReady_example : IsPullerReady same pulling
load_puller_config-IsReady_example =
    load_puller_config-IsReady same (λ b c. some pulling) true configured (text "server.json")
      pulling puller_loads

main-Origin_example :
    Cycles.Origin sample_crypto sample_syntax envelope_json state_json Programs.options pulling
      (round ∷ round ∷ round ∷ [])
      state
      (state_of (
        Puller.main sample_crypto sample_syntax envelope_json state_json same
          (λ b c. some pulling)
          process
          state))
main-Origin_example =
    main-Origin sample_crypto sample_syntax envelope_json state_json same (λ b c. some pulling)
      process state pulling refl puller_loads (rounds_apart, (rounds_apart, (rounds_apart, tt)))

abbrev outside : Outside
outside = record {
  marshal_event = λ event now fields. some event;
  marshal_message = λ chat message. some message;
  rfc3339 = λ t. text "2026-01-01T00:00:00Z";
  post = λ url body timeout. request_failed;
  detail_order = sample_order;
}

abbrev telegram : Notifier
telegram = record {
  url = text "https://example.org/bot1";
  chat_id = text "42";
  timeout = pos 5000000000;
}

abbrev detail : Dict Value
detail = (text "target", str (text "po0")) ∷ (text "reason", str (text "refused")) ∷ []

abbrev listed : Dict Value
listed = (text "reason", str (text "refused")) ∷ (text "target", str (text "po0")) ∷ []

distinct : HasDistinctKeys detail
unfolding text_eq
distinct = ((refl, tt), (tt, tt))

payload-perm_example :
    payload outside telegram 1000 (text "push.fail") detail
    ≡ payload (with_order outside sample_order) telegram 1000 (text "push.fail") listed
payload-perm_example =
    payload-perm outside sample_order telegram 1000 (text "push.fail") detail listed distinct
      (Permᴰ.swap refl refl)

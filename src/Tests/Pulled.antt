-- ===== src/Tests/Pulled.antt =====
-- An export of the server that a puller applies.
use nft_auth_whitelist.Prelude.{some, none, [], ◌≡◌, refl, arith}
use nft_auth_whitelist.Prelude.Sort.{sort}
use nft_auth_whitelist.Text.{text, text_eq, text_lt, join, has_prefix, lower}
use nft_auth_whitelist.Auth.{check_bearer}
use nft_auth_whitelist.Signer.{sign}
use nft_auth_whitelist.Signer.Hex.{encode}
use nft_auth_whitelist.Store.{build_envelope}
use nft_auth_whitelist.Puller
use nft_auth_whitelist.Puller.{run_once, is_refused}
use nft_auth_whitelist.Puller.Success.{IsAnswered}
use nft_auth_whitelist.Puller.Working.{IsWorking}
use nft_auth_whitelist.Server
use nft_auth_whitelist.Server.{Server, handle_allow_json}
use nft_auth_whitelist.Delivery.Pulled.{IsDelivered, ReadsBack, run_once-IsDelivered}
use nft_auth_whitelist.Tests.Sample.{sample_crypto, sample_syntax, empty_disk, total, letters}
use nft_auth_whitelist.Tests.Signing.{one_entry, one_entry-IsValid, envelope}
use nft_auth_whitelist.Tests.Programs.{state_json, envelope_json, puller, options, puller_apart}
use nft_auth_whitelist.Tests.Programs
use nft_auth_whitelist.Tests.Requests.{config, world, server, export_request}
use nft_auth_whitelist.Tests.Delivered.{succeeds}

abbrev home : Server
home = record server { store = one_entry }

built :
    build_envelope world.crypto world.entry_order 10000000000 Server.envelope_ttl config.hmac_secret
      one_entry
    ≡ some envelope
unfolding build_envelope sign sort encode total join letters
built = refl

was_served :
    (handle_allow_json config world 10000000000 export_request home).0
    ≡ Server.body envelope.signature
unfolding handle_allow_json check_bearer has_prefix text_eq build_envelope sign sort encode text_lt
    total join letters
was_served = refl

reads_back : ReadsBack envelope_json config world 10000000000 home envelope.signature
reads_back env b m = let e = built in cc

abbrev answering : Puller.World
answering = record Programs.world { get = λ url token. Puller.response 200 envelope.signature none }

answered : IsAnswered answering puller envelope.signature
unfolding text_eq encode
answered = record { http = refl; got = refl; small = omega arith }

working : IsWorking options answering puller
unfolding is_refused text_eq has_prefix lower
working = record {
  asked = record { writes = refl; secure = refl };
  calls = record {
    state = succeeds _;
    allow = succeeds _;
    found = refl;
    checked = refl;
    loads = refl;
  };
  apart = puller_apart;
}

run_once-IsDelivered_example :
    IsDelivered sample_crypto sample_syntax options puller [] 10000000000 20000000000 one_entry (
      run_once sample_crypto sample_syntax envelope_json state_json options answering 20000000000
        puller empty_disk [] [])
run_once-IsDelivered_example =
    run_once-IsDelivered sample_syntax envelope_json state_json config world 10000000000
      export_request home options answering 20000000000 puller empty_disk [] [] envelope.signature
      one_entry-IsValid was_served refl answered reads_back working (omega arith) refl
      (λ env res e v n. (text "{}", refl))

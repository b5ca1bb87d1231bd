-- ===== src/Tests/Delivered.antt =====
-- An envelope of the server that a receiver applies.
use nft_auth_whitelist.Prelude.{some, ◌≡◌, refl, arith}
use nft_auth_whitelist.Prelude.Int.{pos}
use nft_auth_whitelist.Prelude.Sort.{sort}
use nft_auth_whitelist.Text.{Text, text, join}
use nft_auth_whitelist.AtomicFile.{Succeeds}
use nft_auth_whitelist.Version.{default_build}
use nft_auth_whitelist.Signer.{Envelope, sign}
use nft_auth_whitelist.Signer.Hex.{encode}
use nft_auth_whitelist.Store.{build_envelope}
use nft_auth_whitelist.Receive
use nft_auth_whitelist.Receive.{EnvelopeJson}
use nft_auth_whitelist.Receive.Success.{IsReadable}
use nft_auth_whitelist.Receive.Working.{IsWorking}
use nft_auth_whitelist.Delivery.Applied.{IsDelivered, main-IsDelivered}
use nft_auth_whitelist.Tests.Sample.{
  sample_crypto, sample_order, sample_syntax, sample_io, total, letters,
}
use nft_auth_whitelist.Tests.Signing.{home_cidr, one_entry, one_entry-IsValid, envelope}
use nft_auth_whitelist.Tests.Programs.{file, state_json, stdin}
use nft_auth_whitelist.Tests.Loads.{same, receiving, receive_loads, temporary}
use nft_auth_whitelist.Tests.Service.{configured}

-- The envelope under the secret of the receiver.
abbrev signed : Envelope
signed = record envelope {
  signature = encode (sample_crypto.hmac_sha256 file.hmac_secret home_cidr);
}

abbrev json : EnvelopeJson
json = record { unmarshal = λ b. some signed }

built :
    build_envelope sample_crypto sample_order 10000000000
      (pos 300000000000)
      file.hmac_secret
      one_entry
    ≡ some signed
unfolding build_envelope sign sort encode total join letters
built = refl

pub succeeds : (tmp : Text) → Succeeds (sample_io tmp)
succeeds tmp = record {
  mkdir = refl;
  create = refl;
  written = refl;
  synced = refl;
  closed = refl;
  chmodded = refl;
  renamed = refl;
}

working : IsWorking same (λ b c. some file) receiving configured file
working = record {
  runs = refl;
  loads = receive_loads;
  temporary = temporary;
  audit = refl;
  writes = record { inbox = succeeds _; state = succeeds _; allow = succeeds _ };
}

readable : IsReadable file stdin (text "{...}")
readable = record {
  bytes = refl;
  ends = refl;
  limit = 100;
  configured = refl;
  small = omega arith;
  within = omega arith;
}

main-IsDelivered_example :
    IsDelivered sample_crypto sample_syntax file 10000000000 20000000000 one_entry (
      Receive.main sample_crypto sample_syntax json state_json same
        (λ b c. some file)
        default_build
        receiving
        configured)
main-IsDelivered_example =
    main-IsDelivered sample_crypto sample_syntax json state_json same (λ b c. some file)
      default_build sample_order 10000000000 (pos 300000000000) one_entry signed receiving
      configured file b'{' (text "...}") one_entry-IsValid built working readable refl (omega arith)
      refl (λ res v e. (text "{}", refl))

-- ===== src/Tests/Signing.antt =====
-- An envelope on its way from the server to a list.
use nft_auth_whitelist.Prelude.{[], ◌∷◌, ◌++◌, ◌≡◌, ◌↔◌, refl, true, false}
use nft_auth_whitelist.Prelude.Int.{pos}
use nft_auth_whitelist.Prelude.Sort.{sort}
use nft_auth_whitelist.Text.{Text, text, text_eq, join, cut, trim, dtoi, itoa}
use nft_auth_whitelist.Net.Ip.{addr_of}
use nft_auth_whitelist.Net.Cidr.{parse_cidr}
use nft_auth_whitelist.Ipx.{canonical_cidr}
use nft_auth_whitelist.Signer.{Envelope, verify}
use nft_auth_whitelist.Signer.Hex.{encode, decode}
use nft_auth_whitelist.Signer.Laws.{IsGenuine, verify_iff}
use nft_auth_whitelist.Audit.{pull_fail}
use nft_auth_whitelist.Store.{Store}
use nft_auth_whitelist.Store.Snapshot.{IsValid}
use nft_auth_whitelist.Pipeline.{Params, Result, filtered, verify_and_filter, filter_loop, dedup}
use nft_auth_whitelist.Pipeline.Verified.{
  IsTaken, IsVerified, verify_and_filter_iff, verify_and_filter-IsVerified,
}
use nft_auth_whitelist.Tests.Sample.{
  sample_crypto, sample_syntax, entry, total, letters, parse_letters,
}

abbrev pub home_cidr : Text
home_cidr = sample_syntax.format 281474087547143 ++ text "/32"

abbrev pub one_entry : Store
one_entry = record {
  path = text "entries.json";
  max_entries = 2;
  entries = (home_cidr, entry home_cidr) ∷ [];
}

pub one_entry-IsValid : IsValid one_entry
one_entry-IsValid = record { distinct = (tt, tt); keyed = (refl, tt) }

abbrev pub envelope : Envelope
envelope = record {
  version = pos 1;
  issued_at = 10000000000;
  expires_at = 310000000000;
  entries = entry home_cidr ∷ [];
  signature = encode (sample_crypto.hmac_sha256 (text "key") home_cidr);
}

abbrev pub params : Params
params = record {
  hmac_secret = text "key";
  max_entries = pos 10;
  allow_ipv4 = true;
  allow_ipv6 = false;
  output_allow_txt = text "allow.txt";
  output_state_json = text "state.json";
  source_label = text "stdin";
  reject_action = pull_fail;
}

verify_iff_example :
    (verify sample_crypto envelope (text "key") ≡ true)
    ↔ IsGenuine sample_crypto envelope (text "key")
verify_iff_example = verify_iff sample_crypto envelope (text "key")

verify_and_filter_iff_example :
    ((r : Result) × ((verify_and_filter sample_crypto sample_syntax envelope params []
          20000000000).0
        ≡ filtered r))
    ↔ IsTaken sample_crypto sample_syntax envelope params 20000000000
verify_and_filter_iff_example =
    verify_and_filter_iff sample_crypto sample_syntax envelope params [] 20000000000

abbrev pub result : Result
result = record { kept = entry home_cidr ∷ []; cidrs = home_cidr ∷ [] }

pub was_filtered :
    (verify_and_filter sample_crypto sample_syntax envelope params [] 20000000000).0
    ≡ filtered result
unfolding verify_and_filter sort encode total join letters verify decode text_eq filter_loop dedup
    canonical_cidr parse_cidr cut trim parse_letters dtoi addr_of itoa
was_filtered = refl

verify_and_filter-IsVerified_example :
    IsVerified sample_crypto sample_syntax envelope params 20000000000 result
verify_and_filter-IsVerified_example =
    verify_and_filter-IsVerified sample_crypto sample_syntax envelope params [] 20000000000 result
      was_filtered

-- ===== src/Tests/Requests.antt =====
-- Requests to the server, and the limit on failures.
use nft_auth_whitelist.Prelude.{
  some, none, List, [], ◌∷◌, ◌++◌, ◌≡◌, ◌↔◌, ◌⊎◌, Bool, refl, true, false, arith,
}
use nft_auth_whitelist.Prelude.Int.{◌*ℤ◌, wrap, pos}
use nft_auth_whitelist.Text.{Text, text, text_eq, text_lt, join, has_prefix, has_byte, trim, cut}
use nft_auth_whitelist.Clock.{Time, seconds}
use nft_auth_whitelist.Dict.{find, put}
use nft_auth_whitelist.Auth.{
  constant_time_equal, Sha256, check_basic_auth, check_bearer, check_basic_auth_iff,
}
use nft_auth_whitelist.Config.{PushTarget, ServerConfig}
use nft_auth_whitelist.ClientIp.{Extractor, extract, peer_trusted, remote_ip}
use nft_auth_whitelist.RateLimit.{Limiter, blocked, bucket_for}
use nft_auth_whitelist.RateLimit.Windows.{IsOn, fail_all, blocked_in_window}
use nft_auth_whitelist.SshPush.{Run}
use nft_auth_whitelist.Server
use nft_auth_whitelist.Server.{
  Server, World, Request, Page, handle_root, do_push, handle_allow_json, handle,
}
use nft_auth_whitelist.Server.Access.{Access, handle_root-Access}
use nft_auth_whitelist.Net.{split_host_port}
use nft_auth_whitelist.Net.Ip.{parse_ip, addr_of, to4}
use nft_auth_whitelist.Ipx.{cidr_for_request}
use nft_auth_whitelist.AtomicFile.{write}
use nft_auth_whitelist.Prelude.Sort.{sort}
use nft_auth_whitelist.Signer.{Entry, sign}
use nft_auth_whitelist.Server.Success.{shown, IsSuccess, handle_root-IsSuccess}
use nft_auth_whitelist.Signer.Hex.{encode}
use nft_auth_whitelist.Store.{build_envelope, purge, record_entry, refresh_or_add, persist_locked}
use nft_auth_whitelist.Server.Serving.{IsServed, IsListed, handle-IsExported}
use nft_auth_whitelist.Tests.Sample.{
  sample_crypto, letters, parse_letters, mapped_literal, number, sample_syntax, total, sample_order,
  sample_io, sample_store_json, empty_disk, two_entries,
}

abbrev pub sha : Sha256
sha = record { sum = λ s. s }

check_basic_auth_iff_example :
    (check_basic_auth sha (some (text "user", text "guess")) (text "user") (text "pass") ≡ true)
    ↔ ((text "user" ≡ text "user") × (text "guess" ≡ text "pass"))
check_basic_auth_iff_example =
    check_basic_auth_iff sha (text "user") (text "guess") (text "user") (text "pass") (λ e. e)
      (λ e. e)

abbrev pub limiter : Limiter
limiter = record { enabled = true; max = pos 2; buckets = [] }

is_on : IsOn limiter
is_on = record { enabled = refl; positive = refl; distinct = tt }

abbrev later_failures : List (Text × Time)
later_failures = (text "other", 2000) ∷ (text "peer", 3000) ∷ []

starts :
    bucket_for (find (text "peer") limiter.buckets) 1000 ≡ record { window_start = 1000; count = 0 }
unfolding bucket_for find
starts = refl

blocked_in_window_example :
    (blocked sample_order
      (fail_all sample_order (blocked sample_order limiter (text "peer") 1000).1 later_failures)
      (text "peer")
      4000).0
    ≡ true
unfolding text_eq
blocked_in_window_example =
    blocked_in_window sample_order limiter (text "peer") 1000 4000 later_failures is_on starts
      (omega arith, (omega arith, tt)) (omega arith)

abbrev pub target : PushTarget
target = record {
  name = text "po0";
  user = text "deploy";
  host = text "po0.example.org";
  port = pos 22;
  identity_file = text "/etc/key";
  strict_host_key_checking = some true;
  known_hosts_file = text "/etc/known_hosts";
}

abbrev pub config : ServerConfig
config = record {
  listen = text "127.0.0.1:8088";
  base_url = [];
  username = text "user";
  password = text "pass";
  pull_token = text "token";
  hmac_secret = text "key";
  ttl_seconds = pos 60;
  max_entries = pos 200;
  allow_ipv4 = true;
  allow_ipv6 = false;
  allow_cidr_expand_ipv4 = false;
  trusted_proxy_cidrs = [];
  client_ip_headers = [];
  trusted_proxies = [];
  real_ip_header = [];
  data_dir = [];
  audit_log = [];
  rate_limit = record { enabled = true; max_failures_per_minute = pos 2 };
  push = record {
    enabled = true;
    timeout_seconds = pos 10;
    targets = target ∷ [];
    reconcile_interval_seconds = none;
  };
  notify = record { webhook_url = []; telegram_chat_id = []; timeout_seconds = pos 5 };
  freeze_file = text "freeze";
}

abbrev pub run : Run
run = record {
  out = text "ok entries=1";
  err = [];
  took_ms = pos 20;
  deadline_exceeded = false;
  error = none;
  error_text = [];
  timeout_text = [];
}

abbrev pub world : World
world = record {
  sha = sha;
  crypto = sample_crypto;
  syn = sample_syntax;
  store_json = sample_store_json;
  marshal_envelope = λ env. some env.signature;
  marshal_indent = λ env. some env.signature;
  entry_order = sample_order;
  bucket_order = sample_order;
  purge_io = sample_io (text "tmp1");
  record_io = sample_io (text "tmp2");
  freeze_there = false;
  failed_at = 10000000000;
  purged_at = 10000000000;
  recorded_at = 10000000000;
  pushed_at = 10000000000;
  ssh = λ args payload timeout. run;
  until = λ n. pos 12000000000;
}

abbrev pub server : Server
server = record {
  store = two_entries;
  limiter = limiter;
  disk = empty_disk;
  audit = [];
  notices = [];
}

abbrev pub extractor : Extractor
extractor = record { trusted = []; headers = [] }

abbrev pub login : Request
login = record {
  path = text "/";
  method = Server.post;
  client = record {
    remote_addr = sample_syntax.format 281474087547143 ++ text ":4000";
    header = λ name. [];
  };
  credentials = some (text "user", text "pass");
  authorization = [];
  scope_query = [];
  scope_form = some [];
}

handle_root-Access_example :
    Access config world extractor login server (handle_root config world extractor login server)
handle_root-Access_example = handle_root-Access config world extractor login server

abbrev pub export_request : Request
export_request = record login { path = text "/allow.json"; authorization = text "Bearer token" }

abbrev anything : Text → Bool
anything p = true

abbrev signature : Text
signature = text "38"

was_served :
    (handle config extractor anything world 10000000000 export_request server).0
    ≡ Server.export (Server.body signature)
unfolding handle handle_allow_json check_bearer has_prefix text_eq build_envelope sign sort encode
    text_lt total join
was_served = refl

handle-IsExported_example :
    IsServed config world 10000000000 export_request server signature
    ⊎ IsListed config world 10000000000 export_request server signature
handle-IsExported_example =
    handle-IsExported config world 10000000000 export_request server extractor anything signature
      was_served

abbrev new_entry : Entry
new_entry = record {
  ip = sample_syntax.format 281474087547143;
  cidr = sample_syntax.format 281474087547143 ++ text "/32";
  source = text "web_auth";
  created_at = 10000000000;
  expires_at = 70000000000;
  last_seen_at = 10000000000;
  hit_count = pos 1;
}

was_recorded : shown (handle_root config world extractor login server).0 ≡ some new_entry
unfolding handle_root text_eq check_basic_auth constant_time_equal extract split_host_port letters
    has_byte trim parse_ip parse_letters mapped_literal number addr_of cidr_for_request to4 purge
    record_entry refresh_or_add find peer_trusted remote_ip persist_locked write join cut put
    seconds ◌*ℤ◌ wrap
was_recorded = refl

handle_root-IsSuccess_example : IsSuccess config world extractor login server new_entry
handle_root-IsSuccess_example =
    handle_root-IsSuccess config world extractor login server new_entry was_recorded

-- ===== src/Tests/Service.antt =====
-- The server as a process: its configuration, its events, its pages and its notices.
use nft_auth_whitelist.Prelude.{
  some, none, List, [], ◌∷◌, ◌≡◌, refl, true, false, inl, inr, arith, All, Bool,
}
use nft_auth_whitelist.Prelude.Int.{pos}
use nft_auth_whitelist.Text.{Text, text, text_eq, has_prefix, lower, trim}
use nft_auth_whitelist.AtomicFile.{Disk, File}
use nft_auth_whitelist.Config.{ServerConfig}
use nft_auth_whitelist.Dict.{find}
use nft_auth_whitelist.Store.{Store, new, load}
use nft_auth_whitelist.Server
use nft_auth_whitelist.Server.{
  Server, World, Event, Host, Process, request, purge_tick, reconcile_tick, Reach, here, next,
  purged_tick, main, status_of, serve, step, do_push, Formats, markup, render_root, root_scope,
  new_extractor, new_server,
}
use nft_auth_whitelist.Server.Life.{IsServing, main-IsServing}
use nft_auth_whitelist.Server.Markup.{markup-render_root}
use nft_auth_whitelist.Signer.{Entry}
use nft_auth_whitelist.SshPush.{PushResult}
use nft_auth_whitelist.Config.{
  load_server_config, validate_server, validate_push, validate_notify, validate_credential,
  validate_trusted_proxy_cidrs, effective_trusted_proxy_cidrs,
}
use nft_auth_whitelist.Server.Steps.{kept, serve-Reach}
use nft_auth_whitelist.Server.Invariant
use nft_auth_whitelist.Server.Invariant.{Holds, Reach-Holds, tick-IsCurrent}
use nft_auth_whitelist.Server.Hiding.{IsHidable}
use nft_auth_whitelist.Server.Secrecy.{Hides, do_push-Hides}
use nft_auth_whitelist.Tests.Sample.{sample_store_json, sample_syntax, empty_disk, entry}
use nft_auth_whitelist.Tests.Requests.{config, world, server, login, extractor}

abbrev always : Text → Bool
always p = true

abbrev events : List Event
events =
    request world 10000000000 login
    ∷ reconcile_tick world 20000000000
    ∷ purge_tick world 30000000000
    ∷ []

serve-Reach_example :
    Reach config extractor always events
      (kept server)
      (kept (serve config extractor always events server))
serve-Reach_example = serve-Reach config extractor always events server

abbrev empty_store : Store
empty_store = record { path = text "entries.json"; max_entries = 10; entries = [] }

opened :
    (new sample_store_json [] (text "entries.json") (pos 10) true true empty_disk).1
    ≡ some empty_store
unfolding new load find text_eq
opened = refl

abbrev after_purge : Store × Disk
after_purge = Server.purge_at config extractor always world 30000000000 (empty_store, empty_disk)

Reach-Holds_example : Holds config extractor always events empty_store after_purge.0
Reach-Holds_example =
    Reach-Holds config extractor always sample_store_json [] (text "entries.json") (pos 10) true
      true empty_disk empty_store opened events after_purge
      (next _ (inr (inr (inl refl))) here (purged_tick world 30000000000 refl))

tick-IsCurrent_example :
    All
      (Invariant.IsCurrent config extractor always sample_store_json []
        (text "entries.json")
        (pos 10)
        true
        true
        empty_disk
        empty_store
        opened
        events
        40000000000)
      (step config extractor always (purge_tick world 40000000000) (
        Invariant.served config extractor always sample_store_json []
          (text "entries.json")
          (pos 10)
          true
          true
          empty_disk
          empty_store
          opened
          events)).store.entries
tick-IsCurrent_example =
    tick-IsCurrent config extractor always sample_store_json [] (text "entries.json") (pos 10) true
      true empty_disk empty_store opened events world 40000000000

abbrev pub guarded : ServerConfig
guarded = record config {
  password = text "correct horse battery";
  pull_token = text "0123456789abcdef0123456789abcdef";
  hmac_secret = text "fedcba9876543210fedcba9876543210";
}

hidable : IsHidable guarded.password
hidable = record { long = omega arith; plain = ground arith }

do_push-Hides_example :
    All
      (Hides guarded world guarded.password (inr (inr refl)) hidable)
      (do_push guarded world 10000000000 server).0
unfolding has_prefix
do_push-Hides_example =
    do_push-Hides guarded world guarded.password (inr (inr refl)) hidable (ground arith)
      (ground arith) (ground arith) 10000000000 server

duration_plain : markup (text "1m0s") ≡ []
unfolding markup
duration_plain = refl

rfc3339_plain : markup (text "2026-01-01T00:00:00Z") ≡ []
unfolding markup
rfc3339_plain = refl

abbrev formats : Formats
formats = record {
  duration = λ d. text "1m0s";
  rfc3339 = λ t. text "2026-01-01T00:00:00Z";
  duration_plain = λ d. duration_plain;
  rfc3339_plain = λ t. rfc3339_plain;
}

abbrev hostile : PushResult
hostile = record {
  name = text "<script>";
  host = text "host";
  port = pos 22;
  duration_ms = pos 7;
  ok = false;
  exit_status = pos 1;
  stdout = [];
  reason = text "</code></li><h1>";
}

abbrev harmless : PushResult
harmless = record hostile { name = text "po0"; reason = text "refused" }

-- The same record, if the client could choose the text of its address.
abbrev injected : Entry
injected = record (entry (text "x/32")) { ip = text "\"><h1>" }

markup-render_root_example :
    markup (render_root sample_syntax formats guarded (entry (text "x/32")) (hostile ∷ []))
    ≡ markup (render_root sample_syntax formats guarded injected (harmless ∷ []))
markup-render_root_example =
    markup-render_root sample_syntax formats guarded (entry (text "x/32")) injected (hostile ∷ [])
      (harmless ∷ []) refl (refl, tt)

abbrev pub file : File
file = record { content = text "{}"; perm = 0o600 }

-- A configuration file, which the decoder takes for the configuration above.
abbrev pub configured : Disk
configured = record empty_disk { files = (text "server.json", file) ∷ [] }

abbrev pub host : Host
host = record {
  syn = sample_syntax;
  parse_url = λ u. none;
  decode = λ b c. some guarded;
  join = λ a b. b;
  store_json = sample_store_json;
  is_clean = always;
}

abbrev process : Process
process = record {
  show_version = false;
  config_path = text "server.json";
  config_readable = true;
  audit_opens = true;
  mkdir_ok = true;
  entries_readable = true;
  events = events;
  ending = Server.stopped;
}

abbrev running : Server
running = serve guarded (new_extractor sample_syntax guarded) always events (
    new_server guarded (record empty_store { path = text "entries.json"; max_entries = 200 })
      configured)

serves : main host process configured ≡ Server.served (some 0) running
unfolding main status_of new load find text_eq load_server_config validate_server validate_push
    validate_notify has_prefix lower trim validate_credential validate_trusted_proxy_cidrs
    effective_trusted_proxy_cidrs
serves = refl

main-IsServing_example : IsServing host process configured running
main-IsServing_example = main-IsServing host process configured (some 0) running serves

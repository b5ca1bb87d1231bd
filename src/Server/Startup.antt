-- ===== src/Server/Startup.antt =====
-- cmd/auth-server/main.go: the flags, the configuration, the audit log, the store, and the service.
use nft_auth_whitelist.Prelude.{ℕ, Option, none, some, List, Bool, if◌then◌else◌}
use nft_auth_whitelist.Text.{Text, text}
use nft_auth_whitelist.Net.Ip.{AddressSyntax}
use nft_auth_whitelist.AtomicFile.{Disk}
use nft_auth_whitelist.Config
use nft_auth_whitelist.Config.{Decoder, Loaded, loaded, load_server_config, Url}
use nft_auth_whitelist.Store.{Store, StoreJson, StoreError, new}
use nft_auth_whitelist.Server.Defs.{Server, ServerConfig}
use nft_auth_whitelist.Server.Program.{Event, new_extractor, new_server, serve}

-- How it is with the process: it serves, ListenAndServe failed, or a signal stopped it.
pub data Ending : Type 0 where
  running listen_failed stopped : Ending

-- What is given to the process, and the requests and ticks of its life so far, those for which the
-- shutdown waits included.
pub record Process : Type 0 where
  pub show_version : Bool
  pub config_path : Text
  pub config_readable : Bool
  pub audit_opens : Bool
  pub mkdir_ok : Bool
  pub entries_readable : Bool
  pub events : List Event
  pub ending : Ending

-- The process ended before it served, or it served, with its exit status if it has ended.
pub data Exit : Type 0 where
  ended : ℕ → Exit
  served : Option ℕ → Server → Exit

unfoldable pub status_of : Ending → Option ℕ
status_of running = none
status_of listen_failed = some 1
status_of stopped = some 0

-- What the process takes from Go.
pub record Host : Type 0 where
  pub syn : AddressSyntax
  pub parse_url : Text → Option Url
  pub decode : Decoder ServerConfig
  pub join : Text → Text → Text
  pub store_json : StoreJson
  pub is_clean : Text → Bool

module _ (h : Host) where
  abbrev pub open_store : Process → ServerConfig → Disk → Option StoreError × Option Store
  open_store p cfg d =
      new h.store_json cfg.data_dir (h.join cfg.data_dir (text "entries.json")) cfg.max_entries
        p.mkdir_ok p.entries_readable d

  unfoldable pub with_store : Process → ServerConfig → Disk → Option Store → Exit
  unfolding new_extractor new_server serve status_of
  with_store p cfg d none = ended 1
  with_store p cfg d (some st) =
      served (status_of p.ending)
        (serve cfg (new_extractor h.syn cfg) h.is_clean p.events (new_server cfg st d))

  unfoldable pub with_config : Process → Disk → Loaded ServerConfig → Exit
  unfolding with_store new
  with_config p d (Config.failed e) = ended 1
  with_config p d (loaded cfg) =
      if p.audit_opens then with_store p cfg d (open_store p cfg d).1 else ended 1

  unfoldable pub main : Process → Disk → Exit
  unfolding with_config load_server_config
  main p d =
      if p.show_version
      then ended 0
      else with_config p d
          (load_server_config h.join h.syn h.parse_url h.decode p.config_readable d p.config_path)

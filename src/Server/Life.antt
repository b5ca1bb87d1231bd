-- ===== src/Server/Life.antt =====
-- From the command line to any moment of the service.
use nft_auth_whitelist.Prelude.{ℕ, Option, none, some, ◌≡◌, refl, subst, inl, inr, Bool-cases}
use nft_auth_whitelist.Text.{text}
use nft_auth_whitelist.AtomicFile.{Disk}
use nft_auth_whitelist.Config
use nft_auth_whitelist.Config.{Loaded, loaded, load_server_config}
use nft_auth_whitelist.Config.Ready.{IsReady, load_server_config-IsReady}
use nft_auth_whitelist.Store.{Store}
use nft_auth_whitelist.Server.Defs.{Server, ServerConfig}
use nft_auth_whitelist.Server.Program.{new_extractor, new_server, serve}
use nft_auth_whitelist.Server.Invariant.{Holds, served-Holds}
use nft_auth_whitelist.Server.Startup.{
  Process, Host, ended, served, open_store, with_store, with_config, main,
}

module _ (h : Host) (p : Process) (d : Disk) where
  -- What holds of a server that serves.
  pub record IsServing (s : Server) : Type 0 where
    pub cfg : ServerConfig
    pub start : Store
    pub given :
        load_server_config h.join h.syn h.parse_url h.decode p.config_readable d p.config_path
        ≡ loaded cfg
    pub ready : IsReady h.syn h.parse_url cfg
    pub opened : (open_store h p cfg d).1 ≡ some start
    pub holds : Holds cfg (new_extractor h.syn cfg) h.is_clean p.events start s.store

  store_cases :
      (cfg : ServerConfig) (o : Option Store) (n : Option ℕ) (s : Server)
      → load_server_config h.join h.syn h.parse_url h.decode p.config_readable d p.config_path
        ≡ loaded cfg
      → (open_store h p cfg d).1 ≡ o
      → with_store h p cfg d o ≡ served n s
      → IsServing s
  unfolding with_store
  store_cases cfg none n s l e k = absurd (cc)
  store_cases cfg (some st) n s l e k =
      let same : serve cfg (new_extractor h.syn cfg) h.is_clean p.events (new_server cfg st d) ≡ s =
        cc in
      record {
        cfg = cfg;
        start = st;
        given = l;
        ready =
            load_server_config-IsReady h.join h.syn h.parse_url h.decode p.config_readable d
              p.config_path cfg l;
        opened = e;
        holds =
            subst (λ t. Holds cfg (new_extractor h.syn cfg) h.is_clean p.events st t.store) same
              (served-Holds cfg (new_extractor h.syn cfg) h.is_clean h.store_json cfg.data_dir
                (h.join cfg.data_dir (text "entries.json")) cfg.max_entries p.mkdir_ok
                p.entries_readable d st e p.events);
      }

  config_cases :
      (o : Loaded ServerConfig) (n : Option ℕ) (s : Server)
      → load_server_config h.join h.syn h.parse_url h.decode p.config_readable d p.config_path ≡ o
      → with_config h p d o ≡ served n s
      → IsServing s
  unfolding with_config
  config_cases (Config.failed e) n s l k = absurd (cc)
  config_cases (loaded cfg) n s l k = elim (Bool-cases p.audit_opens) [
    | inl a ↦ store_cases cfg (open_store h p cfg d).1 n s l refl (simp (with_config, a) at k)
    | inr a ↦
        let no : with_config h p d (loaded cfg) ≡ ended 1 = simp (with_config, a) in absurd (cc)
  ]

  -- If the server's process serves or has served, whatever its requests and ticks so far and
  -- however it ended, then it was given a configuration that LoadServerConfig accepts, with long
  -- secrets that are no placeholders and with positive limits, and a store that New opened; and its
  -- store now is valid, within max_entries or no larger than at the start, and each of its records
  -- is one of the start or was last recorded by one of these requests, which was admitted, under a
  -- CIDR that CIDRForRequest allowed for it, and expires a time to live after that.
  pub main-IsServing : (n : Option ℕ) (s : Server) → main h p d ≡ served n s → IsServing s
  unfolding main
  main-IsServing n s k = elim (Bool-cases p.show_version) [
    | inl v ↦ let no : main h p d ≡ ended 0 = simp (main, v) in absurd (cc)
    | inr v ↦ config_cases _ n s refl (simp (main, v) at k)
  ]

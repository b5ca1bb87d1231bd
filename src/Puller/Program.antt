-- ===== src/Puller/Program.antt =====
-- cmd/puller/main.go: the flags, the configuration, the audit log, and the cycles: one, or one at
-- once and one for each tick until the process is stopped.
use nft_auth_whitelist.Prelude.{ℕ, List, [], ◌∷◌, Bool, ◌||◌, if◌then◌else◌}
use nft_auth_whitelist.Text.{Text}
use nft_auth_whitelist.Clock.{Time}
use nft_auth_whitelist.Signer.{Crypto}
use nft_auth_whitelist.Net.Ip.{AddressSyntax}
use nft_auth_whitelist.AtomicFile.{Disk}
use nft_auth_whitelist.Audit.{Log}
use nft_auth_whitelist.Config
use nft_auth_whitelist.Config.{Decoder, Loaded, loaded, load_puller_config}
use nft_auth_whitelist.Pipeline.{StateJson}
use nft_auth_whitelist.Receive.{EnvelopeJson}
use nft_auth_whitelist.Puller.Defs.{PullerConfig, Options, World, Finish}
use nft_auth_whitelist.Puller.Run.{run_once}

-- What a cycle meets, and when.
pub record Round : Type 0 where
  pub world : World
  pub now : Time

-- What the cycles change: the files, the audit log, and the guards that nft has loaded.
pub record State : Type 0 where
  pub disk : Disk
  pub audit : Log
  pub guards : List Text

pub record Process : Type 0 where
  pub once : Bool
  pub options : Options
  pub show_version : Bool
  pub config_path : Text
  pub config_readable : Bool
  pub audit_opens : Bool
  pub first : Round
  pub ticks : List Round

-- The process ended by itself, or it was stopped in its loop.
pub data Exit : Type 0 where
  ended : ℕ → State → Exit
  stopped : State → Exit

module _ (crypto : Crypto) (syn : AddressSyntax) (env_json : EnvelopeJson) (json : StateJson) where
  abbrev pub finished : Options → PullerConfig → Round → State → Finish
  finished opts cfg r s =
      run_once crypto syn env_json json opts r.world r.now cfg s.disk s.audit s.guards

  -- An error of a cycle is printed, and the loop goes on.
  unfoldable pub cycle : Options → PullerConfig → Round → State → State
  cycle opts cfg r s =
      let f = finished opts cfg r s in record { disk = f.disk; audit = f.audit; guards = f.loaded }

  unfoldable pub cycles : Options → PullerConfig → List Round → State → State
  unfolding cycle
  cycles opts cfg [] s = s
  cycles opts cfg (r ∷ rs) s = cycles opts cfg rs (cycle opts cfg r s)

  module _ (clean : Text → Text) (decode : Decoder PullerConfig) where
    unfoldable pub with_config : Process → State → Loaded PullerConfig → Exit
    unfolding cycles
    with_config p s (Config.failed e) = ended 1 s
    with_config p s (loaded cfg) =
        if p.audit_opens
        then (if p.once || p.options.dry_run
            then ended 0 (cycle p.options cfg p.first s)
            else stopped (cycles p.options cfg (p.first ∷ p.ticks) s))
        else ended 1 s

    -- With -version the process only prints a line.
    unfoldable pub main : Process → State → Exit
    unfolding with_config
    main p s =
        if p.show_version
        then ended 0 s
        else with_config p s
            (load_puller_config clean decode p.config_readable s.disk p.config_path)

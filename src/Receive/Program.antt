-- ===== src/Receive/Program.antt =====
-- cmd/receive/main.go: the flags, the configuration, the audit log, one run, and the exit status.
use nft_auth_whitelist.Prelude.{ℕ, Option, none, some, [], ◌++◌, Bool, if◌then◌else◌}
use nft_auth_whitelist.Text.{Text, text}
use nft_auth_whitelist.Clock.{Time}
use nft_auth_whitelist.Signer.{Crypto}
use nft_auth_whitelist.Net.Ip.{AddressSyntax}
use nft_auth_whitelist.AtomicFile.{Disk}
use nft_auth_whitelist.Version.{Build, string}
use nft_auth_whitelist.Config.{ReceiveConfig, Decoder, Loaded, loaded, load_receive_config}
use nft_auth_whitelist.Config
use nft_auth_whitelist.Pipeline.{StateJson}
use nft_auth_whitelist.Receive.Defs.{EnvelopeJson, Stdin, Answers, Finish, ReceiveError, run}

-- What is given to the process: its flags and its input, what the system answers, and the time.
pub record Process : Type 0 where
  pub show_version : Bool
  pub config_path : Text
  pub config_readable : Bool
  pub audit_opens : Bool
  pub stdin : Stdin
  pub answers : Answers
  pub now : Time

-- What the process leaves.
pub record Exit : Type 0 where
  pub status : ℕ
  pub disk : Disk
  pub stdout : Text

module _ (crypto : Crypto) (syn : AddressSyntax) (env_json : EnvelopeJson) (json : StateJson)
    (clean : Text → Text) (decode : Decoder ReceiveConfig) (build : Build) where
  abbrev stop : Disk → Exit
  stop d = record { status = 1; disk = d; stdout = [] }

  abbrev status_of : Option ReceiveError → ℕ
  status_of none = 0
  status_of (some e) = 1

  unfoldable pub exit_of : Finish → Exit
  exit_of f = record { status = status_of f.error; disk = f.disk; stdout = f.stdout }

  unfoldable pub with_config : Process → Disk → Loaded ReceiveConfig → Exit
  unfolding exit_of
  with_config p d (Config.failed e) = stop d
  with_config p d (loaded cfg) =
      if p.audit_opens
      then exit_of (run crypto syn env_json json p.answers p.now cfg p.stdin d [])
      else stop d

  unfoldable pub main : Process → Disk → Exit
  unfolding with_config
  main p d =
      if p.show_version
      then record { status = 0; disk = d; stdout = string build ++ text "\n" }
      else with_config p d (load_receive_config clean decode p.config_readable d p.config_path)

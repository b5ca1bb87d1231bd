-- ===== src/Server/Defs.antt =====
-- The state of the server, its requests and its pages. net/http hands over a parsed request.
use nft_auth_whitelist.Prelude.{ℕ, Option, List, Bool}
use nft_auth_whitelist.Text.{Text}
use nft_auth_whitelist.Clock.{Time, Duration}
use nft_auth_whitelist.Dict.{MapOrder}
use nft_auth_whitelist.Signer.{Entry, Envelope, Crypto}
use nft_auth_whitelist.Net.Ip.{Ip, AddressSyntax}
use nft_auth_whitelist.AtomicFile.{Disk, Outcomes}
use nft_auth_whitelist.Audit.{Log, Value}
use nft_auth_whitelist.Auth.{Sha256}
use nft_auth_whitelist.ClientIp
use nft_auth_whitelist.ClientIp.{Extractor}
use nft_auth_whitelist.RateLimit.{Limiter, Bucket}
use nft_auth_whitelist.SshPush.{PushResult, Run}
pub use nft_auth_whitelist.Config.{ServerConfig}
use nft_auth_whitelist.Store.{Store, StoreJson}

-- What is handed to the notifier.
pub record Notice : Type 0 where
  pub event : Text
  pub fields : List (Text × Value)

-- What a request may change.
pub record Server : Type 0 where
  pub store : Store
  pub limiter : Limiter
  pub disk : Disk
  pub audit : Log
  pub notices : List Notice

pub data Method : Type 0 where
  get post other : Method

-- `scope_query` is the parameter in the URL, `scope_form` the one in a form that parses.
pub record Request : Type 0 where
  pub path : Text
  pub method : Method
  pub client : ClientIp.Request
  pub credentials : Option (Text × Text)
  pub authorization : Text
  pub scope_query : Text
  pub scope_form : Option Text

-- What the program takes from Go and the system: libraries, the order of map loops, the outcomes of
-- the writes, whether the freeze file is there, the readings of the clock, and ssh.
pub record World : Type 0 where
  pub sha : Sha256
  pub crypto : Crypto
  pub syn : AddressSyntax
  pub store_json : StoreJson
  pub marshal_envelope : Envelope → Option Text
  pub marshal_indent : Envelope → Option Text
  pub entry_order : MapOrder Entry
  pub bucket_order : MapOrder Bucket
  pub purge_io : Outcomes
  pub record_io : Outcomes
  pub freeze_there : Bool
  pub failed_at : Time
  pub purged_at : Time
  pub recorded_at : Time
  pub pushed_at : Time
  pub ssh : List Text → Text → Duration → Run
  -- The budget that is left before the n-th target.
  pub until : ℕ → Duration

pub data Page : Type 0 where
  not_found method_not_allowed too_many unauthorized frozen no_source family_refused
        internal_error :
      Page
  form : Ip → Page
  success : Entry → List PushResult → Page

-- The answers of the exports.
pub data Export : Type 0 where
  denied failed : Export
  body : Text → Export

-- ===== src/Delivery/Pulled.antt =====
-- What a puller holds when it has fetched the export of the server.

use nft_auth_whitelist.Prelude.{some, List, ◌<◌, ◌≡◌, ◌↔◌, true, false, length, length-perm}
use nft_auth_whitelist.Prelude.Int.{pos, ltb_ℤ}
use nft_auth_whitelist.Text.{Text}
use nft_auth_whitelist.Clock.{Time, add, truncate}
use nft_auth_whitelist.Signer.{Envelope, Crypto}
use nft_auth_whitelist.Net.Ip.{AddressSyntax}
use nft_auth_whitelist.AtomicFile.{Disk}
use nft_auth_whitelist.Audit.{Log}
use nft_auth_whitelist.Store.{Store, build_envelope}
use nft_auth_whitelist.Store.Snapshot.{IsValid, current, build_envelope-IsFresh}
use nft_auth_whitelist.Pipeline.{Result, StateJson, filtered, verify_and_filter}
use nft_auth_whitelist.Pipeline.Outputs.{IsMarshalled}
use nft_auth_whitelist.Pipeline.Lines.{has}
use nft_auth_whitelist.Pipeline.Verified.{SomeAccepted}
use nft_auth_whitelist.Receive.{EnvelopeJson}
use nft_auth_whitelist.Puller
use nft_auth_whitelist.Puller.{PullerConfig, Options, Finish, pipeline_params, run_once, pulled}
use nft_auth_whitelist.Puller.Success.{IsAnswered, fetch_envelope-IsAnswered}
use nft_auth_whitelist.Puller.Working.{IsWorking, HasList, run_once-HasList}
use nft_auth_whitelist.Server
use nft_auth_whitelist.Server.{Server, ServerConfig, Request, body, handle_allow_json, envelope_ttl}
use nft_auth_whitelist.Server.Serving.{handle_allow_json-IsServed}
use nft_auth_whitelist.Delivery.{envelope_delivered}

-- The cycle succeeded, and allow.txt lists exactly what the current entries of the store give.
pub record IsDelivered (crypto : Crypto) (syn : AddressSyntax) (opts : Options) (cfg : PullerConfig)
    (loaded : List Text) (now later : Time) (s : Store) (f : Finish) : Type 0 where
  pub res : Result
  pub list : HasList syn opts cfg loaded res f
  pub exact :
      (c : Text)
      → (has c res.cidrs ≡ true)
        ↔ SomeAccepted crypto syn (pipeline_params cfg) later c (current (truncate now) s.entries)

-- The body reads back as the envelope that BuildEnvelope signs, if it is the JSON of it.
abbrev pub ReadsBack : EnvelopeJson → ServerConfig → Server.World → Time → Server → Text → Type 0
ReadsBack env_json scfg sw now s b =
    (env : Envelope)
    → build_envelope sw.crypto sw.entry_order now envelope_ttl scfg.hmac_secret s.store ≡ some env
    → sw.marshal_indent env ≡ some b
    → env_json.unmarshal b ≡ some env

module _ (syn : AddressSyntax) (env_json : EnvelopeJson) (json : StateJson) (scfg : ServerConfig)
    (sw : Server.World) (now : Time) (r : Request) (s : Server) (opts : Options) (w : Puller.World)
    (later : Time) (cfg : PullerConfig) (d : Disk) (al : Log) (loaded : List Text) (b : Text) where
  -- If the server's store is valid, the answer of the handler of /allow.json to a request is what
  -- the puller gets, within its limit, and reads back as the envelope that was signed under the
  -- shared secret, and it is within max_entries and has not expired, then a cycle of the puller
  -- that is no dry run, has https where it has to, has the paths of its outputs and temporary files
  -- apart, and whose calls all succeed, the marshalling of the state that it writes included, has
  -- no error; allow.txt holds exactly the CIDRs that the current entries of the store give to a
  -- puller with these settings at that time, and nft has loaded the script for them if that is
  -- asked for and allowed.
  pub run_once-IsDelivered :
      IsValid s.store
      → (handle_allow_json scfg sw now r s).0 ≡ body b
      → cfg.hmac_secret ≡ scfg.hmac_secret
      → IsAnswered w cfg b
      → ReadsBack env_json scfg sw now s b
      → IsWorking opts w cfg
      → later < truncate (add (truncate now) envelope_ttl)
      → ltb_ℤ cfg.max_entries (pos (length (current (truncate now) s.store.entries))) ≡ false
      → ((env : Envelope) (res : Result)
          → build_envelope sw.crypto sw.entry_order now envelope_ttl scfg.hmac_secret s.store
            ≡ some env
          → (verify_and_filter sw.crypto syn env (pipeline_params cfg) (pulled env al) later).0
            ≡ filtered res
          → IsMarshalled json later res (pipeline_params cfg))
      → IsDelivered sw.crypto syn opts cfg loaded now later s.store
          (run_once sw.crypto syn env_json json opts w later cfg d al loaded)
  run_once-IsDelivered v h k a u work l m states =
      let served = handle_allow_json-IsServed scfg sw now r s b h in
      let f =
        build_envelope-IsFresh sw.crypto now envelope_ttl scfg.hmac_secret s.store v sw.entry_order
          served.signed in
      let size = length-perm f.export.exact in
      let e = u served.env served.signed served.shown in
      let (res, t, exact) =
        envelope_delivered sw.crypto syn sw.entry_order now later envelope_ttl s.store served.env
          (pipeline_params cfg) (pulled served.env al) v (rw k served.signed) l (rw size m) in
      record {
        res = res;
        list =
            run_once-HasList sw.crypto syn env_json json opts w later cfg d al loaded served.env res
              work (fetch_envelope-IsAnswered env_json w cfg d b served.env a e) t
              (states served.env res served.signed t);
        exact = exact;
      }

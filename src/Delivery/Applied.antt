-- ===== src/Delivery/Applied.antt =====
-- What a receiver holds when it has run on what the server pushes.
use nft_auth_whitelist.Prelude.{ℕ, some, [], ◌∷◌, ◌<◌, ◌≡◌, ◌↔◌, true, false, length}
use nft_auth_whitelist.Prelude.Int.{pos, ltb_ℤ}
use nft_auth_whitelist.Text.{Text}
use nft_auth_whitelist.Dict.{MapOrder}
use nft_auth_whitelist.Clock.{Time, Duration, add, truncate}
use nft_auth_whitelist.Signer.{Entry, Envelope, Crypto}
use nft_auth_whitelist.Net.Ip.{AddressSyntax}
use nft_auth_whitelist.AtomicFile.{Disk}
use nft_auth_whitelist.Version.{Build}
use nft_auth_whitelist.Config.{ReceiveConfig, Decoder}
use nft_auth_whitelist.Store.{Store, build_envelope}
use nft_auth_whitelist.Store.Snapshot.{IsValid, current}
use nft_auth_whitelist.Pipeline.{Result, StateJson, filtered, verify_and_filter}
use nft_auth_whitelist.Pipeline.Outputs.{IsMarshalled}
use nft_auth_whitelist.Pipeline.Lines.{has}
use nft_auth_whitelist.Pipeline.Verified.{SomeAccepted}
use nft_auth_whitelist.Receive.{EnvelopeJson, Process, Exit, pipeline_params, main}
use nft_auth_whitelist.Receive.Success.{IsReadable}
use nft_auth_whitelist.Receive.Working.{IsWorking, HasList, main-HasList}
use nft_auth_whitelist.Delivery.{envelope_delivered}

-- The receiver succeeded, and allow.txt lists exactly what the current entries of the store give.
pub record IsDelivered (crypto : Crypto) (syn : AddressSyntax) (cfg : ReceiveConfig)
    (now later : Time) (s : Store) (e : Exit) : Type 0 where
  pub res : Result
  pub list : HasList cfg res e
  pub exact :
      (c : Text)
      → (has c res.cidrs ≡ true)
        ↔ SomeAccepted crypto syn (pipeline_params cfg) later c (current (truncate now) s.entries)

module _ (crypto : Crypto) (syn : AddressSyntax) (env_json : EnvelopeJson) (json : StateJson)
    (clean : Text → Text) (decode : Decoder ReceiveConfig) (build : Build) where
  -- If the server's store is valid and BuildEnvelope signs it under the receiver's secret, and a
  -- receiver that is not asked for its version, loads its configuration, has temporary files with
  -- names of their own, and whose calls all succeed, the marshalling of the state that it writes
  -- included, reads a JSON text of that envelope within its input limit, before the envelope
  -- expires and with max_entries not exceeded, then the receiver exits with status 0, and allow.txt
  -- holds exactly the CIDRs that the current entries of the store give to a receiver with these
  -- settings at that time.
  pub main-IsDelivered :
      (ord : MapOrder Entry) (now : Time) (ttl : Duration) (s : Store) (env : Envelope)
      (p : Process) (d : Disk) (cfg : ReceiveConfig) (c : ℕ) (b : Text)
      → IsValid s
      → build_envelope crypto ord now ttl cfg.hmac_secret s ≡ some env
      → IsWorking clean decode p d cfg
      → IsReadable cfg p.stdin (c ∷ b)
      → env_json.unmarshal (c ∷ b) ≡ some env
      → p.now < truncate (add (truncate now) ttl)
      → ltb_ℤ cfg.max_entries (pos (length env.entries)) ≡ false
      → ((res : Result)
          → (verify_and_filter crypto syn env (pipeline_params cfg) [] p.now).0 ≡ filtered res
          → IsMarshalled json p.now res (pipeline_params cfg))
      → IsDelivered crypto syn cfg now p.now s
          (main crypto syn env_json json clean decode build p d)
  main-IsDelivered ord now ttl s env p d cfg c b v e work r u l m states =
      let (res, t, exact) =
        envelope_delivered crypto syn ord now p.now ttl s env (pipeline_params cfg) [] v e l m in
      record {
        res = res;
        list =
            main-HasList crypto syn env_json json clean decode build p d cfg work c b env res r u t
              (states res t);
        exact = exact;
      }

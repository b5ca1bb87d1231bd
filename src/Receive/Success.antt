-- ===== src/Receive/Success.antt =====
-- A run in which every call succeeds has no error.
use nft_auth_whitelist.Prelude.{
  ℕ, suc, Option, refl, none, some, ◌∷◌, ◌≤◌, ◌<◌, ◌≡◌, false, arith, length, ltb,
}
use nft_auth_whitelist.Prelude.Int.{pos, half_word}
use nft_auth_whitelist.Text.{Text}
use nft_auth_whitelist.Clock.{Time}
use nft_auth_whitelist.Signer.{Envelope, Crypto}
use nft_auth_whitelist.Net.Ip.{AddressSyntax}
use nft_auth_whitelist.AtomicFile.{Disk, Syscall, Succeeds, write_with_dir-Succeeds}
use nft_auth_whitelist.Audit.{Log}
use nft_auth_whitelist.Pipeline.{
  Result, StateJson, Verdict, WriteError, filtered, verify_and_filter,
}
use nft_auth_whitelist.Pipeline.Outputs.{IsMarshalled, write_outputs-Succeeds}
use nft_auth_whitelist.Receive.Defs.{
  Stdin, ReceiveConfig, EnvelopeJson, Answers, data_, pipeline_params, finish, export_outputs,
  after_verdict, after_parse, after_read, read_limited, run,
}
use nft_auth_whitelist.Receive.Limits.{read_limited-bounded}

-- The input is not empty, is within the limit of the configuration, and is read to its end.
pub record IsReadable (cfg : ReceiveConfig) (stdin : Stdin) (b : Text) : Type 0 where
  pub bytes : stdin.bytes ≡ b
  pub ends : stdin.fails ≡ false
  pub limit : ℕ
  pub configured : cfg.input_max_bytes ≡ pos limit
  pub small : suc limit < half_word
  pub within : length b ≤ limit

pub read_limited-IsReadable :
    (cfg : ReceiveConfig) (stdin : Stdin) (b : Text)
    → IsReadable cfg stdin b
    → read_limited stdin cfg.input_max_bytes ≡ data_ b
read_limited-IsReadable cfg stdin b r =
    let h : ltb r.limit (length b) ≡ false = let w = r.within in ground (arith, w) in
    rw (r.configured, read_limited-bounded stdin r.limit r.small, r.bytes, h, r.ends)

-- The system's calls for the three files all succeed.
pub record AllSucceed (io : Answers) : Type 0 where
  pub inbox : Succeeds io.inbox
  pub state : Succeeds io.state
  pub allow : Succeeds io.allow

module _ (crypto : Crypto) (syn : AddressSyntax) (env_json : EnvelopeJson) (json : StateJson) where
  module _ (io : Answers) (cfg : ReceiveConfig) (now : Time) (good : AllSucceed io) where
    finish-none :
        (res : Result) (w : Option WriteError × Disk × Log)
        → w.0 ≡ none
        → (finish crypto syn env_json json cfg res w).error ≡ none
    unfolding finish
    finish-none res (none, d, al) h = refl
    finish-none res (some e, d, al) h = absurd (cc)

    export_outputs-none :
        (res : Result) (al : Log) (w : Option Syscall × Disk)
        → IsMarshalled json now res (pipeline_params cfg)
        → w.0 ≡ none
        → (export_outputs crypto syn env_json json io now cfg res al w).error ≡ none
    unfolding export_outputs
    export_outputs-none res al (none, d) m h =
        finish-none res _
          (write_outputs-Succeeds json io.state io.allow good.state good.allow now res _ d al m)
    export_outputs-none res al (some e, d) m h = absurd (cc)

    after_verdict-none :
        (b : Text) (d : Disk) (res : Result) (v : Verdict × Log)
        → IsMarshalled json now res (pipeline_params cfg)
        → v.0 ≡ filtered res
        → (after_verdict crypto syn env_json json io now cfg b d v).error ≡ none
    unfolding after_verdict
    after_verdict-none b d res (v, al) m h = rw (h) (
        export_outputs-none res al _ m
          (write_with_dir-Succeeds io.inbox cfg.inbox_allow_json b 0o600 d good.inbox))

    -- If the input can be read and is an envelope that VerifyAndFilter accepts, and every call of
    -- the system succeeds, then a run has no error.
    pub run-none :
        (stdin : Stdin) (d : Disk) (al : Log) (c : ℕ) (b : Text) (env : Envelope) (res : Result)
        → IsReadable cfg stdin (c ∷ b)
        → env_json.unmarshal (c ∷ b) ≡ some env
        → (verify_and_filter crypto syn env (pipeline_params cfg) al now).0 ≡ filtered res
        → IsMarshalled json now res (pipeline_params cfg)
        → (run crypto syn env_json json io now cfg stdin d al).error ≡ none
    unfolding run after_read after_parse
    run-none stdin d al c b env res r p v m =
        let e = read_limited-IsReadable cfg stdin (c ∷ b) r in
        rw (run, e, after_read, p, after_parse) (after_verdict-none (c ∷ b) d res _ m v)

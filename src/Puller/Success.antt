-- ===== src/Puller/Success.antt =====
-- A cycle in which every call succeeds has no error, and the guard is loaded if that is asked for.
use nft_auth_whitelist.Prelude.{
  Option, none, some, List, ◌∷◌, ◌≡◌, inl, inr, true, false, ◌&&◌, Bool-cases, if◌then◌else◌,
  length, ◌≤◌,
}
use nft_auth_whitelist.Text.{Text, prefix-all}
use nft_auth_whitelist.Clock.{Time}
use nft_auth_whitelist.Signer.{Envelope, Crypto}
use nft_auth_whitelist.Net.Ip.{AddressSyntax}
use nft_auth_whitelist.AtomicFile.{Disk, Succeeds}
use nft_auth_whitelist.Audit.{Log}
use nft_auth_whitelist.Nft
use nft_auth_whitelist.Receive.{EnvelopeJson}
use nft_auth_whitelist.Pipeline.{
  Result, StateJson, Verdict, WriteError, filtered, verify_and_filter,
}
use nft_auth_whitelist.Pipeline.Outputs.{IsMarshalled, write_outputs-Succeeds}
use nft_auth_whitelist.Puller.Defs.{
  PullerConfig, Options, World, Finish, fetched, response, is_file, body_limit, decode,
  decode_response, check_status, fetch_envelope_http, pipeline_params, apply_allowed,
  fetch_envelope, build_nft_script,
}
use nft_auth_whitelist.Puller.Run.{
  pulled, after_apply, apply_guard, after_outputs, after_verdict, after_fetch, is_refused, run_once,
}

-- The writes and the calls of nft succeed.
pub record AllSucceed (w : World) : Type 0 where
  pub state : Succeeds w.state
  pub allow : Succeeds w.allow
  pub found : w.nft.found ≡ true
  pub checked : w.nft.check_ok ≡ true
  pub loads : w.nft.load_ok ≡ true

-- The cycle is no dry run, and a URL is https where it has to be.
pub record IsAsked (opts : Options) (cfg : PullerConfig) : Type 0 where
  pub writes : opts.dry_run ≡ false
  pub secure : is_refused cfg ≡ false

-- The scripts that are loaded after a cycle.
abbrev pub guards : AddressSyntax → Options → PullerConfig → List Text → List Text → List Text
guards syn opts cfg cidrs loaded =
    if opts.apply && apply_allowed cfg then build_nft_script syn cfg cidrs ∷ loaded else loaded

-- The server answers the puller's request with a body within the limit.
pub record IsAnswered (w : World) (cfg : PullerConfig) (b : Text) : Type 0 where
  pub http : is_file cfg ≡ false
  pub got : w.get cfg.server_url cfg.pull_token ≡ response 200 b none
  pub small : length b ≤ body_limit

pub fetch_envelope-IsAnswered :
    (env_json : EnvelopeJson) (w : World) (cfg : PullerConfig) (d : Disk) (b : Text)
    (env : Envelope)
    → IsAnswered w cfg b
    → env_json.unmarshal b ≡ some env
    → fetch_envelope env_json w cfg d ≡ fetched env
unfolding fetch_envelope fetch_envelope_http decode_response check_status decode
fetch_envelope-IsAnswered env_json w cfg d b env a u =
    let p = prefix-all body_limit b a.small in
    simp (
      fetch_envelope, a.http, fetch_envelope_http, a.got, decode_response, check_status,
      check_status, p, u, decode,
    )

module _ (crypto : Crypto) (syn : AddressSyntax) (env_json : EnvelopeJson) (json : StateJson)
    (opts : Options) (w : World) (now : Time) (cfg : PullerConfig) (good : AllSucceed w) where
  -- What a cycle that succeeds ends with.
  pub record IsDone (cidrs loaded : List Text) (f : Finish) : Type 0 where
    pub error : f.error ≡ none
    pub guard : f.loaded ≡ guards syn opts cfg cidrs loaded

  apply_guard-IsDone :
      (cidrs loaded : List Text) (d : Disk) (al : Log)
      → IsDone cidrs loaded (apply_guard crypto syn env_json json opts w cfg cidrs d al loaded)
  unfolding apply_guard after_apply Nft.apply
  apply_guard-IsDone cidrs loaded d al = elim (Bool-cases opts.apply) [
    | inr a ↦ record { error = simp (apply_guard, a); guard = simp (apply_guard, a) }
    | inl a ↦ elim (Bool-cases (apply_allowed cfg)) [
      | inr b ↦ record { error = simp (apply_guard, a, b); guard = simp (apply_guard, a, b) }
      | inl b ↦ record {
        error =
            simp (apply_guard, a, b, Nft.apply, good.found, good.checked, good.loads, after_apply);
        guard =
            simp (apply_guard, a, b, Nft.apply, good.found, good.checked, good.loads, after_apply);
      }
    ]
  ]

  module _ (asked : IsAsked opts cfg) where
    after_outputs-IsDone :
        (cidrs loaded : List Text) (o : Option WriteError × Disk × Log)
        → o.0 ≡ none
        → IsDone cidrs loaded (after_outputs crypto syn env_json json opts w cfg cidrs loaded o)
    unfolding after_outputs
    after_outputs-IsDone cidrs loaded (none, d, al) h = apply_guard-IsDone cidrs loaded d al
    after_outputs-IsDone cidrs loaded (some e, d, al) h = absurd (cc)

    after_verdict-IsDone :
        (loaded : List Text) (d : Disk) (res : Result) (v : Verdict × Log)
        → IsMarshalled json now res (pipeline_params cfg)
        → v.0 ≡ filtered res
        → IsDone res.cidrs loaded (after_verdict crypto syn env_json json opts w now cfg d loaded v)
    unfolding after_verdict
    after_verdict-IsDone loaded d res (v, al) m h =
        simp (h, after_verdict, asked.writes)
          (after_outputs-IsDone res.cidrs loaded _
            (write_outputs-Succeeds json w.state w.allow good.state good.allow now res _ d al m))

    -- If the source gives an envelope that VerifyAndFilter accepts, and every call of the system
    -- succeeds, then a cycle that is no dry run has no error, and the guard is loaded if that is
    -- asked for and allowed.
    pub run_once-IsDone :
        (d : Disk) (al : Log) (loaded : List Text) (env : Envelope) (res : Result)
        → fetch_envelope env_json w cfg d ≡ fetched env
        → (verify_and_filter crypto syn env (pipeline_params cfg) (pulled env al) now).0
          ≡ filtered res
        → IsMarshalled json now res (pipeline_params cfg)
        → IsDone res.cidrs loaded (run_once crypto syn env_json json opts w now cfg d al loaded)
    unfolding run_once after_fetch
    run_once-IsDone d al loaded env res f v m =
        rw (run_once, asked.secure, f, after_fetch) (after_verdict-IsDone loaded d res _ m v)

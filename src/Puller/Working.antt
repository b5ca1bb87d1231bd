-- ===== src/Puller/Working.antt =====
-- A working cycle ends with the list of what it fetched.
use nft_auth_whitelist.Prelude.{none, some, List, ◌≡◌, inl, inr}
use nft_auth_whitelist.Text.{Text}
use nft_auth_whitelist.Dict.{find}
use nft_auth_whitelist.Clock.{Time}
use nft_auth_whitelist.Signer.{Envelope, Crypto}
use nft_auth_whitelist.Net.Ip.{AddressSyntax}
use nft_auth_whitelist.AtomicFile.{Disk, new_file}
use nft_auth_whitelist.Audit.{Log}
use nft_auth_whitelist.Receive.{EnvelopeJson}
use nft_auth_whitelist.Pipeline.{Result, StateJson, filtered, render, verify_and_filter}
use nft_auth_whitelist.Pipeline.Outputs.{AreApart, IsMarshalled}
use nft_auth_whitelist.Puller.Defs.{
  PullerConfig, Options, World, Finish, fetched, pipeline_params, fetch_envelope,
}
use nft_auth_whitelist.Puller.Run.{pulled, run_once}
use nft_auth_whitelist.Puller.Cycle.{IsExported, run_once-Ends}
use nft_auth_whitelist.Puller.Success.{AllSucceed, IsAsked, guards, run_once-IsDone}

-- The cycle writes, every call of the system succeeds, and the files have names of their own.
pub record IsWorking (opts : Options) (w : World) (cfg : PullerConfig) : Type 0 where
  pub asked : IsAsked opts cfg
  pub calls : AllSucceed w
  pub apart : AreApart w.state w.allow (pipeline_params cfg)

-- The cycle succeeded: allow.txt is the list of the result, and the guard has its script.
pub record HasList (syn : AddressSyntax) (opts : Options) (cfg : PullerConfig) (loaded : List Text)
    (res : Result) (f : Finish) : Type 0 where
  pub error : f.error ≡ none
  pub allow : find cfg.output_allow_txt f.disk.files ≡ some (new_file (render res.cidrs) 0o600)
  pub guard : f.loaded ≡ guards syn opts cfg res.cidrs loaded

module _ (crypto : Crypto) (syn : AddressSyntax) (env_json : EnvelopeJson) (json : StateJson)
    (opts : Options) (w : World) (now : Time) (cfg : PullerConfig) (d : Disk) (al : Log)
    (loaded : List Text) (env : Envelope) (res : Result) (work : IsWorking opts w cfg)
    (s : fetch_envelope env_json w cfg d ≡ fetched env)
    (v : (verify_and_filter crypto syn env (pipeline_params cfg) (pulled env al) now).0
      ≡ filtered res)
    (m : IsMarshalled json now res (pipeline_params cfg)) where
  exported-result :
      {f : Finish}
      → (x : IsExported crypto syn env_json json opts w now cfg d al loaded f) → x.res ≡ res
  exported-result x = let a = x.source in let b = x.verified in let same : x.env ≡ env = cc in cc

  -- A working cycle whose source gives an envelope that VerifyAndFilter accepts has no error;
  -- allow.txt is the list of the result, and nft has loaded its script if that is asked for and
  -- allowed.
  pub run_once-HasList :
      HasList syn opts cfg loaded res (run_once crypto syn env_json json opts w now cfg d al loaded)
  run_once-HasList =
      let done =
        run_once-IsDone crypto syn env_json json opts w now cfg work.calls work.asked d al loaded
          env res s v m in
      elim (run_once-Ends crypto syn env_json json opts w now cfg d al loaded work.apart) [
        | inl x ↦ let e = x.error in let k = done.error in absurd (cc)
        | inr (inl x) ↦ let e = x.asked in let k = work.asked.writes in absurd (cc)
        | inr (inr x) ↦
            let e = exported-result x in
            let a = x.allow in record { error = done.error; allow = cc; guard = done.guard }
      ]

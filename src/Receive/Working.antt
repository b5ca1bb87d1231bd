-- ===== src/Receive/Working.antt =====
-- A process that loads its configuration and whose calls succeed replaces allow.txt.
use nft_auth_whitelist.Prelude.{ℕ, some, [], ◌∷◌, ◌≡◌, inl, inr, true, false}
use nft_auth_whitelist.Text.{Text}
use nft_auth_whitelist.Dict.{find}
use nft_auth_whitelist.Signer.{Envelope, Crypto}
use nft_auth_whitelist.Net.Ip.{AddressSyntax}
use nft_auth_whitelist.AtomicFile.{Disk, new_file}
use nft_auth_whitelist.Version.{Build}
use nft_auth_whitelist.Config.{ReceiveConfig, Decoder, loaded, load_receive_config}
use nft_auth_whitelist.Pipeline.{Result, StateJson, filtered, verify_and_filter, render}
use nft_auth_whitelist.Pipeline.Outputs.{IsMarshalled}
use nft_auth_whitelist.Receive.Defs.{EnvelopeJson, Finish, pipeline_params}
use nft_auth_whitelist.Receive.Program.{Process, Exit, exit_of, with_config, main}
use nft_auth_whitelist.Receive.Outcome.{IsApplied}
use nft_auth_whitelist.Receive.Exits.{AreTemporary, main-Exits}
use nft_auth_whitelist.Receive.Success.{IsReadable, AllSucceed, read_limited-IsReadable, run-none}

-- The process succeeded, and allow.txt is the list of the result.
pub record HasList (cfg : ReceiveConfig) (res : Result) (e : Exit) : Type 0 where
  pub status : e.status ≡ 0
  pub allow : find cfg.output_allow_txt e.disk.files ≡ some (new_file (render res.cidrs) 0o600)

module _ (clean : Text → Text) (decode : Decoder ReceiveConfig) where
  -- The process is asked to run, has the configuration, and every call of the system succeeds.
  pub record IsWorking (p : Process) (d : Disk) (cfg : ReceiveConfig) : Type 0 where
    pub runs : p.show_version ≡ false
    pub loads : load_receive_config clean decode p.config_readable d p.config_path ≡ loaded cfg
    pub temporary : AreTemporary p.answers cfg
    pub audit : p.audit_opens ≡ true
    pub writes : AllSucceed p.answers

module _ (crypto : Crypto) (syn : AddressSyntax) (env_json : EnvelopeJson) (json : StateJson)
    (clean : Text → Text) (decode : Decoder ReceiveConfig) (build : Build) where
  module _ (p : Process) (d : Disk) (cfg : ReceiveConfig) (work : IsWorking clean decode p d cfg)
      (c : ℕ) (b : Text) (env : Envelope) (res : Result) (r : IsReadable cfg p.stdin (c ∷ b))
      (u : env_json.unmarshal (c ∷ b) ≡ some env)
      (v : (verify_and_filter crypto syn env (pipeline_params cfg) [] p.now).0 ≡ filtered res)
      (m : IsMarshalled json p.now res (pipeline_params cfg)) where
    main-status : (main crypto syn env_json json clean decode build p d).status ≡ 0
    unfolding main with_config exit_of
    main-status =
        let e =
          run-none crypto syn env_json json p.answers cfg p.now work.writes p.stdin d [] c b env res
            r u v m in
        simp (main, with_config, work.runs, work.loads, work.audit, exit_of, e)

    -- What an accepted run has read and verified is the given envelope.
    applied-result :
        {f : Finish} → (a : IsApplied crypto syn env_json json cfg p.now [] p.stdin f) → a.res ≡ res
    applied-result a =
        let x = a.input in
        let y = a.parsed in
        let z = a.verified in let e = read_limited-IsReadable cfg p.stdin (c ∷ b) r in cc

    -- A working process whose input is an envelope that VerifyAndFilter accepts exits with status
    -- 0, and allow.txt is the list of the result.
    pub main-HasList : HasList cfg res (main crypto syn env_json json clean decode build p d)
    main-HasList =
        elim (main-Exits crypto syn env_json json clean decode build p d cfg work.runs work.loads
          work.temporary) [
            | inl f ↦ let x = f.status in let y = main-status in absurd (cc)
            | inr a ↦
                let e = applied-result a.applied in
                let x = a.disk in
                let y = a.applied.allow in record { status = a.status; allow = cc }
          ]

-- ===== src/Receive/Exits.antt =====
-- The exit status of the receiver tells whether allow.txt was replaced by a verified list.
use nft_auth_whitelist.Prelude.{[], ◌≡◌, ◌≢◌, ◌⊎◌, inl, inr, refl, ap, false, Bool-cases}
use nft_auth_whitelist.Text.{Text, text_eq, text_eq_iff}
use nft_auth_whitelist.Dict.{find}
use nft_auth_whitelist.Signer.{Crypto}
use nft_auth_whitelist.Net.Ip.{AddressSyntax}
use nft_auth_whitelist.AtomicFile.{Disk}
use nft_auth_whitelist.Version.{Build}
use nft_auth_whitelist.Config.{ReceiveConfig, Decoder, loaded, load_receive_config}
use nft_auth_whitelist.Config.Paths.{IsSafe}
use nft_auth_whitelist.Config.Programs.{IsReceiverReady, load_receive_config-IsReady}
use nft_auth_whitelist.Pipeline.{StateJson}
use nft_auth_whitelist.Receive.Defs.{EnvelopeJson, Answers, Finish, run}
use nft_auth_whitelist.Receive.Program.{Process, Exit, exit_of, with_config, main}
use nft_auth_whitelist.Receive.Outcome.{AreApart, IsKept, IsApplied, run-IsApplied}

-- The names of the temporary files are new: they are not those of the outputs.
pub record AreTemporary (io : Answers) (cfg : ReceiveConfig) : Type 0 where
  pub allow : text_eq io.allow.tmp cfg.output_allow_txt ≡ false
  pub state : text_eq io.state.tmp cfg.output_state_json ≡ false
  pub state_allow : text_eq io.state.tmp cfg.output_allow_txt ≡ false
  pub inbox_allow : text_eq io.inbox.tmp cfg.output_allow_txt ≡ false

-- Paths that differ when they are cleaned differ.
apart_of_clean : (clean : Text → Text) (a b : Text) → clean a ≢ clean b → text_eq a b ≡ false
apart_of_clean clean a b h = elim (Bool-cases (text_eq a b)) [
  | inl e ↦ absurd (h (ap clean ((text_eq_iff a b).0 e)))
  | inr e ↦ e
]

outputs_apart :
    (clean : Text → Text) (io : Answers) (cfg : ReceiveConfig)
    → IsSafe clean cfg
    → AreTemporary io cfg
    → AreApart io cfg
outputs_apart clean io cfg s t = record {
  outputs = record {
    tmp_allow = t.allow;
    tmp_state = t.state;
    other_tmp = t.state_allow;
    outputs = apart_of_clean clean _ _ s.state_allow;
  };
  inbox = apart_of_clean clean _ _ s.inbox_allow;
  inbox_tmp = t.inbox_allow;
}

module _ (crypto : Crypto) (syn : AddressSyntax) (env_json : EnvelopeJson) (json : StateJson)
    (clean : Text → Text) (decode : Decoder ReceiveConfig) (build : Build) where
  module _ (p : Process) (d : Disk) (cfg : ReceiveConfig) where
    abbrev finished : Finish
    finished = run crypto syn env_json json p.answers p.now cfg p.stdin d []

    -- The process failed, and allow.txt is the old one.
    pub record IsRefused (e : Exit) : Type 0 where
      pub status : e.status ≡ 1
      pub allow : find cfg.output_allow_txt e.disk.files ≡ find cfg.output_allow_txt d.files

    -- The process succeeded: its configuration is safe, and its run applied the list.
    pub record IsAccepted (e : Exit) : Type 0 where
      pub status : e.status ≡ 0
      pub ready : IsReceiverReady clean cfg
      pub applied : IsApplied crypto syn env_json json cfg p.now [] p.stdin finished
      pub disk : e.disk ≡ finished.disk

    finish_cases :
        IsReceiverReady clean cfg
        → (IsKept crypto syn env_json json cfg (find cfg.output_allow_txt d.files) finished
            ⊎ IsApplied crypto syn env_json json cfg p.now [] p.stdin finished)
        → IsRefused (exit_of crypto syn env_json json clean decode build finished)
          ⊎ IsAccepted (exit_of crypto syn env_json json clean decode build finished)
    unfolding exit_of
    finish_cases ready (inl k) = inl (record { status = rw (k.error); allow = k.allow })
    finish_cases ready (inr a) =
        inr (record { status = rw (a.error); ready = ready; applied = a; disk = refl })

    -- If the receiver is not asked for its version, loads its configuration, and its temporary
    -- files have names of their own, then it exits with status 1 and allow.txt is as it was; or it
    -- exits with status 0, its configuration has a long secret, three files apart and positive
    -- limits, its input is an envelope that VerifyAndFilter accepts, and the disk is that of the
    -- run, where allow.txt is the list of the result.
    pub main-Exits :
        p.show_version ≡ false
        → load_receive_config clean decode p.config_readable d p.config_path ≡ loaded cfg
        → AreTemporary p.answers cfg
        → IsRefused (main crypto syn env_json json clean decode build p d)
          ⊎ IsAccepted (main crypto syn env_json json clean decode build p d)
    unfolding main with_config
    main-Exits v l t =
        let ready =
          load_receive_config-IsReady clean decode p.config_readable d p.config_path cfg l in
        elim (Bool-cases p.audit_opens) [
          | inr a ↦ simp (main, with_config, v, l, a) (inl (record { status = refl; allow = refl }))
          | inl a ↦
              simp (main, with_config, v, l, a)
                (finish_cases ready (
                  run-IsApplied crypto syn env_json json p.answers cfg p.now p.stdin d []
                    (outputs_apart clean p.answers cfg ready.safe t)))
        ]

-- ===== src/Receive/Outcome.antt =====
-- A run applies a new allow.txt, or fails and leaves the one that was there.
use nft_auth_whitelist.Prelude.{
  Option, none, some, [], ◌∷◌, ◌≡◌, ◌⊎◌, inl, inr, refl, ap, ◌∙◌, false,
}
use nft_auth_whitelist.Text.{Text, text_eq}
use nft_auth_whitelist.Dict.{find}
use nft_auth_whitelist.Clock.{Time}
use nft_auth_whitelist.Signer.{Envelope, Crypto}
use nft_auth_whitelist.Net.Ip.{AddressSyntax}
use nft_auth_whitelist.AtomicFile.{
  Disk, File, Syscall, new_file, write_with_dir, find-write_with_dir_ne,
}
use nft_auth_whitelist.Audit.{Log}
use nft_auth_whitelist.Pipeline.{
  Result, StateJson, Verdict, WriteError, rejected, filtered, render, verify_and_filter,
}
use nft_auth_whitelist.Pipeline.Outputs
use nft_auth_whitelist.Pipeline.Outputs.{allow_file, write_outputs-allow_file}
use nft_auth_whitelist.Receive.Defs.{
  Stdin, ReceiveConfig, ReceiveError, EnvelopeJson, Answers, Finish, ReadResult, data_, failed,
  pipeline_params, finish, export_outputs, after_verdict, after_parse, after_read, read_limited,
  run,
}

-- The paths of the files and of the temporary files are apart.
pub record AreApart (io : Answers) (cfg : ReceiveConfig) : Type 0 where
  pub outputs : Outputs.AreApart io.state io.allow (pipeline_params cfg)
  pub inbox : text_eq cfg.inbox_allow_json cfg.output_allow_txt ≡ false
  pub inbox_tmp : text_eq io.inbox.tmp cfg.output_allow_txt ≡ false

module _ (crypto : Crypto) (syn : AddressSyntax) (env_json : EnvelopeJson) (json : StateJson) where
  -- The run failed, and allow.txt is the old one.
  pub record IsKept (cfg : ReceiveConfig) (old : Option File) (f : Finish) : Type 0 where
    pub why : ReceiveError
    pub error : f.error ≡ some why
    pub allow : find cfg.output_allow_txt f.disk.files ≡ old

  -- The input is an envelope that was accepted, and allow.txt is its list.
  pub record IsApplied (cfg : ReceiveConfig) (now : Time) (al : Log) (stdin : Stdin) (f : Finish)
      : Type 0 where
    pub bytes : Text
    pub env : Envelope
    pub res : Result
    pub input : read_limited stdin cfg.input_max_bytes ≡ data_ bytes
    pub parsed : env_json.unmarshal bytes ≡ some env
    pub verified : (verify_and_filter crypto syn env (pipeline_params cfg) al now).0 ≡ filtered res
    pub error : f.error ≡ none
    pub allow : find cfg.output_allow_txt f.disk.files ≡ some (new_file (render res.cidrs) 0o600)

  module _ (io : Answers) (cfg : ReceiveConfig) (now : Time) (stdin : Stdin) (d : Disk) (al : Log)
      (apart : AreApart io cfg) where
    abbrev old : Option File
    old = find cfg.output_allow_txt d.files

    -- What the last steps leave, for a result.
    abbrev Ends : Result → Finish → Type 0
    Ends res f =
        IsKept cfg old f
        ⊎ ((f.error ≡ none)
            × (find cfg.output_allow_txt f.disk.files ≡ some (new_file (render res.cidrs) 0o600)))

    finish_cases :
        (res : Result) (w : Option WriteError × Disk × Log)
        → find cfg.output_allow_txt w.1.files ≡ allow_file w.0 res old
        → Ends res (finish crypto syn env_json json cfg res w)
    unfolding finish
    finish_cases res (some e, d', l) h = inl (record { why = _; error = refl; allow = h })
    finish_cases res (none, d', l) h = inr (refl, h)

    export_cases :
        (res : Result) (l : Log) (w : Option Syscall × Disk)
        → find cfg.output_allow_txt w.1.files ≡ old
        → Ends res (export_outputs crypto syn env_json json io now cfg res l w)
    unfolding export_outputs
    export_cases res l (some e, d') h = inl (record { why = _; error = refl; allow = h })
    export_cases res l (none, d') h = finish_cases res _ (
        write_outputs-allow_file json io.state io.allow now res (pipeline_params cfg) d' l
          apart.outputs
        ∙ ap (allow_file _ res) h)

    abbrev Answer : Finish → Type 0
    Answer f = IsKept cfg old f ⊎ IsApplied cfg now al stdin f

    verdict_cases :
        (b : Text) (env : Envelope) (v : Verdict × Log)
        → read_limited stdin cfg.input_max_bytes ≡ data_ b
        → env_json.unmarshal b ≡ some env
        → (verify_and_filter crypto syn env (pipeline_params cfg) al now).0 ≡ v.0
        → Answer (after_verdict crypto syn env_json json io now cfg b d v)
    unfolding after_verdict
    verdict_cases b env (rejected e, l) r p h = inl (record { why = _; error = refl; allow = refl })
    verdict_cases b env (filtered res, l) r p h =
        elim (export_cases res l (write_with_dir io.inbox cfg.inbox_allow_json b 0o600 d) (
          find-write_with_dir_ne io.inbox cfg.inbox_allow_json b 0o600 cfg.output_allow_txt
            apart.inbox_tmp apart.inbox d)) [
              | inl kept ↦ inl kept
              | inr (e, f) ↦ inr (record {
                bytes = b;
                env = env;
                res = res;
                input = r;
                parsed = p;
                verified = h;
                error = e;
                allow = f;
              })
            ]

    parse_cases :
        (b : Text) (p : Option Envelope)
        → read_limited stdin cfg.input_max_bytes ≡ data_ b
        → env_json.unmarshal b ≡ p
        → Answer (after_parse crypto syn env_json json io now cfg b d al p)
    unfolding after_parse
    parse_cases b none r h = inl (record { why = _; error = refl; allow = refl })
    parse_cases b (some env) r h = verdict_cases b env _ r h refl

    read_cases :
        (r : ReadResult)
        → read_limited stdin cfg.input_max_bytes ≡ r
        → Answer (after_read crypto syn env_json json io now cfg d al r)
    unfolding after_read
    read_cases (failed e) h = inl (record { why = e; error = refl; allow = refl })
    read_cases (data_ []) h = inl (record { why = _; error = refl; allow = refl })
    read_cases (data_ (c ∷ b)) h = parse_cases (c ∷ b) _ h refl

    -- With the paths of the outputs and of the temporary files apart, a run of the receiver fails
    -- and leaves allow.txt as it was, or it has no error, its input is within the limit and is an
    -- envelope that VerifyAndFilter accepts, and allow.txt is the list of the result.
    pub run-IsApplied : Answer (run crypto syn env_json json io now cfg stdin d al)
    unfolding run
    run-IsApplied = read_cases (read_limited stdin cfg.input_max_bytes) refl

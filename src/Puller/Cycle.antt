-- ===== src/Puller/Cycle.antt =====
-- A cycle fails and leaves allow.txt and the guard alone, is a dry run, or exports what it verified.
use nft_auth_whitelist.Prelude.{
  Option, none, some, List, ◌∷◌, ◌≡◌, ◌⊎◌, inl, inr, refl, true, Bool-cases,
}
use nft_auth_whitelist.Text.{Text}
use nft_auth_whitelist.Dict.{find}
use nft_auth_whitelist.Clock.{Time}
use nft_auth_whitelist.Signer.{Envelope, Crypto}
use nft_auth_whitelist.Net.Ip.{AddressSyntax}
use nft_auth_whitelist.AtomicFile.{Disk, File, new_file}
use nft_auth_whitelist.Audit.{Log}
use nft_auth_whitelist.Nft
use nft_auth_whitelist.Nft.{ApplyError}
use nft_auth_whitelist.Receive.{EnvelopeJson}
use nft_auth_whitelist.Pipeline.{
  Result, StateJson, Verdict, WriteError, rejected, filtered, render, verify_and_filter,
}
use nft_auth_whitelist.Pipeline.Outputs.{AreApart, allow_file, write_outputs-allow_file}
use nft_auth_whitelist.Puller.Defs.{
  PullerConfig, Options, World, PullError, Fetched, Finish, fetch_failed, fetched, not_applied,
  pipeline_params, apply_allowed, fetch_envelope, build_nft_script,
}
use nft_auth_whitelist.Puller.Run.{
  pulled, dry_run_report, after_apply, apply_guard, after_outputs, after_verdict, after_fetch,
  is_refused, run_once,
}

module _ (crypto : Crypto) (syn : AddressSyntax) (env_json : EnvelopeJson) (json : StateJson)
    (opts : Options) (w : World) (now : Time) (cfg : PullerConfig) (d : Disk) (al : Log)
    (loaded : List Text) where
  abbrev old : Option File
  old = find cfg.output_allow_txt d.files

  pub record IsFailed (f : Finish) : Type 0 where
    pub why : PullError
    pub error : f.error ≡ some why
    pub allow : find cfg.output_allow_txt f.disk.files ≡ old
    pub guard : f.loaded ≡ loaded

  pub record IsDry (f : Finish) : Type 0 where
    pub asked : opts.dry_run ≡ true
    pub error : f.error ≡ none
    pub disk : f.disk ≡ d
    pub guard : f.loaded ≡ loaded

  -- After the export: nft loaded the script, or the guard is as it was.
  abbrev pub Guarded : List Text → Finish → Type 0
  Guarded cidrs f =
      ((opts.apply ≡ true)
        × (apply_allowed cfg ≡ true)
        × (f.error ≡ none)
        × (f.loaded ≡ build_nft_script syn cfg cidrs ∷ loaded))
      ⊎ ((f.loaded ≡ loaded)
          × ((f.error ≡ none)
              ⊎ ((e : ApplyError) × (f.error ≡ some (not_applied e)) × (apply_allowed cfg ≡ true))))

  pub record IsExported (f : Finish) : Type 0 where
    pub env : Envelope
    pub res : Result
    pub source : fetch_envelope env_json w cfg d ≡ fetched env
    pub verified :
        (verify_and_filter crypto syn env (pipeline_params cfg) (pulled env al) now).0
        ≡ filtered res
    pub allow : find cfg.output_allow_txt f.disk.files ≡ some (new_file (render res.cidrs) 0o600)
    pub guard : Guarded res.cidrs f

  guard_cases :
      (cidrs : List Text) (d' : Disk) (l : Log)
      → (let f = apply_guard crypto syn env_json json opts w cfg cidrs d' l loaded in
          Guarded cidrs f × (f.disk ≡ d'))
  unfolding apply_guard after_apply
  guard_cases cidrs d' l = elim (Bool-cases opts.apply) [
    | inr a ↦ rw (apply_guard, a) (inr (refl, inl refl), refl)
    | inl a ↦ elim (Bool-cases (apply_allowed cfg)) [
      | inr b ↦ rw (apply_guard, a, b) (inr (refl, inl refl), refl)
      | inl b ↦ elim (Nft.apply_cases w.nft (build_nft_script syn cfg cidrs) loaded) [
        | inl s ↦ rw (apply_guard, a, b, s) (inl (refl, refl, refl, refl), refl)
        | inr (e, s) ↦ rw (apply_guard, a, b, s) (inr (refl, inr (e, refl, refl)), refl)
      ]
    ]
  ]

  -- How a cycle can end.
  abbrev pub Ends : Finish → Type 0
  Ends f = IsFailed f ⊎ (IsDry f ⊎ IsExported f)

  outputs_cases :
      (env : Envelope) (res : Result) (r : Option WriteError × Disk × Log)
      → fetch_envelope env_json w cfg d ≡ fetched env
      → (verify_and_filter crypto syn env (pipeline_params cfg) (pulled env al) now).0
        ≡ filtered res
      → find cfg.output_allow_txt r.1.files ≡ allow_file r.0 res old
      → Ends (after_outputs crypto syn env_json json opts w cfg res.cidrs loaded r)
  unfolding after_outputs
  outputs_cases env res (some e, d', l) s v h =
      inl (record { why = _; error = refl; allow = h; guard = refl })
  outputs_cases env res (none, d', l) s v h =
      let (g, same) = guard_cases res.cidrs d' l in
      inr (
        inr
          (record { env = env; res = res; source = s; verified = v; allow = rw same h; guard = g }))

  module _ (apart : AreApart w.state w.allow (pipeline_params cfg)) where
    verdict_cases :
        (env : Envelope) (v : Verdict × Log)
        → fetch_envelope env_json w cfg d ≡ fetched env
        → (verify_and_filter crypto syn env (pipeline_params cfg) (pulled env al) now).0 ≡ v.0
        → Ends (after_verdict crypto syn env_json json opts w now cfg d loaded v)
    unfolding after_verdict dry_run_report
    verdict_cases env (rejected e, l) s h =
        inl (record { why = _; error = refl; allow = refl; guard = refl })
    verdict_cases env (filtered res, l) s h = elim (Bool-cases opts.dry_run) [
      | inl t ↦
          simp (after_verdict, t)
            (inr (inl (record { asked = t; error = refl; disk = refl; guard = refl })))
      | inr t ↦
          simp (after_verdict, t)
            (outputs_cases env res _ s h (
              write_outputs-allow_file json w.state w.allow now res (pipeline_params cfg) d l
                apart))
    ]

    fetch_cases :
        (r : Fetched)
        → fetch_envelope env_json w cfg d ≡ r
        → Ends (after_fetch crypto syn env_json json opts w now cfg d al loaded r)
    unfolding after_fetch
    fetch_cases (fetch_failed e) h =
        inl (record { why = _; error = refl; allow = refl; guard = refl })
    fetch_cases (fetched env) h = verdict_cases env _ h refl

    -- With the paths of the outputs and of the temporary files apart, a pull cycle fails and leaves
    -- allow.txt and the loaded guards alone; or it is a dry run, without error, that changes
    -- neither the disk nor the guards; or it fetched an envelope that VerifyAndFilter accepts,
    -- allow.txt is the list of the result, and nft has loaded the script for the list only if that
    -- was asked for and allowed, without error, and otherwise the guards are as they were and an
    -- error can only be that of nft.
    pub run_once-Ends : Ends (run_once crypto syn env_json json opts w now cfg d al loaded)
    unfolding run_once
    run_once-Ends = elim (Bool-cases (is_refused cfg)) [
      | inl t ↦
          rw (run_once, t) (inl (record { why = _; error = refl; allow = refl; guard = refl }))
      | inr t ↦ rw (run_once, t) (fetch_cases _ refl)
    ]

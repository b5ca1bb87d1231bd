-- ===== src/Puller/Cycles.antt =====
-- Over any number of cycles allow.txt is the one of the start or one that a cycle exported whole.
use mathlib.Core.List.{append_assoc}
use nft_auth_whitelist.Prelude.{
  List, [], ◌∷◌, ◌++◌, ◌≡◌, inl, inr, refl, ap, subst, ◌∙◌, false, ◌||◌, All, Bool-cases,
}
use nft_auth_whitelist.Text.{Text}
use nft_auth_whitelist.Dict.{find}
use nft_auth_whitelist.Signer.{Crypto}
use nft_auth_whitelist.Net.Ip.{AddressSyntax}
use nft_auth_whitelist.Config.{Decoder, loaded, load_puller_config}
use nft_auth_whitelist.Pipeline.{StateJson}
use nft_auth_whitelist.Pipeline.Outputs.{AreApart}
use nft_auth_whitelist.Receive.{EnvelopeJson}
use nft_auth_whitelist.Puller.Defs.{PullerConfig, Options, pipeline_params}
use nft_auth_whitelist.Puller.Cycle.{IsExported, run_once-Ends}
use nft_auth_whitelist.Puller.Program.{
  Round, State, Process, Exit, ended, stopped, finished, cycle, cycles, with_config, main,
}

module _ (crypto : Crypto) (syn : AddressSyntax) (env_json : EnvelopeJson) (json : StateJson)
    (opts : Options) (cfg : PullerConfig) where
  -- Where allow.txt comes from, for a start and the rounds of the run.
  pub data Origin (rs : List Round) (start s : State) : Type 0 where
    kept :
        find cfg.output_allow_txt s.disk.files ≡ find cfg.output_allow_txt start.disk.files
        → Origin rs start s
    -- One of the rounds, in the state that the rounds before it had left, exported the file.
    exported :
        (before : List Round) (r : Round) (later : List Round)
        → rs ≡ before ++ r ∷ later
        → (let t = cycles crypto syn env_json json opts cfg before start in
            IsExported crypto syn env_json json opts r.world r.now cfg t.disk t.audit t.guards
              (finished crypto syn env_json json opts cfg r t)
            × (find cfg.output_allow_txt s.disk.files
                ≡ find cfg.output_allow_txt
                    (finished crypto syn env_json json opts cfg r t).disk.files))
        → Origin rs start s

  abbrev pub HasApart : Round → Type 0
  HasApart r = AreApart r.world.state r.world.allow (pipeline_params cfg)

  abbrev run : List Round → State → State
  run = cycles crypto syn env_json json opts cfg

  run-append :
      (before : List Round) (r : Round) (s : State)
      → run (before ++ r ∷ []) s ≡ cycle crypto syn env_json json opts cfg r (run before s)
  unfolding cycles
  run-append [] r s = refl
  run-append (q ∷ before) r s = run-append before r (cycle crypto syn env_json json opts cfg q s)

  -- A state with the same allow.txt has it from the same place.
  Origin-same :
      (rs : List Round) (start s s' : State)
      → find cfg.output_allow_txt s'.disk.files ≡ find cfg.output_allow_txt s.disk.files
      → Origin rs start s
      → Origin rs start s'
  Origin-same rs start s s' e (kept k) = kept (e ∙ k)
  Origin-same rs start s s' e (exported before r later p (x, k)) =
      exported before r later p (x, e ∙ k)

  module _ (start : State) (before : List Round) (r : Round) (later : List Round) where
    cycle-Origin :
        HasApart r
        → Origin (before ++ r ∷ later) start (run before start)
        → Origin
            (before ++ r ∷ later)
            start
            (cycle crypto syn env_json json opts cfg r (run before start))
    unfolding cycle
    cycle-Origin a o =
        let s = run before start in
        elim (run_once-Ends crypto syn env_json json opts r.world r.now cfg s.disk s.audit s.guards
          a) [
            | inl f ↦ Origin-same _ start s _ f.allow o
            | inr (inl f) ↦
                Origin-same _ start s _ (ap (λ d. find cfg.output_allow_txt d.files) f.disk) o
            | inr (inr x) ↦ exported before r later refl (x, refl)
          ]

  cycles-Origin :
      (start : State) (before rs : List Round)
      → All HasApart rs
      → Origin (before ++ rs) start (run before start)
      → Origin (before ++ rs) start (run rs (run before start))
  unfolding cycles
  cycles-Origin start before [] h o = o
  cycles-Origin start before (r ∷ rs) h o =
      let step = cycle crypto syn env_json json opts cfg r (run before start) in
      let same = append_assoc before (r ∷ []) rs in
      let after = run-append before r start in
      let moved : Origin ((before ++ r ∷ []) ++ rs) start (run (before ++ r ∷ []) start) =
        rw (same, after) (cycle-Origin start before r rs h.0 o) in
      subst (λ l. Origin l start (run rs step)) same
        (subst (λ t. Origin ((before ++ r ∷ []) ++ rs) start (run rs t)) after
          (cycles-Origin start (before ++ r ∷ []) rs h.1 moved))

abbrev pub state_of : Exit → State
state_of (ended status s) = s
state_of (stopped s) = s

module _ (crypto : Crypto) (syn : AddressSyntax) (env_json : EnvelopeJson) (json : StateJson)
    (clean : Text → Text) (decode : Decoder PullerConfig) where
  -- If the puller is not asked for its version, loads its configuration, and in each cycle the
  -- paths of the outputs and of the temporary files are apart, then after any number of cycles
  -- allow.txt is the one of the start, or the one that a cycle of this run left which, in the world
  -- and at the time of that cycle and from what the cycles before it had left, exported the list of
  -- an envelope that it fetched and verified.
  pub main-Origin :
      (p : Process) (s : State) (cfg : PullerConfig)
      → p.show_version ≡ false
      → load_puller_config clean decode p.config_readable s.disk p.config_path ≡ loaded cfg
      → All (HasApart crypto syn env_json json p.options cfg) (p.first ∷ p.ticks)
      → Origin crypto syn env_json json p.options cfg
          (p.first ∷ p.ticks)
          s
          (state_of (main crypto syn env_json json clean decode p s))
  unfolding main with_config cycles
  main-Origin p s cfg v l h = elim (Bool-cases p.audit_opens) [
    | inr a ↦ simp (main, with_config, v, l, a) (kept refl)
    | inl a ↦ elim (Bool-cases (p.once || p.options.dry_run)) [
      | inl b ↦
          simp (main, with_config, v, l, a, b)
            (cycle-Origin crypto syn env_json json p.options cfg s [] p.first p.ticks h.0
              (kept refl))
      | inr b ↦
          simp (main, with_config, v, l, a, b)
            (cycles-Origin crypto syn env_json json p.options cfg s [] (p.first ∷ p.ticks) h
              (kept refl))
    ]
  ]

-- ===== src/Pipeline/Outputs.antt =====
-- WriteOutputs: allow.txt is written last and whole, or left as it was.
use nft_auth_whitelist.Prelude.{
  Option, none, some, ◌≡◌, inl, inr, false, Option-cases, Bool-cases, arith, [],
}
use nft_auth_whitelist.Text.{Text, text_eq}
use nft_auth_whitelist.Dict.{find}
use nft_auth_whitelist.Clock.{Time}
use nft_auth_whitelist.AtomicFile.{
  Disk, File, Outcomes, new_file, find-write_with_dir, find-write_with_dir_ne, Succeeds,
  write_with_dir-Succeeds,
}
use nft_auth_whitelist.Audit.{Log}
use nft_auth_whitelist.Pipeline.Defs.{
  Params, Result, State, state_for, StateJson, WriteError, render, failed, write_allow, write_state,
  after_state, write_outputs,
}

-- The paths of the outputs and of the temporary files are apart.
pub record AreApart (io_state io_allow : Outcomes) (p : Params) : Type 0 where
  pub tmp_allow : text_eq io_allow.tmp p.output_allow_txt ≡ false
  pub tmp_state : text_eq io_state.tmp p.output_state_json ≡ false
  pub other_tmp : text_eq io_state.tmp p.output_allow_txt ≡ false
  pub outputs : text_eq p.output_state_json p.output_allow_txt ≡ false

-- What allow.txt holds: the CIDRs if there was no error, and what it held before otherwise.
abbrev pub allow_file : Option WriteError → Result → Option File → Option File
allow_file none res old = some (new_file (render res.cidrs) 0o600)
allow_file (some e) res old = old

module _ (json : StateJson) where
  write_allow-file :
      (io : Outcomes) (res : Result) (p : Params) (d : Disk) (al : Log)
      → text_eq io.tmp p.output_allow_txt ≡ false
      → find p.output_allow_txt (write_allow json io res p d al).1.files
        ≡ allow_file (write_allow json io res p d al).0 res (find p.output_allow_txt d.files)
  unfolding write_allow failed
  write_allow-file io res p d al h =
      let w = find-write_with_dir io p.output_allow_txt (render res.cidrs) 0o600 h d in
      ground (arith, w)

  write_state-find :
      (io : Outcomes) (state : State) (p : Params) (d : Disk) (j : Text)
      → text_eq io.tmp j ≡ false
      → text_eq p.output_state_json j ≡ false
      → find j (write_state json io state p d).1.files ≡ find j d.files
  unfolding write_state
  write_state-find io state p d j h k = elim (Option-cases (json.marshal_state state)) [
    | inl e ↦ rw (write_state, e)
    | inr (b, e) ↦
        rw (write_state, e) (find-write_with_dir_ne io p.output_state_json b 0o600 j h k d)
  ]

  after_state-file :
      (io : Outcomes) (res : Result) (p : Params) (al : Log) (w : Option WriteError × Disk)
      (old : Option File)
      → text_eq io.tmp p.output_allow_txt ≡ false
      → find p.output_allow_txt w.1.files ≡ old
      → find p.output_allow_txt (after_state json io res p al w).1.files
        ≡ allow_file (after_state json io res p al w).0 res old
  unfolding after_state failed
  after_state-file io res p al (none, d) old h k = rw (← k) (write_allow-file io res p d al h)
  after_state-file io res p al (some e, d) old h k = k

  -- With the paths of the outputs and of the temporary files apart, allow.txt holds the lines of
  -- the CIDRs after WriteOutputs if there is no error, and what it held before if there is one.
  pub write_outputs-allow_file :
      (io_state io_allow : Outcomes) (now : Time) (res : Result) (p : Params) (d : Disk) (al : Log)
      → AreApart io_state io_allow p
      → find p.output_allow_txt (write_outputs json io_state io_allow now res p d al).1.files
        ≡ allow_file
            (write_outputs json io_state io_allow now res p d al).0
            res
            (find p.output_allow_txt d.files)
  unfolding write_outputs
  write_outputs-allow_file io_state io_allow now res p d al h =
      elim (Bool-cases (text_eq p.output_state_json [])) [
        | inl e ↦ rw (write_outputs, e) (write_allow-file io_allow res p d al h.tmp_allow)
        | inr e ↦
            rw (write_outputs, e)
              (after_state-file io_allow res p al _ _ h.tmp_allow
                (write_state-find io_state _ p d p.output_allow_txt h.other_tmp h.outputs))
      ]

  -- The state of a run can be marshalled, if it is written at all.
  abbrev pub IsMarshalled : Time → Result → Params → Type 0
  IsMarshalled now res p =
      text_eq p.output_state_json [] ≡ false
      → (b : Text) × (json.marshal_state (state_for now res p) ≡ some b)

  -- With every call of the system successful, and a state that can be marshalled, there is no error.
  module _ (io_state io_allow : Outcomes) (state_ok : Succeeds io_state)
      (allow_ok : Succeeds io_allow) where
    write_allow-Succeeds :
        (res : Result) (p : Params) (d : Disk) (al : Log)
        → (write_allow json io_allow res p d al).0 ≡ none
    unfolding write_allow
    write_allow-Succeeds res p d al =
        let e =
          write_with_dir-Succeeds io_allow p.output_allow_txt (render res.cidrs) 0o600 d allow_ok in
        simp (write_allow, e)

    write_state-Succeeds :
        (st : State) (p : Params) (d : Disk) (b : Text)
        → json.marshal_state st ≡ some b
        → (write_state json io_state st p d).0 ≡ none
    unfolding write_state
    write_state-Succeeds st p d b m =
        let e = write_with_dir-Succeeds io_state p.output_state_json b 0o600 d state_ok in
        simp (write_state, m, e)

    after_state-Succeeds :
        (res : Result) (p : Params) (al : Log) (w : Option WriteError × Disk)
        → w.0 ≡ none
        → (after_state json io_allow res p al w).0 ≡ none
    unfolding after_state
    after_state-Succeeds res p al (none, d) h = write_allow-Succeeds res p d al
    after_state-Succeeds res p al (some e, d) h = absurd (cc)

    pub write_outputs-Succeeds :
        (now : Time) (res : Result) (p : Params) (d : Disk) (al : Log)
        → IsMarshalled now res p
        → (write_outputs json io_state io_allow now res p d al).0 ≡ none
    unfolding write_outputs
    write_outputs-Succeeds now res p d al m = elim (Bool-cases (text_eq p.output_state_json [])) [
      | inl e ↦ simp (write_outputs, e) (write_allow-Succeeds res p d al)
      | inr e ↦
          let (b, w) = m e in
          simp (write_outputs, e)
            (after_state-Succeeds res p al _ (write_state-Succeeds (state_for now res p) p d b w))
    ]

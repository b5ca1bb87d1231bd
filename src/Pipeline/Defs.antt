-- ===== src/Pipeline/Defs.antt =====
-- VerifyAndFilter, WriteOutputs and dedup. JSON marshalling of the state file is Go's own.
use nft_auth_whitelist.Prelude.{
  ℕ, Option, none, some, List, [], ◌∷◌, ◌++◌, Bool, false, not, ◌==◌, if◌then◌else◌, length,
}
use nft_auth_whitelist.Prelude.Int.{ℤ, pos, negsuc, ltb_ℤ}
use nft_auth_whitelist.Prelude.Sort.{sort}
use nft_auth_whitelist.Text.{Text, text, text_eq, text_lt, join}
use nft_auth_whitelist.Clock.{Time, after, is_zero}
use nft_auth_whitelist.Signer.{Entry, Envelope, Crypto, verify}
use nft_auth_whitelist.Net.Ip.{AddressSyntax}
use nft_auth_whitelist.Ipx.{canonical_cidr}
use nft_auth_whitelist.AtomicFile.{Disk, Syscall, Outcomes, write_with_dir}
use nft_auth_whitelist.Audit.{
  Action, Log, log, str, num, count, signature_ok, signature_fail, output_write_ok,
  output_write_fail,
}
use nft_auth_whitelist.Audit

pub record Params : Type 0 where
  pub hmac_secret : Text
  pub max_entries : ℤ
  pub allow_ipv4 : Bool
  pub allow_ipv6 : Bool
  pub output_allow_txt : Text
  pub output_state_json : Text
  pub source_label : Text
  pub reject_action : Action

pub record Result : Type 0 where
  pub kept : List Entry
  pub cidrs : List Text

pub record State : Type 0 where
  pub pulled_at : Time
  pub source_url : Text
  pub count : ℕ
  pub entries : List Entry

-- The state of a run.
abbrev pub state_for : Time → Result → Params → State
state_for now res p = record {
  pulled_at = now;
  source_url = p.source_label;
  count = length res.kept;
  entries = res.kept;
}

pub record StateJson : Type 0 where
  pub marshal_state : State → Option Text

pub data VerifyError : Type 0 where
  bad_signature bad_version no_expiry envelope_expired too_many : VerifyError

pub data Verdict : Type 0 where
  rejected : VerifyError → Verdict
  filtered : Result → Verdict

-- `env.Version == 1`
unfoldable pub is_one : ℤ → Bool
is_one (pos n) = n == 1
is_one (negsuc n) = false

unfoldable pub dedup_from : Text → List Text → List Text
dedup_from last [] = []
dedup_from last (s ∷ rest) =
    let fresh = s ∷ dedup_from s rest in
    let again = dedup_from last rest in if text_eq s last then again else fresh

unfoldable pub dedup : List Text → List Text
unfolding dedup_from
dedup [] = []
dedup (s ∷ rest) = s ∷ dedup_from s rest

module _ (crypto : Crypto) (syn : AddressSyntax) where
  -- One round of the loop over the entries, on what was kept so far.
  unfoldable pub keep_entry : Entry → Option Text → Result → Result
  keep_entry e none r = r
  keep_entry e (some canon) r = record {
    kept = r.kept ++ record e { cidr = canon } ∷ [];
    cidrs = r.cidrs ++ canon ∷ [];
  }

  unfoldable pub filter_step : Params → Time → Entry → Result → Result
  unfolding keep_entry
  filter_step p now e r =
      if after e.expires_at now
      then keep_entry e (canonical_cidr syn e.cidr p.allow_ipv4 p.allow_ipv6) r
      else r

  unfoldable pub filter_loop : Params → Time → List Entry → Result → Result
  unfolding filter_step
  filter_loop p now [] r = r
  filter_loop p now (e ∷ rest) r = filter_loop p now rest (filter_step p now e r)

  unfoldable pub sorted_result : Result → Result
  sorted_result r = record r { cidrs = dedup (sort text_lt r.cidrs) }

  unfoldable pub verify_and_filter : Envelope → Params → Log → Time → Verdict × Log
  unfolding sorted_result is_one
  verify_and_filter env p al now =
      let reason = text "reason" in
      let al' = log signature_ok Audit.fine [] al in
      let reject = λ (why : Text). log p.reject_action Audit.error ((reason, str why) ∷ []) al' in
      if not (verify crypto env p.hmac_secret)
      then (
        rejected VerifyError.bad_signature,
        log signature_fail Audit.error ((reason, str (text "hmac mismatch")) ∷ []) al,
      )
      else if not (is_one env.version)
      then (rejected VerifyError.bad_version, reject (text "unsupported envelope version"))
      else if is_zero env.expires_at
      then (rejected VerifyError.no_expiry, reject (text "missing envelope expiry"))
      else if not (after env.expires_at now)
      then (rejected VerifyError.envelope_expired, reject (text "envelope expired"))
      else if ltb_ℤ p.max_entries (pos (length env.entries))
      then (
        rejected VerifyError.too_many,
        log p.reject_action Audit.warn
            ((reason, str (text "envelope exceeds max_entries"))
              ∷ (text "got", count (length env.entries))
              ∷ (text "max_entries", num p.max_entries)
              ∷ [])
            al',
      )
      else (
        filtered (sorted_result (filter_loop p now env.entries (record { kept = []; cidrs = [] }))),
        al',
      )

pub data WriteError : Type 0 where
  marshal_failed : WriteError
  not_written : Syscall → WriteError

-- The text of allow.txt: a line for each CIDR.
unfoldable pub render : List Text → Text
render [] = []
render (c ∷ cs) = join (text "\n") (c ∷ cs) ++ text "\n"

-- The reason in the log is the text of the error, which is left out.
unfoldable pub failed : WriteError → Disk → Log → Option WriteError × Disk × Log
failed e d al = (some e, d, log output_write_fail Audit.error [] al)

module _ (json : StateJson) where
  -- The write of allow.txt, from the disk that the write of the state left.
  unfoldable pub write_allow :
      Outcomes → Result → Params → Disk → Log → Option WriteError × Disk × Log
  unfolding failed
  write_allow io res p d al =
      let (error, d') = write_with_dir io p.output_allow_txt (render res.cidrs) 0o600 d in
      elim error [
        | some e ↦ failed (not_written e) d' al
        | none ↦ (
          none,
          d',
          log output_write_ok Audit.fine
              ((text "entries", count (length res.cidrs))
                ∷ (text "path", str p.output_allow_txt)
                ∷ [])
              al,
        )
      ]

  unfoldable pub write_state : Outcomes → State → Params → Disk → Option WriteError × Disk
  write_state io state p d = elim (json.marshal_state state) [
    | none ↦ (some marshal_failed, d)
    | some b ↦
        let (error, d') = write_with_dir io p.output_state_json b 0o600 d in
        (elim error [ none ↦ none | some e ↦ some (not_written e) ], d')
  ]

  unfoldable pub after_state :
      Outcomes → Result → Params → Log → Option WriteError × Disk → Option WriteError × Disk × Log
  unfolding write_allow
  after_state io res p al (none, d) = write_allow io res p d al
  after_state io res p al (some e, d) = failed e d al

  -- `io_state` and `io_allow` are what the system answers to the two writes.
  unfoldable pub write_outputs :
      Outcomes → Outcomes → Time → Result → Params → Disk → Log → Option WriteError × Disk × Log
  unfolding write_state after_state
  write_outputs io_state io_allow now res p d al =
      if text_eq p.output_state_json []
      then write_allow io_allow res p d al
      else after_state io_allow res p al (write_state io_state (state_for now res p) p d)

-- ===== src/Receive/Defs.antt =====
-- The receiver. Standard input gives bytes and then ends, or fails; json.Unmarshal is Go's own.
use nft_auth_whitelist.Prelude.{Option, none, some, [], ◌∷◌, ◌++◌, Bool, leb, if◌then◌else◌, length}
use nft_auth_whitelist.Prelude.Int.{ℤ, pos, negsuc, ltb_ℤ, ◌+ℤ◌}
use nft_auth_whitelist.Text.{Text, text, itoa, prefix}
use nft_auth_whitelist.Clock.{Time}
use nft_auth_whitelist.Signer.{Envelope, Crypto}
use nft_auth_whitelist.Net.Ip.{AddressSyntax}
pub use nft_auth_whitelist.Config.{ReceiveConfig}
use nft_auth_whitelist.AtomicFile.{Disk, Syscall, Outcomes, write_with_dir}
use nft_auth_whitelist.Audit.{
  Log, Event, log, str, count, receive_success, receive_fail, output_write_fail,
}
use nft_auth_whitelist.Audit
use nft_auth_whitelist.Pipeline.{
  Params, Result, StateJson, VerifyError, Verdict, WriteError, rejected, filtered,
  verify_and_filter, write_outputs,
}

pub record Stdin : Type 0 where
  pub bytes : Text
  pub fails : Bool

pub data ReceiveError : Type 0 where
  read_failed too_long empty_input invalid_json : ReceiveError
  not_verified : VerifyError → ReceiveError
  inbox_not_written : Syscall → ReceiveError
  not_exported : WriteError → ReceiveError

pub record EnvelopeJson : Type 0 where
  pub unmarshal : Text → Option Envelope

pub data ReadResult : Type 0 where
  data_ : Text → ReadResult
  failed : ReceiveError → ReadResult

-- `io.ReadAll(io.LimitReader(r, n))`: at most n bytes, and the reader's error if it comes before.
unfoldable pub read_all : Stdin → ℤ → ReadResult
read_all s (negsuc n) = data_ []
read_all s (pos n) =
    if leb n (length s.bytes)
    then data_ (prefix n s.bytes)
    else if s.fails
    then failed ReceiveError.read_failed
    else data_ s.bytes

unfoldable pub check_length : ℤ → ReadResult → ReadResult
check_length max (failed e) = failed e
check_length max (data_ b) =
    if ltb_ℤ max (pos (length b)) then failed ReceiveError.too_long else data_ b

unfoldable pub read_limited : Stdin → ℤ → ReadResult
unfolding read_all check_length
read_limited s max = check_length max (read_all s (max +ℤ pos 1))

abbrev pub pipeline_params : ReceiveConfig → Params
pipeline_params cfg = record {
  hmac_secret = cfg.hmac_secret;
  max_entries = cfg.max_entries;
  allow_ipv4 = cfg.allow_ipv4;
  allow_ipv6 = cfg.allow_ipv6;
  output_allow_txt = cfg.output_allow_txt;
  output_state_json = cfg.output_state_json;
  source_label = text "stdin";
  reject_action = receive_fail;
}

-- What the system answers to the three writes.
pub record Answers : Type 0 where
  pub inbox : Outcomes
  pub state : Outcomes
  pub allow : Outcomes

-- What a run leaves: its error, the disk, the audit log and what it printed.
pub record Finish : Type 0 where
  pub error : Option ReceiveError
  pub disk : Disk
  pub audit : Log
  pub stdout : Text

-- The reason is the text of the error, which is left out.
abbrev reject : ReceiveError → Disk → Log → Finish
reject e d al = record {
  error = some e;
  disk = d;
  audit = log receive_fail Audit.error [] al;
  stdout = [];
}

module _ (crypto : Crypto) (syn : AddressSyntax) (env_json : EnvelopeJson) (json : StateJson) where
  unfoldable pub finish : ReceiveConfig → Result → Option WriteError × Disk × Log → Finish
  finish cfg res (some e, d, al) = record {
    error = some (not_exported e);
    disk = d;
    audit = al;
    stdout = [];
  }
  finish cfg res (none, d, al) = record {
    error = none;
    disk = d;
    audit = log receive_success Audit.fine ((text "entries", count (length res.cidrs)) ∷ []) al;
    stdout =
        text "ok entries="
        ++ (itoa (length res.cidrs) ++ (text " output=" ++ (cfg.output_allow_txt ++ text "\n")));
  }

  -- The export, after the write of the inbox copy.
  unfoldable pub export_outputs :
      Answers → Time → ReceiveConfig → Result → Log → Option Syscall × Disk → Finish
  unfolding finish
  export_outputs io now cfg res al (some e, d) = record {
    error = some (inbox_not_written e);
    disk = d;
    audit = log output_write_fail Audit.error [] al;
    stdout = [];
  }
  export_outputs io now cfg res al (none, d) =
      finish cfg res (write_outputs json io.state io.allow now res (pipeline_params cfg) d al)

  unfoldable pub after_verdict :
      Answers → Time → ReceiveConfig → Text → Disk → Verdict × Log → Finish
  unfolding export_outputs
  after_verdict io now cfg b d (rejected e, al) = record {
    error = some (not_verified e);
    disk = d;
    audit = al;
    stdout = [];
  }
  after_verdict io now cfg b d (filtered res, al) =
      export_outputs io now cfg res al (write_with_dir io.inbox cfg.inbox_allow_json b 0o600 d)

  unfoldable pub after_parse :
      Answers → Time → ReceiveConfig → Text → Disk → Log → Option Envelope → Finish
  unfolding after_verdict
  after_parse io now cfg b d al none = reject ReceiveError.invalid_json d al
  after_parse io now cfg b d al (some env) =
      after_verdict io now cfg b d (verify_and_filter crypto syn env (pipeline_params cfg) al now)

  unfoldable pub after_read : Answers → Time → ReceiveConfig → Disk → Log → ReadResult → Finish
  unfolding after_parse
  after_read io now cfg d al (failed e) = reject e d al
  after_read io now cfg d al (data_ []) = reject ReceiveError.empty_input d al
  after_read io now cfg d al (data_ (c ∷ b)) =
      after_parse io now cfg (c ∷ b) d al (env_json.unmarshal (c ∷ b))

  unfoldable pub run : Answers → Time → ReceiveConfig → Stdin → Disk → Log → Finish
  unfolding after_read
  run io now cfg stdin d al = after_read io now cfg d al (read_limited stdin cfg.input_max_bytes)
